-- ===== src/RankList/Shift.antt =====
-- The loops of the ranking: where the items and the positions go.
use ih_server.Base.{
  ℕ, zero, suc, ◌+◌, ◌-◌, ◌≤◌, ◌<◌, ℤ, List, Option, none, some, inl, inr, Bool, true, false,
  if◌then◌else◌, leb, ltb, ◌&&◌, ◌==◌, ◌=?◌, =?-iff, length, set, get_elem?-set, length-set, lookup,
  insert, lookup-insert, ◌≡◌, ◌≢◌, ◌⊎◌, refl, ap, ◌∙◌, arith,
}
use ih_server.RankList.{ShortRankItem, ShortRankList, at, move, shift_up, shift_down}

pub at-set :
    {Item : Type 0} (l : List (Option Item)) (i j : ℕ) (v : Option Item)
    → i < length l
    → at (set l i v) j ≡ (if i == j then v else at l j)
at-set l i j v h = ground (arith, get_elem?-set l i j v h)

-- A position that an interval of `c` positions from `lo` contains.
abbrev pub within : ℕ → ℕ → ℕ → Bool
within lo c j = leb lo j && ltb j (lo + c)

abbrev up_by : ℕ → ℕ → Option ℕ → Option ℕ
up_by lo c none = none
up_by lo c (some j) = some (if within lo c j then suc j else j)

abbrev down_by : ℕ → ℕ → Option ℕ → Option ℕ
down_by lo c none = none
down_by lo c (some j) = some (if within lo c j then j - 1 else j)

up_key :
    (lo c : ℕ) (b : Bool) (old new : Option ℕ)
    → new ≡ (if b then some (lo + c + 1) else old)
    → (b ≡ true → old ≡ some (lo + c))
    → (b ≡ false → old ≢ some (lo + c))
    → up_by lo c new ≡ up_by lo (suc c) old
up_key lo c true old new e t f = rw (e, t refl) (ground arith)
up_key lo c false none new e t f = rw e refl
up_key lo c false (some j) new e t f =
    let apart : j ≢ lo + c = λ h. f refl (ap some h) in rw e (ground (arith, apart))

down_key :
    (lo c : ℕ) (b : Bool) (old new : Option ℕ)
    → new ≡ (if b then some lo else old)
    → (b ≡ true → old ≡ some (suc lo))
    → (b ≡ false → old ≢ some (suc lo))
    → down_by (suc (suc lo)) c new ≡ down_by (suc lo) (suc c) old
down_key lo c true old new e t f = rw (e, t refl) (ground arith)
down_key lo c false none new e t f = rw e refl
down_key lo c false (some j) new e t f =
    let apart : j ≢ suc lo = λ h. f refl (ap some h) in rw e (ground (arith, apart))

module _ {Item : Type 0} (o : ShortRankItem Item) where
  -- The map agrees with the array on an interval: each item there is found by its key.
  pub record Tracks (lo c : ℕ) (s : ShortRankList Item) : Type 0 where
    pub filled : (j : ℕ) → lo ≤ j → j < lo + c → (x : Item) × (at s.items j ≡ some x)
    pub found :
        (j : ℕ) (x : Item)
        → lo ≤ j
        → j < lo + c
        → at s.items j ≡ some x
        → lookup (o.get_key x) s.keys_map ≡ some j
    pub keyed :
        (j : ℕ) (k : ℤ) (x : Item)
        → lo ≤ j
        → j < lo + c
        → lookup k s.keys_map ≡ some j
        → at s.items j ≡ some x
        → o.get_key x ≡ k

  -- The list after the items of an interval have moved up by one.
  pub record MovedUp (lo c : ℕ) (s q : ShortRankList Item) : Type 0 where
    pub size : length q.items ≡ length s.items
    pub frame : (q.max_num ≡ s.max_num) × (q.curr_num ≡ s.curr_num)
    pub places :
        (j : ℕ) → at q.items j ≡ (if within (suc lo) c j then at s.items (j - 1) else at s.items j)
    pub keys : (k : ℤ) → lookup k q.keys_map ≡ up_by lo c (lookup k s.keys_map)

  move-some :
      (a b : ℕ) (x : Item) (s : ShortRankList Item)
      → at s.items a ≡ some x
      → move o a b s
        ≡ record s { items = set s.items b (some x); keys_map = insert (o.get_key x) b s.keys_map }
  unfolding move
  move-some a b x s h = rw (h, move) refl

  -- One item that moves from `a` to `b`.
  record Moved (a b : ℕ) (x : Item) (s q : ShortRankList Item) : Type 0 where
    pub size : length q.items ≡ length s.items
    pub frame : (q.max_num ≡ s.max_num) × (q.curr_num ≡ s.curr_num)
    pub place : (j : ℕ) → at q.items j ≡ (if b == j then some x else at s.items j)
    pub key :
        (k : ℤ) → lookup k q.keys_map ≡ (if o.get_key x =? k then some b else lookup k s.keys_map)

  move-Moved :
      (a b : ℕ) (x : Item) (s : ShortRankList Item)
      → at s.items a ≡ some x
      → b < length s.items
      → Moved a b x s (move o a b s)
  move-Moved a b x s h l = rw (move-some a b x s h) (record {
    size = length-set s.items b (some x);
    frame = (refl, refl);
    place = λ j. at-set s.items b j (some x) l;
    key = λ k. lookup-insert (o.get_key x) k b s.keys_map;
  })

  -- What is tracked on an interval is tracked on a part of it that the move leaves alone.
  Moved-Tracks :
      (lo c lo' c' a b : ℕ) (x : Item) (s q : ShortRankList Item)
      → Moved a b x s q
      → Tracks lo c s
      → at s.items a ≡ some x
      → (lo ≤ a) × (a < lo + c)
      → (lo ≤ lo') × (lo' + c' ≤ lo + c)
      → ((a < lo') ⊎ (lo' + c' ≤ a)) × ((b < lo') ⊎ (lo' + c' ≤ b))
      → Tracks lo' c' q
  Moved-Tracks lo c lo' c' a b x s q m t at_x in_a sub apart = record {
    filled = λ j l u.
        let (y, y_at) = t.filled j (omega arith) (omega arith) in
        (y, m.place j ∙ ground (arith, y_at));
    found = λ j y l u y_at.
        let was : at s.items j ≡ some y = ground (arith, m.place j, y_at) in
        let here = t.found j y (omega arith) (omega arith) was in
        let there = t.found a x (in_a.0) (in_a.1) at_x in
        ground (arith, here, there, m.key (o.get_key y), =?-iff (o.get_key x) (o.get_key y));
    keyed = λ j k y l u k_at y_at.
        let was : at s.items j ≡ some y = ground (arith, m.place j, y_at) in
        let was_k : lookup k s.keys_map ≡ some j = ground (arith, m.key k, k_at) in
        t.keyed j k y (omega arith) (omega arith) was_k was;
  }

  at_key :
      {lo c : ℕ} {s : ShortRankList Item} (t : Tracks lo c s) (x : Item) (k : ℤ) (j : ℕ)
      → at s.items j ≡ some x
      → lo ≤ j
      → j < lo + c
      → (o.get_key x =? k ≡ true → lookup k s.keys_map ≡ some j)
        × (o.get_key x =? k ≡ false → lookup k s.keys_map ≢ some j)
  at_key t x k j at_x l u = (
    λ same. rw (← (=?-iff (o.get_key x) k).0 same) (t.found j x l u at_x),
    λ other was. ground (arith, =?-iff (o.get_key x) k, t.keyed j k x l u was at_x),
  )

  pub shift_up-MovedUp :
      (c lo : ℕ) (s : ShortRankList Item)
      → lo + c < length s.items
      → Tracks lo c s
      → MovedUp lo c s (shift_up o c lo s)
  unfolding shift_up
  shift_up-MovedUp zero lo s h t = record {
    size = refl;
    frame = (refl, refl);
    places = λ j. ground arith;
    keys = λ k. ground arith;
  }
  shift_up-MovedUp (suc c) lo s h t =
      let (x, at_x) = t.filled (lo + c) (omega arith) (omega arith) in
      let q = move o (lo + c) (lo + c + 1) s in
      let m = move-Moved (lo + c) (lo + c + 1) x s at_x (omega arith) in
      let tq =
        Moved-Tracks lo (suc c) lo c (lo + c) (lo + c + 1) x s q m t at_x (omega arith, omega arith)
          (omega arith, omega arith) (inr (omega arith), inr (omega arith)) in
      let r = shift_up-MovedUp c lo q (omega (arith, m.size)) tq in
      record {
        size = r.size ∙ m.size;
        frame = (r.frame.0 ∙ m.frame.0, r.frame.1 ∙ m.frame.1);
        places = λ j. r.places j ∙ ground (arith, m.place j, m.place (j - 1), at_x);
        keys = λ k.
            r.keys k
            ∙ up_key lo c (o.get_key x =? k) (lookup k s.keys_map) (lookup k q.keys_map) (m.key k)
                (at_key t x k (lo + c) at_x (omega arith) (omega arith)).0
                (at_key t x k (lo + c) at_x (omega arith) (omega arith)).1;
      }

  -- The list after the items of an interval that starts above `lo` have moved down by one.
  pub record MovedDown (lo c : ℕ) (s q : ShortRankList Item) : Type 0 where
    pub size : length q.items ≡ length s.items
    pub frame : (q.max_num ≡ s.max_num) × (q.curr_num ≡ s.curr_num)
    pub places :
        (j : ℕ) → at q.items j ≡ (if within lo c j then at s.items (suc j) else at s.items j)
    pub keys : (k : ℤ) → lookup k q.keys_map ≡ down_by (suc lo) c (lookup k s.keys_map)

  pub shift_down-MovedDown :
      (c lo : ℕ) (s : ShortRankList Item)
      → lo + c < length s.items
      → Tracks (suc lo) c s
      → MovedDown lo c s (shift_down o c lo s)
  unfolding shift_down
  shift_down-MovedDown zero lo s h t = record {
    size = refl;
    frame = (refl, refl);
    places = λ j. ground arith;
    keys = λ k. ground arith;
  }
  shift_down-MovedDown (suc c) lo s h t =
      let (x, at_x) = t.filled (suc lo) (omega arith) (omega arith) in
      let q = move o (suc lo) lo s in
      let m = move-Moved (suc lo) lo x s at_x (omega arith) in
      let tq =
        Moved-Tracks (suc lo) (suc c) (suc (suc lo)) c (suc lo) lo x s q m t at_x
          (omega arith, omega arith) (omega arith, omega arith)
          (inl (omega arith), inl (omega arith)) in
      let r = shift_down-MovedDown c (suc lo) q (omega (arith, m.size)) tq in
      let known = λ (k : ℤ). at_key t x k (suc lo) at_x (omega arith) (omega arith) in
      record {
        size = r.size ∙ m.size;
        frame = (r.frame.0 ∙ m.frame.0, r.frame.1 ∙ m.frame.1);
        places = λ j. r.places j ∙ ground (arith, m.place j, m.place (suc j), at_x);
        keys = λ k.
            r.keys k
            ∙ down_key lo c (o.get_key x =? k) (lookup k s.keys_map) (lookup k q.keys_map) (m.key k)
                (known k).0 (known k).1;
      }
