-- ===== src/RankList/Consistent.antt =====
-- The ranking stays consistent: the array and the map of positions describe the same ranks.
use ih_server.Base.{
  ℕ, zero, suc, ◌+◌, ◌-◌, ◌≤◌, ◌<◌, ℤ, Option, none, some, Option-cases, Bool-cases, inl, inr,
  false, if◌then◌else◌, ltb, ◌=?◌, =?-iff, length, length-set, length-replicate, replicate, lookup,
  lookup-delete, ◌≡◌, ◌≢◌, refl, sym, ◌∙◌, arith,
}
use ih_server.RankList.{ShortRankItem, ShortRankList, at, clear, shift_down, remove}
use ih_server.RankList.Shift.{at-set, Tracks, shift_down-MovedDown}

module _ {Item : Type 0} (o : ShortRankItem Item) where
  -- The items fill the ranks below `curr_num` and nothing above, each is found under its key, and
  -- every key of the map is the key of the item at its position.
  pub record Consistent (s : ShortRankList Item) : Type 0 where
    pub bound : s.curr_num ≤ s.max_num
    pub size : length s.items ≡ s.max_num
    pub filled : (j : ℕ) → j < s.curr_num → (x : Item) × (at s.items j ≡ some x)
    pub empty : (j : ℕ) → s.curr_num ≤ j → at s.items j ≡ none
    pub found :
        (j : ℕ) (x : Item) → at s.items j ≡ some x → lookup (o.get_key x) s.keys_map ≡ some j
    pub keyed :
        (j : ℕ) (k : ℤ)
        → lookup k s.keys_map ≡ some j
        → (x : Item) × (at s.items j ≡ some x) × (o.get_key x ≡ k)

  pub below :
      (s : ShortRankList Item) (c : Consistent s) (j : ℕ) (x : Item)
      → at s.items j ≡ some x
      → j < s.curr_num
  below s c j x h = elim (Bool-cases (ltb j s.curr_num)) [
    | inl under ↦ ground arith
    | inr over ↦ absurd (ground (arith, h, c.empty j (ground arith)))
  ]

  pub keyed-below :
      (s : ShortRankList Item) (c : Consistent s) (j : ℕ) (k : ℤ)
      → lookup k s.keys_map ≡ some j
      → j < s.curr_num
  keyed-below s c j k h = let (x, x_at, x_key) = c.keyed j k h in below s c j x x_at

  pub interval-Tracks :
      (lo n : ℕ) (s : ShortRankList Item) → Consistent s → lo + n ≤ s.curr_num → Tracks o lo n s
  interval-Tracks lo n s c h = record {
    filled = λ j l u. c.filled j (omega arith);
    found = λ j x l u. c.found j x;
    keyed = λ j k x l u k_at x_at.
        let (y, y_at, y_key) = c.keyed j k k_at in ground (arith, y_at, x_at, y_key);
  }

  pub empty-at : (n j : ℕ) → at (replicate {A = Option Item} n none) j ≡ none
  empty-at zero j = refl
  empty-at (suc n) zero = refl
  empty-at (suc n) (suc j) = empty-at n j

  pub clear-Consistent : (s : ShortRankList Item) → Consistent (clear s)
  unfolding clear lookup
  clear-Consistent s = record {
    bound = omega arith;
    size = length-replicate s.max_num none;
    filled = λ j h. absurd (omega arith);
    empty = λ j h. empty-at s.max_num j;
    found = λ j x h. absurd (ground (arith, empty-at s.max_num j, h));
    keyed = λ j k h. absurd (ground arith);
  }

  -- What a list is after a change, by its array and its map as functions.
  pub record Is (n : ℕ) (A : ℕ → Option Item) (K : ℤ → Option ℕ) (s q : ShortRankList Item)
      : Type 0 where
    pub count : q.curr_num ≡ n
    pub frame : (q.max_num ≡ s.max_num) × (length q.items ≡ length s.items)
    pub items : (j : ℕ) → at q.items j ≡ A j
    pub keys : (k : ℤ) → lookup k q.keys_map ≡ K k

  -- The array without position `i`, and the map without its key.
  abbrev without : ℕ → ℕ → (ℕ → Option Item) → ℕ → Option Item
  without n i A j = if ltb j i then A j else if ltb j (n - 1) then A (suc j) else none

  abbrev lowered : ℕ → Option ℕ → Option ℕ
  lowered i none = none
  lowered i (some j) = some (if ltb i j then j - 1 else j)

  pub remove-Is :
      (k : ℤ) (i : ℕ) (s : ShortRankList Item)
      → Consistent s
      → lookup k s.keys_map ≡ some i
      → i < s.curr_num
      → Is
          (s.curr_num - 1)
          (without s.curr_num i (at s.items))
          (λ k'. if k =? k' then none else lowered i (lookup k' s.keys_map))
          s
          (remove o k s).0
  unfolding remove
  remove-Is k i s c i_at lt =
      let n = s.curr_num - 1 - i in
      let r = shift_down o n i s in
      let m =
        shift_down-MovedDown o n i s (omega (arith, c.bound, c.size))
          (interval-Tracks (suc i) n s c (omega arith)) in
      rw (i_at, remove)
        (record {
          count = refl;
          frame = (m.frame.0, length-set r.items (s.curr_num - 1) none ∙ m.size);
          items = λ j.
              at-set r.items (s.curr_num - 1) j none (omega (arith, m.size, c.size, c.bound))
              ∙ ground (arith, m.places j, c.empty j);
          keys = λ k'. lookup-delete k k' r.keys_map ∙ (elim (Option-cases (lookup k' s.keys_map)) [
            | inl e ↦ ground (arith, m.keys k', e)
            | inr (j, e) ↦ ground (arith, m.keys k', e, keyed-below s c j k' e)
          ]);
        })

  remove-keyed :
      (k : ℤ) (i : ℕ) (s q : ShortRankList Item)
      → Consistent s
      → lookup k s.keys_map ≡ some i
      → Is
          (s.curr_num - 1)
          (without s.curr_num i (at s.items))
          (λ k'. if k =? k' then none else lowered i (lookup k' s.keys_map))
          s
          q
      → (j : ℕ) (k' : ℤ) → lookup k' q.keys_map ≡ some j
      → (x : Item) × (at q.items j ≡ some x) × (o.get_key x ≡ k')
  remove-keyed k i s q c i_at m j k' h = elim (Option-cases (lookup k' s.keys_map)) [
    | inl e ↦ absurd (ground (arith, m.keys k', e))
    | inr (b, e) ↦
        let (x, x_at, x_key) = c.keyed i k i_at in
        let (y, y_at, y_key) = c.keyed b k' e in
        let other : k =? k' ≡ false = ground (arith, m.keys k', h) in
        let apart : b ≢ i =
          λ same. ground (arith, same, y_at, x_at, x_key, y_key, other, =?-iff k k') in
        (
          y,
          ground (arith, m.items j, m.keys k', h, e, other, apart, y_at, keyed-below s c b k' e),
          y_key,
        )
  ]

  remove-found :
      (k : ℤ) (i : ℕ) (s q : ShortRankList Item)
      → Consistent s
      → lookup k s.keys_map ≡ some i
      → Is
          (s.curr_num - 1)
          (without s.curr_num i (at s.items))
          (λ k'. if k =? k' then none else lowered i (lookup k' s.keys_map))
          s
          q
      → (j : ℕ) (x : Item) → at q.items j ≡ some x
      → lookup (o.get_key x) q.keys_map ≡ some j
  remove-found k i s q c i_at m j x h = elim (Bool-cases (ltb j i)) [
    | inl left ↦
        let was = c.found j x (ground (arith, m.items j, h)) in
        ground (arith, m.keys (o.get_key x), was, i_at, =?-iff k (o.get_key x))
    | inr right ↦
        let was = c.found (suc j) x (ground (arith, m.items j, h)) in
        ground (arith, m.keys (o.get_key x), was, i_at, =?-iff k (o.get_key x))
  ]

  pub remove-Consistent :
      (k : ℤ) (s : ShortRankList Item) → Consistent s → Consistent (remove o k s).0
  unfolding remove
  remove-Consistent k s c = elim (Option-cases (lookup k s.keys_map)) [
    | inl none_at ↦ rw (none_at, remove) c
    | inr (i, i_at) ↦
        let lt = keyed-below s c i k i_at in
        let q = (remove o k s).0 in
        let m = remove-Is k i s c i_at lt in
        record {
          bound = omega (arith, m.count, m.frame.0, c.bound);
          size = m.frame.1 ∙ c.size ∙ sym m.frame.0;
          filled = λ j h.
              let (x, x_at) = c.filled j (omega (arith, m.count)) in
              let (y, y_at) = c.filled (suc j) (omega (arith, m.count)) in
              elim (Bool-cases (ltb j i)) [
                | inl left ↦ (x, ground (arith, m.items j, x_at))
                | inr right ↦ (y, ground (arith, m.items j, y_at, m.count))
              ];
          empty = λ j h. ground (arith, m.items j, m.count);
          found = remove-found k i s q c i_at m;
          keyed = remove-keyed k i s q c i_at m;
        }
  ]
