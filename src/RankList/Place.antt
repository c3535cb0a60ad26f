-- ===== src/RankList/Place.antt =====
-- Update of a ranking: where a new item, or a new value of an item, takes its place.
use ih_server.Base.{
  ℕ, zero, suc, ◌+◌, ◌-◌, ◌≤◌, ◌<◌, ℤ, List, Option, none, some, if◌then◌else◌, ◌==◌, ◌=?◌, =?-iff,
  length, length-set, lookup, lookup-insert, ◌≡◌, refl, sym, ◌∙◌, arith,
}
use ih_server.RankList.{
  ShortRankItem, ShortRankList, at, place, shift_up, shift_down, scan_left, scan_right, append,
}
use ih_server.RankList.Shift.{at-set, within, Tracks, shift_up-MovedUp, shift_down-MovedDown}
use ih_server.RankList.Consistent.{Consistent, keyed-below, interval-Tracks}
use ih_server.RankList.Rearrange.{moved, Rearranged}

module _ {Item : Type 0} (o : ShortRankItem Item) where
  pub scan_left_bound : (x : Item) (l : List (Option Item)) (n : ℕ) → scan_left o x l n ≤ n
  unfolding scan_left
  scan_left_bound x l zero = omega arith
  scan_left_bound x l (suc n) = ground (arith, scan_left_bound x l n)

  pub scan_right_bounds :
      (x : Item) (l : List (Option Item)) (c i : ℕ)
      → (i ≤ scan_right o x l c i) × (scan_right o x l c i ≤ i + c)
  unfolding scan_right
  scan_right_bounds x l zero i = (omega arith, omega arith)
  scan_right_bounds x l (suc c) i = (
    ground (arith, scan_right_bounds x l c (suc i)),
    ground (arith, scan_right_bounds x l c (suc i)),
  )

  place-at :
      (i : ℕ) (x : Item) (s : ShortRankList Item) (j : ℕ)
      → i < length s.items
      → at (place o i x s).items j ≡ (if i == j then some x else at s.items j)
  unfolding place
  place-at i x s j h = at-set s.items i j (some x) h

  place-lookup :
      (i : ℕ) (x : Item) (s : ShortRankList Item) (k : ℤ)
      → lookup k (place o i x s).keys_map
        ≡ (if o.get_key x =? k then some i else lookup k s.keys_map)
  unfolding place
  place-lookup i x s k = lookup-insert (o.get_key x) k i s.keys_map

  place-frame :
      (i : ℕ) (x : Item) (s : ShortRankList Item)
      → (length (place o i x s).items ≡ length s.items)
        × ((place o i x s).max_num ≡ s.max_num)
        × ((place o i x s).curr_num ≡ s.curr_num)
  unfolding place
  place-frame i x s = (length-set s.items i (some x), refl, refl)

  -- A new key at the end leaves the rest as it is tracked.
  place-Tracks :
      (x : Item) (s : ShortRankList Item) (i : ℕ)
      → Consistent o s
      → lookup (o.get_key x) s.keys_map ≡ none
      → s.curr_num < length s.items
      → i ≤ s.curr_num
      → Tracks o i (s.curr_num - i) (place o s.curr_num x s)
  place-Tracks x s i c new room le =
      let n = s.curr_num in
      record {
        filled = λ j l u.
            let (y, y_at) = c.filled j (omega arith) in
            (y, ground (arith, place-at n x s j room, y_at));
        found = λ j y l u y_at.
            let was = c.found j y (ground (arith, place-at n x s j room, y_at)) in
            ground (
              arith,
              place-lookup n x s (o.get_key y),
              was,
              new,
              =?-iff (o.get_key x) (o.get_key y),
            );
        keyed = λ j k y l u k_at y_at.
            let was : at s.items j ≡ some y = ground (arith, place-at n x s j room, y_at) in
            let was_k : lookup k s.keys_map ≡ some j = ground (arith, place-lookup n x s k, k_at) in
            let (z, z_at, z_key) = c.keyed j k was_k in ground (arith, was, z_at, z_key);
      }

  abbrev pub raise : ℕ → ℕ → ℕ → ℕ
  raise i c j = if within i c j then suc j else j

  abbrev pub lower : ℕ → ℕ → ℕ → ℕ
  lower i c j = if within i c j then j - 1 else j

  pub append-Rearranged :
      (x : Item) (s : ShortRankList Item)
      → Consistent o s
      → lookup (o.get_key x) s.keys_map ≡ none
      → s.curr_num < s.max_num
      → let i = scan_left o x s.items s.curr_num in
        let c = s.curr_num - i in Rearranged o i x (raise i c) (lower (suc i) c) s (append o x s)
  unfolding append
  append-Rearranged x s c new room =
      let n = s.curr_num in
      let i = scan_left o x s.items n in
      let le = scan_left_bound x s.items n in
      let q = place o n x s in
      let size : n < length s.items = omega (arith, c.size) in
      let fq = place-frame n x s in
      let m =
        shift_up-MovedUp o (n - i) i q (omega (arith, fq.0, c.size))
          (place-Tracks x s i c new size le) in
      let t = shift_up o (n - i) i q in
      let ft = place-frame i x t in
      let into : i < length t.items = omega (arith, m.size, fq.0, c.size, le) in
      let append-key : (k : ℤ)
          → lookup k (append o x s).keys_map
            ≡ (if o.get_key x =? k then some i else moved (raise i (n - i)) (lookup k s.keys_map)) =
        λ k. ground (arith, le, place-lookup i x t k, m.keys k, place-lookup n x s k) in
      record {
        bound = (omega (arith, le), ground (arith, fq, ft, m.frame, room));
        size = ground (arith, fq, ft, m.frame, m.size, c.size);
        items = λ j h. ground (
          arith,
          le,
          into,
          place-at i x t j into,
          m.places j,
          place-at n x s j size,
          place-at n x s (j - 1) size,
        );
        empty = λ j h. ground (
          arith,
          le,
          into,
          place-at i x t j into,
          m.places j,
          place-at n x s j size,
          place-at n x s (j - 1) size,
          c.empty j,
        );
        keys = λ k. append-key k;
        back = λ j h apart. (ground (arith, le), ground (arith, le), λ w. ground (arith, new, w));
        forth = λ b h other. (ground (arith, le), ground (arith, le), ground (arith, le));
      }

  pub raised-Rearranged :
      (i up : ℕ) (x : Item) (s : ShortRankList Item)
      → Consistent o s
      → lookup (o.get_key x) s.keys_map ≡ some i
      → up ≤ i
      → Rearranged o up x
          (raise up (i - up))
          (lower (suc up) (i - up))
          s
          (place o up x (shift_up o (i - up) up s))
  raised-Rearranged i up x s c at_i le =
      let lt = keyed-below o s c i (o.get_key x) at_i in
      let n = i - up in
      let m =
        shift_up-MovedUp o n up s (omega (arith, c.size, c.bound))
          (interval-Tracks o up n s c (omega arith)) in
      let t = shift_up o n up s in
      let ft = place-frame up x t in
      let into : up < length t.items = omega (arith, m.size, c.size, c.bound) in
      record {
        bound = (omega (arith, ft, m.frame), omega (arith, ft, m.frame, c.bound));
        size = ft.0 ∙ m.size ∙ c.size ∙ sym m.frame.0 ∙ sym ft.1;
        items = λ j h. ground (arith, place-at up x t j into, m.places j);
        empty = λ j h. ground (arith, ft, m.frame, place-at up x t j into, m.places j, c.empty j);
        keys = λ k. ground (arith, place-lookup up x t k, m.keys k);
        back =
            λ j h apart. (ground (arith, ft, m.frame), ground arith, λ w. ground (arith, w, at_i));
        forth = λ b h other. (
          ground (arith, other, at_i),
          ground (arith, other, at_i),
          ground (arith, other, at_i, ft, m.frame),
        );
      }

  pub lowered-Rearranged :
      (i down : ℕ) (x : Item) (s : ShortRankList Item)
      → Consistent o s
      → lookup (o.get_key x) s.keys_map ≡ some i
      → i ≤ down
      → down < s.curr_num
      → Rearranged o down x
          (lower (suc i) (down - i))
          (raise i (down - i))
          s
          (place o down x (shift_down o (down - i) i s))
  lowered-Rearranged i down x s c at_i le lt =
      let n = down - i in
      let m =
        shift_down-MovedDown o n i s (omega (arith, c.size, c.bound))
          (interval-Tracks o (suc i) n s c (omega arith)) in
      let t = shift_down o n i s in
      let ft = place-frame down x t in
      let into : down < length t.items = omega (arith, m.size, c.size, c.bound) in
      record {
        bound = (omega (arith, ft, m.frame), omega (arith, ft, m.frame, c.bound));
        size = ft.0 ∙ m.size ∙ c.size ∙ sym m.frame.0 ∙ sym ft.1;
        items = λ j h. ground (arith, place-at down x t j into, m.places j);
        empty = λ j h. ground (arith, ft, m.frame, place-at down x t j into, m.places j, c.empty j);
        keys = λ k. ground (arith, place-lookup down x t k, m.keys k);
        back =
            λ j h apart. (ground (arith, ft, m.frame), ground arith, λ w. ground (arith, w, at_i));
        forth = λ b h other. (
          ground (arith, other, at_i),
          ground (arith, other, at_i),
          ground (arith, other, at_i, ft, m.frame),
        );
      }
