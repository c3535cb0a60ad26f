-- ===== src/RankList/Rearrange.antt =====
-- A ranking whose items are rearranged around an item at a new position stays consistent.
use ih_server.Base.{
  ℕ, ◌≤◌, ◌<◌, ℤ, Option, none, some, Option-cases, Bool-cases, inl, inr, if◌then◌else◌, ltb, ◌==◌,
  ◌=?◌, =?-iff, =?-refl, length, lookup, ◌≡◌, ◌≢◌, ◌∙◌, arith,
}
use ih_server.RankList.{ShortRankItem, ShortRankList, at}
use ih_server.RankList.Consistent.{Consistent, keyed-below}

abbrev pub moved : (ℕ → ℕ) → Option ℕ → Option ℕ
moved f none = none
moved f (some j) = some (f j)

module _ {Item : Type 0} (o : ShortRankItem Item) where
  -- `q` has `x` at position `p`, and the other items of `s` in the places that `f` sends them to, which
  -- `g` takes back.
  pub record Rearranged (p : ℕ) (x : Item) (f g : ℕ → ℕ) (s q : ShortRankList Item) : Type 0 where
    pub bound : (p < q.curr_num) × (q.curr_num ≤ q.max_num)
    pub size : length q.items ≡ q.max_num
    pub items :
        (j : ℕ) → j < q.curr_num → at q.items j ≡ (if p == j then some x else at s.items (g j))
    pub empty : (j : ℕ) → q.curr_num ≤ j → at q.items j ≡ none
    pub keys :
        (k : ℤ)
        → lookup k q.keys_map ≡ (if o.get_key x =? k then some p else moved f (lookup k s.keys_map))
    pub back :
        (j : ℕ)
        → j < q.curr_num
        → j ≢ p
        → (g j < s.curr_num) × (f (g j) ≡ j) × (lookup (o.get_key x) s.keys_map ≢ some (g j))
    pub forth :
        (b : ℕ)
        → b < s.curr_num
        → lookup (o.get_key x) s.keys_map ≢ some b
        → (f b ≢ p) × (g (f b) ≡ b) × (f b < q.curr_num)

  module _ (p : ℕ) (x : Item) (f g : ℕ → ℕ) (s q : ShortRankList Item) (c : Consistent o s)
      (r : Rearranged p x f g s q) where
    filled_after : (j : ℕ) → j < q.curr_num → (y : Item) × (at q.items j ≡ some y)
    filled_after j h = elim (Bool-cases (p == j)) [
      | inl here ↦ (x, ground (arith, r.items j h))
      | inr there ↦
          let (in_range, same, other) = r.back j h (ground arith) in
          let (y, y_at) = c.filled (g j) in_range in (y, ground (arith, r.items j h, y_at))
    ]

    found_after :
        (j : ℕ) (y : Item) → at q.items j ≡ some y → lookup (o.get_key y) q.keys_map ≡ some j
    found_after j y y_at = elim (Bool-cases (ltb j q.curr_num)) [
      | inr out ↦ absurd (ground (arith, r.empty j (ground arith)))
      | inl below ↦ elim (Bool-cases (p == j)) [
        | inl here ↦
            let is_x : x ≡ y = ground (arith, r.items j (ground arith)) in
            rw (← is_x) (r.keys (o.get_key x) ∙ ground (arith, =?-refl (o.get_key x)))
        | inr there ↦
            let (in_range, same, other) = r.back j (ground arith) (ground arith) in
            let was = c.found (g j) y (ground (arith, r.items j (ground arith))) in
            ground
              (arith, r.keys (o.get_key y), was, same, other, =?-iff (o.get_key x) (o.get_key y))
      ]
    ]

    keyed_after :
        (j : ℕ) (k : ℤ)
        → lookup k q.keys_map ≡ some j
        → (y : Item) × (at q.items j ≡ some y) × (o.get_key y ≡ k)
    keyed_after j k h = elim (Bool-cases (o.get_key x =? k)) [
      | inl here ↦ (
        x,
        ground (arith, r.keys k, h, r.items p (r.bound.0)),
        ground (arith, =?-iff (o.get_key x) k),
      )
      | inr there ↦ elim (Option-cases (lookup k s.keys_map)) [
        | inl e ↦ absurd (ground (arith, r.keys k, h, e))
        | inr (b, e) ↦
            let (y, y_at, y_key) = c.keyed b k e in
            let other : lookup (o.get_key x) s.keys_map ≢ some b = λ w.
              let (z, z_at, z_key) = c.keyed b (o.get_key x) w in
              ground (arith, y_at, z_at, y_key, z_key, =?-iff (o.get_key x) k) in
            let (apart, same, in_range) = r.forth b (keyed-below o s c b k e) other in
            let is_j : f b ≡ j = ground (arith, r.keys k, h, e) in
            (y, rw (← is_j) (r.items (f b) in_range ∙ ground (arith, apart, same, y_at)), y_key)
      ]
    ]

    pub Rearranged-Consistent : Consistent o q
    Rearranged-Consistent = record {
      bound = r.bound.1;
      size = r.size;
      filled = filled_after;
      empty = r.empty;
      found = found_after;
      keyed = keyed_after;
    }
