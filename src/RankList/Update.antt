-- ===== src/RankList/Update.antt =====
-- Update of a ranking keeps it consistent, and its two queries agree.
use ih_server.Base.{
  ℕ, suc, ◌-◌, ◌<◌, ℤ, some, Option-cases, Bool-cases, inl, inr, Bool, if◌then◌else◌, leb, lookup,
  ◌≡◌, arith,
}
use ih_server.RankList.{
  ShortRankItem, ShortRankList, at, scan_left, scan_right, replace, update, get_rank, get_by_rank,
}
use ih_server.RankList.Consistent.{Consistent, keyed-below}
use ih_server.RankList.Rearrange.{Rearranged-Consistent}
use ih_server.RankList.Place.{
  scan_left_bound, scan_right_bounds, append-Rearranged, raised-Rearranged, lowered-Rearranged,
}

module _ {Item : Type 0} (o : ShortRankItem Item) where
  replace-Consistent :
      (i : ℕ) (old x : Item) (s : ShortRankList Item)
      → Consistent o s
      → lookup (o.get_key x) s.keys_map ≡ some i
      → Consistent o (replace o i old x s).0
  unfolding replace
  replace-Consistent i old x s c at_i =
      let up = scan_left o x s.items i in
      let far = scan_right o x s.items (s.curr_num - suc i) (suc i) in
      let b = scan_right_bounds o x s.items (s.curr_num - suc i) (suc i) in
      let lt = keyed-below o s c i (o.get_key x) at_i in
      let le = scan_left_bound o x s.items i in
      let higher =
        Rearranged-Consistent o up x _ _ s _ c (raised-Rearranged o i up x s c at_i le) in
      let deeper =
        Rearranged-Consistent o (far - 1) x _ _ s _ c
          (lowered-Rearranged o i (far - 1) x s c at_i (omega (arith, b)) (omega (arith, b))) in
      elim (Bool-cases (o.greater x old)) [
        | inl more ↦ rw more higher
        | inr no_more ↦ elim (Bool-cases (o.less x old)) [
          | inl fewer ↦ rw (no_more, fewer) deeper
          | inr same ↦ rw (no_more, same) c
        ]
      ]

  -- Update keeps a ranking consistent, where Add keeps the key of an item.
  pub update-Consistent :
      (x : Item) (added : Bool) (s : ShortRankList Item)
      → ((a b : Item) → o.get_key (o.add a b) ≡ o.get_key a)
      → Consistent o s
      → Consistent o (update o x added s).0
  unfolding update
  update-Consistent x added s law c = elim (Option-cases (lookup (o.get_key x) s.keys_map)) [
    | inl new ↦ elim (Bool-cases (leb s.max_num s.curr_num)) [
      | inl full ↦ rw (new, update, full) c
      | inr room ↦
          rw (new, update, room)
            (Rearranged-Consistent o _ x _ _ s _ c (append-Rearranged o x s c new (ground arith)))
    ]
    | inr (i, here) ↦ elim (Option-cases (at s.items i)) [
      | inl gone ↦ rw (here, update, gone) c
      | inr (old, there) ↦
          let y = if added then o.add x old else x in
          let same : o.get_key y ≡ o.get_key x = ground (arith, law x old) in
          rw (here, update, there) (replace-Consistent i old y s c (rw same here))
    ]
  ]

  -- In a consistent ranking the two queries are inverse to each other: the key at a positive rank has
  -- that rank, and a key with a positive rank is the key at that rank.
  pub get_rank-get_by_rank :
      (s : ShortRankList Item)
      → Consistent o s
      → ((r : ℕ) (x : Item) → 0 < r → get_by_rank r s ≡ some x → get_rank (o.get_key x) s ≡ r)
        × ((k : ℤ)
            → 0 < get_rank k s
            → (x : Item) × (get_by_rank (get_rank k s) s ≡ some x) × (o.get_key x ≡ k))
  unfolding get_rank get_by_rank
  get_rank-get_by_rank s c = (
    λ r x h e. ground (arith, c.found (r - 1) x (ground (arith, e))),
    λ k h. elim (Option-cases (lookup k s.keys_map)) [
      | inl none_at ↦ absurd (ground (arith, none_at, h))
      | inr (i, i_at) ↦
          let (x, x_at, x_key) = c.keyed i k i_at in
          (x, rw (i_at, get_rank) (ground (arith, x_at, keyed-below o s c i k i_at)), x_key)
    ],
  )
