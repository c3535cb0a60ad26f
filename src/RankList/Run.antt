-- ===== src/RankList/Run.antt =====
-- A ranking over any sequence of its operations.
use ih_server.Base.{
  ℕ, zero, suc, ◌-◌, ℤ, List, [], ◌∷◌, some, Option-cases, Bool-cases, inl, inr, Bool, true, false,
  leb, ◌⊎◌, =?-refl, lookup, ◌≡◌, refl, ◌∙◌, arith,
}
use ih_server.RankList.{
  ShortRankItem, ShortRankList, at, init, clear, update, remove, replace, scan_left, scan_right,
}
use ih_server.RankList.Consistent.{
  Consistent, clear-Consistent, remove-Consistent, empty-at, keyed-below,
}
use ih_server.RankList.Rearrange.{Rearranged}
use ih_server.RankList.Place.{
  append-Rearranged, raised-Rearranged, lowered-Rearranged, scan_left_bound, scan_right_bounds,
}
use ih_server.RankList.Update.{update-Consistent}
use ih_server.RankList.Order.{IsOrder, Sorted, update-Sorted, remove-Sorted}

pub data RankOp (Item : Type 0) : Type 0 where
  put : Item → Bool → RankOp Item
  take_out : ℤ → RankOp Item
  wipe : RankOp Item

module _ {Item : Type 0} (o : ShortRankItem Item) where
  abbrev rank_step : RankOp Item → ShortRankList Item → ShortRankList Item
  rank_step (put x added) s = (update o x added s).0
  rank_step (take_out k) s = (remove o k s).0
  rank_step wipe s = clear s

  unfoldable pub rank_run : List (RankOp Item) → ShortRankList Item → ShortRankList Item
  rank_run [] s = s
  rank_run (op ∷ ops) s = rank_run ops (rank_step op s)

  -- What the list promises: the array and the map agree, and the array is sorted.
  abbrev pub Ranked : ShortRankList Item → Type 0
  Ranked s = Consistent o s × Sorted o s

  clear-Sorted : (s : ShortRankList Item) → Sorted o (clear s)
  unfolding clear
  clear-Sorted s a b x y lt x_at y_at = absurd (ground (arith, empty-at o s.max_num a, x_at))

  module _ (law : IsOrder o) (keeps : (a b : Item) → o.get_key (o.add a b) ≡ o.get_key a) where
    step-Ranked : (op : RankOp Item) (s : ShortRankList Item) → Ranked s → Ranked (rank_step op s)
    step-Ranked (put x added) s (c, v) =
        (update-Consistent o x added s keeps c, update-Sorted o x added s law keeps c v)
    step-Ranked (take_out k) s (c, v) = (remove-Consistent o k s c, remove-Sorted o k s c v)
    step-Ranked wipe s (c, v) = (clear-Consistent o s, clear-Sorted s)

    run-Ranked :
        (ops : List (RankOp Item)) (s : ShortRankList Item) → Ranked s → Ranked (rank_run ops s)
    unfolding rank_run
    run-Ranked [] s h = h
    run-Ranked (op ∷ ops) s h = run-Ranked ops (rank_step op s) (step-Ranked op s h)

    init-Ranked : (n : ℕ) (s : ShortRankList Item) → init n ≡ some s → Ranked s
    unfolding init clear
    init-Ranked zero s h = absurd (ground (arith, h))
    init-Ranked (suc n) s h =
        let same : clear s ≡ s = ground (arith, h) in
        rw (← same) (clear-Consistent o s, clear-Sorted s)

    -- From Init on, whatever is updated, deleted and cleared, and in whatever order, the array and the
    -- map of a ranking agree and the array is sorted, where Less and Greater are an order and Add
    -- keeps the key of an item.
    pub init_run-Ranked :
        (n : ℕ) (ops : List (RankOp Item)) (s : ShortRankList Item)
        → init n ≡ some s
        → Ranked (rank_run ops s)
    init_run-Ranked n ops s h = run-Ranked ops s (init-Ranked n s h)

  -- A list that holds an item under its key.
  abbrev pub Holds : Item → ShortRankList Item → Type 0
  Holds x q = (p : ℕ) × (at q.items p ≡ some x) × (lookup (o.get_key x) q.keys_map ≡ some p)

  holds :
      {p : ℕ} {x : Item} {f g : ℕ → ℕ} {s q : ShortRankList Item}
      → Rearranged o p x f g s q
      → Holds x q
  holds {p} {x} r = (
    p,
    r.items p (r.bound.0) ∙ ground arith,
    r.keys (o.get_key x) ∙ ground (arith, =?-refl (o.get_key x)),
  )

  -- An Update of a consistent ranking, without addition: if it succeeds, the ranking holds the item as
  -- it was given, under its key; if it fails, nothing changes.
  pub update-Holds :
      (x : Item) (s : ShortRankList Item)
      → Consistent o s
      → let (q, done) = update o x false s in
        ((done ≡ true) × Holds x q) ⊎ ((done ≡ false) × (q ≡ s))
  unfolding update replace
  update-Holds x s c = elim (Option-cases (lookup (o.get_key x) s.keys_map)) [
    | inl new ↦ elim (Bool-cases (leb s.max_num s.curr_num)) [
      | inl full ↦ rw (new, update, full) (inr (refl, refl))
      | inr room ↦
          rw (new, update, room) (inl (refl, holds (append-Rearranged o x s c new (ground arith))))
    ]
    | inr (i, here) ↦ elim (Option-cases (at s.items i)) [
      | inl gone ↦ rw (here, update, gone) (inr (refl, refl))
      | inr (old, there) ↦
          let up = scan_left o x s.items i in
          let far = scan_right o x s.items (s.curr_num - suc i) (suc i) in
          let b = scan_right_bounds o x s.items (s.curr_num - suc i) (suc i) in
          let lt = keyed-below o s c i (o.get_key x) here in
          elim (Bool-cases (o.greater x old)) [
            | inl more ↦
                rw (here, update, there, more)
                  (inl (
                    refl,
                    holds (raised-Rearranged o i up x s c here (scan_left_bound o x s.items i)),
                  ))
            | inr no_more ↦ elim (Bool-cases (o.less x old)) [
              | inl fewer ↦
                  rw (here, update, there, no_more, fewer)
                    (inl (
                      refl,
                      holds (
                          lowered-Rearranged o i (far - 1) x s c here (omega (arith, b))
                            (omega (arith, b))),
                    ))
              | inr tie ↦ rw (here, update, there, no_more, tie) (inr (refl, refl))
            ]
          ]
    ]
  ]
