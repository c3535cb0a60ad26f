-- ===== src/RankList/Order.antt =====
-- A ranking stays sorted: no item is greater than one that ranks before it.
use ih_server.Base.{
  ℕ, suc, ◌+◌, ◌-◌, ◌≤◌, ◌<◌, ℤ, none, some, Option-cases, Bool-cases, inl, inr, Bool, true, false,
  if◌then◌else◌, leb, ltb, ◌==◌, lookup, ◌≡◌, ◌≢◌, sym, ◌∙◌, arith,
}
use ih_server.RankList.{
  ShortRankItem, ShortRankList, at, place, shift_up, shift_down, scan_left, scan_right, append,
  replace, update, remove,
}
use ih_server.RankList.Consistent.{Consistent, below, keyed-below, remove-Is}
use ih_server.RankList.Rearrange.{Rearranged}
use ih_server.RankList.Place.{
  raise, lower, scan_left_bound, scan_right_bounds, append-Rearranged, raised-Rearranged,
  lowered-Rearranged,
}
use ih_server.RankList.Scan.{scan_left-beats, scan_left-stops, scan_right-keeps, scan_right-stops}

-- What Less and Greater of an item are: a strict order up to ties, from both sides.
pub record IsOrder {Item : Type 0} (o : ShortRankItem Item) : Type 0 where
  pub asym : (a b : Item) → o.greater a b ≡ true → o.greater b a ≡ false
  pub trans : (a b c : Item) → o.greater a b ≡ false → o.greater b c ≡ false → o.greater a c ≡ false
  pub converse : (a b : Item) → o.less a b ≡ o.greater b a

module _ {Item : Type 0} (o : ShortRankItem Item) where
  abbrev pub Sorted : ShortRankList Item → Type 0
  Sorted s =
      (a b : ℕ) (x y : Item)
      → a < b
      → at s.items a ≡ some x
      → at s.items b ≡ some y
      → o.greater y x ≡ false

  -- A rearrangement that keeps the order of the other items, and puts `x` between those that it does
  -- not beat and those that do not beat it, is sorted.
  Rearranged-Sorted :
      (p : ℕ) (x : Item) (f g : ℕ → ℕ) (s q : ShortRankList Item)
      → Rearranged o p x f g s q
      → Sorted s
      → ((a b : ℕ) → a < b → a ≢ p → b ≢ p → g a < g b)
      → ((j : ℕ) (y : Item) → j < p → at s.items (g j) ≡ some y → o.greater x y ≡ false)
      → ((j : ℕ) (y : Item) → p < j → at s.items (g j) ≡ some y → o.greater y x ≡ false)
      → Sorted q
  Rearranged-Sorted p x f g s q r v mono before after a b y z lt y_at z_at =
      let in_range : (j : ℕ) (w : Item) → at q.items j ≡ some w → j < q.curr_num = λ j w h.
        elim (Bool-cases (ltb j q.curr_num)) [
          | inl under ↦ ground arith
          | inr out ↦ absurd (ground (arith, r.empty j (ground arith), h))
        ] in
      let a_at = r.items a (in_range a y y_at) in
      let b_at = r.items b (in_range b z z_at) in
      elim (Bool-cases (p == a)) [
        | inl is_a ↦
            let same : x ≡ y = ground (arith, a_at, y_at) in
            rw (← same) (after b z (ground (arith, lt)) (ground (arith, b_at, z_at, lt)))
        | inr not_a ↦ elim (Bool-cases (p == b)) [
          | inl is_b ↦
              let same : x ≡ z = ground (arith, b_at, z_at) in
              rw (← same) (before a y (ground (arith, lt)) (ground (arith, a_at, y_at, lt)))
          | inr not_b ↦
              v (g a) (g b) y z (mono a b lt (ground arith) (ground arith))
                (ground (arith, a_at, y_at)) (ground (arith, b_at, z_at))
        ]
      ]

  module _ (law : IsOrder o) (s : ShortRankList Item) (c : Consistent o s) (v : Sorted s)
      (x : Item) where
    -- What a scan to the left from `n` finds on both sides of where it stops.
    left_of :
        (n j : ℕ) (y : Item)
        → n ≤ s.curr_num
        → j < scan_left o x s.items n
        → at s.items j ≡ some y
        → o.greater x y ≡ false
    left_of n j y le lt y_at =
        let i = scan_left o x s.items n in
        let (w, w_at) = c.filled (i - 1) (omega (arith, scan_left_bound o x s.items n)) in
        let stop : o.greater x w ≡ false =
          ground (arith, scan_left-stops o x s.items n (omega arith), w_at) in
        elim (Bool-cases (j == i - 1)) [
          | inl same ↦ let is_w : w ≡ y = ground (arith, w_at, y_at, same) in rw (← is_w) stop
          | inr other ↦ law.trans x w y stop (v j (i - 1) y w (ground arith) y_at w_at)
        ]

    right_of :
        (n j : ℕ) (y : Item)
        → scan_left o x s.items n ≤ j
        → j < n
        → at s.items j ≡ some y
        → o.greater y x ≡ false
    right_of n j y le lt y_at =
        law.asym x y (ground (arith, scan_left-beats o x s.items n j le lt, y_at))

    right_after :
        (n i j : ℕ) (y : Item)
        → i + n ≡ s.curr_num
        → scan_right o x s.items n i ≤ j
        → at s.items j ≡ some y
        → o.greater y x ≡ false
    right_after n i j y all le y_at =
        let far = scan_right o x s.items n i in
        let lt = below o s c j y y_at in
        let (w, w_at) = c.filled far (omega arith) in
        let stop =
          law.asym x w (ground (arith, scan_right-stops o x s.items n i (omega arith), w_at)) in
        elim (Bool-cases (j == far)) [
          | inl same ↦ let is_w : w ≡ y = ground (arith, w_at, y_at, same) in rw (← is_w) stop
          | inr other ↦ law.trans y w x (v far j w y (ground arith) w_at y_at) stop
        ]

    append-Sorted :
        lookup (o.get_key x) s.keys_map ≡ none → s.curr_num < s.max_num → Sorted (append o x s)
    append-Sorted new room =
        let n = s.curr_num in
        let i = scan_left o x s.items n in
        let r = append-Rearranged o x s c new room in
        Rearranged-Sorted i x _ (lower o (suc i) (n - i)) s (append o x s) r v
          (λ a b lt p q. ground arith)
          (λ j y lt y_at. left_of n j y (omega arith) lt (ground (arith, y_at)))
          (λ j y lt y_at. elim (Bool-cases (leb j n)) [
            | inl under ↦ right_of n (j - 1) y (ground arith) (ground arith) (ground (arith, y_at))
            | inr out ↦ absurd (ground (arith, y_at, c.empty j (ground arith)))
          ])

    module _ (i : ℕ) (old : Item) (i_at : lookup (o.get_key x) s.keys_map ≡ some i)
        (old_at : at s.items i ≡ some old) where
      raised-Sorted :
          o.greater x old ≡ true
          → let up = scan_left o x s.items i in Sorted (place o up x (shift_up o (i - up) up s))
      raised-Sorted more =
          let up = scan_left o x s.items i in
          let le = scan_left_bound o x s.items i in
          let lt = keyed-below o s c i (o.get_key x) i_at in
          let r = raised-Rearranged o i up x s c i_at le in
          Rearranged-Sorted up x _ (lower o (suc up) (i - up)) s _ r v (λ a b lt' p q. ground arith)
            (λ j y lt' y_at. left_of i j y (omega arith) lt' (ground (arith, y_at)))
            (λ j y lt' y_at. elim (Bool-cases (leb j i)) [
              | inl under ↦
                  right_of i (j - 1) y (ground arith) (ground arith) (ground (arith, y_at))
              | inr out ↦
                  law.trans y old x (v i j old y (ground arith) old_at (ground (arith, y_at)))
                    (law.asym x old more)
            ])

      lowered-Sorted :
          o.less x old ≡ true
          → let down = scan_right o x s.items (s.curr_num - suc i) (suc i) - 1 in
            Sorted (place o down x (shift_down o (down - i) i s))
      lowered-Sorted fewer =
          let far = scan_right o x s.items (s.curr_num - suc i) (suc i) in
          let b = scan_right_bounds o x s.items (s.curr_num - suc i) (suc i) in
          let lt = keyed-below o s c i (o.get_key x) i_at in
          let down = far - 1 in
          let beaten : o.greater old x ≡ true = sym (law.converse x old) ∙ fewer in
          let r = lowered-Rearranged o i down x s c i_at (omega (arith, b)) (omega (arith, b)) in
          Rearranged-Sorted down x _ (raise o i (down - i)) s _ r v (λ a b' lt' p q. ground arith)
            (λ j y lt' y_at. elim (Bool-cases (ltb j i)) [
              | inl before ↦
                  law.trans x old y (law.asym old x beaten)
                    (v j i y old (ground arith) (ground (arith, y_at)) old_at)
              | inr between ↦ ground (
                arith,
                scan_right-keeps o x s.items (s.curr_num - suc i) (suc i) (suc j) (ground arith)
                    (ground arith),
                y_at,
              )
            ])
            (λ j y lt' y_at.
              right_after (s.curr_num - suc i) (suc i) j y (omega arith) (ground arith)
                (ground (arith, y_at)))

  -- Update keeps a consistent ranking sorted, where Less and Greater are an order and Add keeps the key
  -- of an item.
  pub update-Sorted :
      (x : Item) (added : Bool) (s : ShortRankList Item)
      → IsOrder o
      → ((a b : Item) → o.get_key (o.add a b) ≡ o.get_key a)
      → Consistent o s
      → Sorted s
      → Sorted (update o x added s).0
  unfolding update replace
  update-Sorted x added s law keeps c v = elim (Option-cases (lookup (o.get_key x) s.keys_map)) [
    | inl new ↦ elim (Bool-cases (leb s.max_num s.curr_num)) [
      | inl full ↦ rw (new, update, full) v
      | inr room ↦ rw (new, update, room) (append-Sorted law s c v x new (ground arith))
    ]
    | inr (i, here) ↦ elim (Option-cases (at s.items i)) [
      | inl gone ↦ rw (here, update, gone) v
      | inr (old, there) ↦
          let y = if added then o.add x old else x in
          let same : o.get_key y ≡ o.get_key x = ground (arith, keeps x old) in
          elim (Bool-cases (o.greater y old)) [
            | inl more ↦
                rw (here, update, there, more)
                  (raised-Sorted law s c v y i old (rw same here) there more)
            | inr no_more ↦ elim (Bool-cases (o.less y old)) [
              | inl fewer ↦
                  rw (here, update, there, no_more, fewer)
                    (lowered-Sorted law s c v y i old (rw same here) there fewer)
              | inr tie ↦ rw (here, update, there, no_more, tie) v
            ]
          ]
    ]
  ]

  -- Delete keeps a consistent ranking sorted.
  pub remove-Sorted :
      (k : ℤ) (s : ShortRankList Item) → Consistent o s → Sorted s → Sorted (remove o k s).0
  unfolding remove
  remove-Sorted k s c v = elim (Option-cases (lookup k s.keys_map)) [
    | inl none_at ↦ rw (none_at, remove) v
    | inr (i, i_at) ↦ λ a b x y lt x_at y_at.
        let m = remove-Is o k i s c i_at (keyed-below o s c i k i_at) in
        v (if ltb a i then a else suc a) (if ltb b i then b else suc b) x y (ground arith)
          (ground (arith, m.items a, x_at)) (ground (arith, m.items b, y_at))
  ]
