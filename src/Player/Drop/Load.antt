-- ===== src/Player/Drop/Load.antt =====
-- Load counts and weighs the rows of each group.
use ih_server.Base.{
  ℕ, ◌+◌, ◌≤◌, ◌<◌, ℤ, pos, pos_part, ◌≤ℤ◌, ◌+₃₂◌, ◌+ℤ◌, wrap32, ◌=?◌, =?-iff, =?-refl, List, [],
  ◌∷◌, ◌++◌, append_nil, append_one, Option, none, some, Option-cases, Bool-cases, inl, inr, false,
  if◌then◌else◌, length, lookup, lookup-insert, Dict, ◌≡◌, refl, ap, ◌∙◌, sym, arith,
}
use ih_server.Player.Drop.{
  DropItem, DropTypeLib, count_row, count_rows, append_row, append_rows, load,
}

-- The rows of a group, and the sum of the weights of rows.
abbrev pub rows_of : ℤ → List DropItem → List DropItem
rows_of id [] = []
rows_of id (d ∷ l) = if d.group_id =? id then d ∷ rows_of id l else rows_of id l

abbrev pub weight_of : List DropItem → ℕ
weight_of [] = 0
weight_of (d ∷ l) = pos_part d.weight + weight_of l

-- No weight is negative.
abbrev pub Weighed : List DropItem → Type 0
Weighed [] = Unit
Weighed (d ∷ l) = (pos 0 ≤ℤ d.weight) × Weighed l

-- What is known of a group: how many rows, their weight, and the rows.
abbrev pub Tally : Option DropTypeLib → ℕ → ℕ → List DropItem → Type 0
Tally none c w l = (c ≡ 0) × (w ≡ 0) × (l ≡ [])
Tally (some lib) c w l =
    (lib.total_count ≡ pos c) × (lib.total_weight ≡ pos w) × (lib.drop_items ≡ l)

Tally-same :
    {c d w v : ℕ} {l k : List DropItem} (o : Option DropTypeLib)
    → c ≡ d
    → w ≡ v
    → l ≡ k
    → Tally o c w l
    → Tally o d v k
Tally-same none c w l (no_c, no_w, no_l) = (sym c ∙ no_c, sym w ∙ no_w, sym l ∙ no_l)
Tally-same (some lib) c w l (is_c, is_w, is_l) = (is_c ∙ ap pos c, is_w ∙ ap pos w, is_l ∙ l)

sum_exact : (a b : ℕ) → a + b ≤ 2147483647 → pos a +₃₂ pos b ≡ pos (a + b)
unfolding ◌+₃₂◌ ◌+ℤ◌ wrap32
sum_exact a b small = ground (arith, small)

module _ (id : ℤ) where
  counted_same :
      (d : DropItem) (m : Dict DropTypeLib) (c w : ℕ) (o : Option DropTypeLib)
      → lookup d.group_id m ≡ o
      → pos 0 ≤ℤ d.weight
      → c + 1 ≤ 2147483647
      → w + pos_part d.weight ≤ 2147483647
      → Tally o c w []
      → Tally (lookup d.group_id (count_row d m)) (c + 1) (w + pos_part d.weight) []
  unfolding count_row
  counted_same d m c w none there low small light (no_c, no_w, no_l) =
      rw (count_row, there, lookup-insert, =?-refl d.group_id)
        (ground (arith, no_c), ground (arith, no_w, low), refl)
  counted_same d m c w (some lib) there low small light (is_c, is_w, is_l) =
      let is_weight : d.weight ≡ pos (pos_part d.weight) = ground (arith, low) in
      rw (count_row, there, lookup-insert, =?-refl d.group_id)
        (
          ap (λ x. x +₃₂ pos 1) is_c ∙ sum_exact c 1 small,
          rw (is_w, is_weight) (sum_exact w (pos_part d.weight) light),
          is_l,
        )

  counted_other :
      (d : DropItem) (m : Dict DropTypeLib)
      → (d.group_id =? id) ≡ false
      → lookup id (count_row d m) ≡ lookup id m
  unfolding count_row
  counted_other d m other = elim (Option-cases (lookup d.group_id m)) [
    | inl none_there ↦ rw (count_row, none_there, lookup-insert, other) refl
    | inr (lib, there) ↦ rw (count_row, there, lookup-insert, other) refl
  ]

  count_rows-Tally :
      (l : List DropItem) (m : Dict DropTypeLib) (c w : ℕ)
      → Weighed l
      → c + length (rows_of id l) ≤ 2147483647
      → w + weight_of (rows_of id l) ≤ 2147483647
      → Tally (lookup id m) c w []
      → Tally
          (lookup id (count_rows l m))
          (c + length (rows_of id l))
          (w + weight_of (rows_of id l))
          []
  unfolding count_rows
  count_rows-Tally [] m c w h small light t =
      Tally-same (lookup id m) (omega arith) (omega arith) refl t
  count_rows-Tally (d ∷ l) m c w (low, h) small light t = elim (Bool-cases (d.group_id =? id)) [
    | inl same ↦
        let is : d.group_id ≡ id = ground (arith, same, =?-iff d.group_id id) in
        let few : c + (length (rows_of id l) + 1) ≤ 2147483647 = ground (arith, small, same) in
        let weight : w + (pos_part d.weight + weight_of (rows_of id l)) ≤ 2147483647 =
          ground (arith, light, same) in
        let here : Tally (lookup d.group_id m) c w [] = rw is t in
        let counted : Tally (lookup id (count_row d m)) (c + 1) (w + pos_part d.weight) [] =
          rw (sym is) (
            counted_same d m c w (lookup d.group_id m) refl low (omega (arith, few))
              (omega (arith, weight)) here) in
        rw same (
          Tally-same (lookup id (count_rows l (count_row d m))) (omega arith) (omega arith) refl (
            count_rows-Tally l (count_row d m) (c + 1) (w + pos_part d.weight) h
              (omega (arith, few)) (omega (arith, weight)) counted))
    | inr other ↦
        let few : c + length (rows_of id l) ≤ 2147483647 = ground (arith, small, other) in
        let weight : w + weight_of (rows_of id l) ≤ 2147483647 = ground (arith, light, other) in
        rw other
          (count_rows-Tally l (count_row d m) c w h few weight (rw (counted_other d m other) t))
  ]

  append_other :
      (d : DropItem) (m : Dict DropTypeLib)
      → (d.group_id =? id) ≡ false
      → lookup id (append_row d m) ≡ lookup id m
  unfolding append_row
  append_other d m other = elim (Option-cases (lookup d.group_id m)) [
    | inl none_there ↦ rw (append_row, none_there) refl
    | inr (lib, there) ↦ rw (append_row, there, lookup-insert, other) refl
  ]

  append_same :
      (d : DropItem) (m : Dict DropTypeLib) (c w : ℕ) (k : List DropItem) (o : Option DropTypeLib)
      → lookup d.group_id m ≡ o
      → 0 < c
      → Tally o c w k
      → Tally (lookup d.group_id (append_row d m)) c w (k ++ d ∷ [])
  unfolding append_row
  append_same d m c w k none there some_rows (no_c, no_w, no_k) =
      absurd (omega (arith, some_rows, no_c))
  append_same d m c w k (some lib) there some_rows (is_c, is_w, is_k) =
      rw (append_row, there, lookup-insert, =?-refl d.group_id)
        (is_c, is_w, ap (λ (x : List DropItem). x ++ d ∷ []) is_k)

  append_rows-Tally :
      (l : List DropItem) (m : Dict DropTypeLib) (c w : ℕ) (k : List DropItem)
      → length (rows_of id l) ≤ c
      → Tally (lookup id m) c w k
      → Tally (lookup id (append_rows l m)) c w (k ++ rows_of id l)
  unfolding append_rows
  append_rows-Tally [] m c w k few t = Tally-same (lookup id m) refl refl (sym (append_nil k)) t
  append_rows-Tally (d ∷ l) m c w k few t = elim (Bool-cases (d.group_id =? id)) [
    | inl same ↦
        let is : d.group_id ≡ id = ground (arith, same, =?-iff d.group_id id) in
        let less : length (rows_of id l) + 1 ≤ c = ground (arith, few, same) in
        let here : Tally (lookup d.group_id m) c w k = rw is t in
        let appended : Tally (lookup id (append_row d m)) c w (k ++ d ∷ []) =
          rw (sym is)
            (append_same d m c w k (lookup d.group_id m) refl (omega (arith, less)) here) in
        rw same (
          Tally-same (lookup id (append_rows l (append_row d m))) refl refl
            (append_one k d (rows_of id l))
            (append_rows-Tally l (append_row d m) c w (k ++ d ∷ []) (omega (arith, less)) appended))
    | inr other ↦
        let less : length (rows_of id l) ≤ c = ground (arith, few, other) in
        rw other (append_rows-Tally l (append_row d m) c w k less (rw (append_other d m other) t))
  ]

  -- Load has of each group its rows, their number and their weight, where those are int32s.
  pub load-Tally :
      (l : List DropItem)
      → Weighed l
      → length (rows_of id l) ≤ 2147483647
      → weight_of (rows_of id l) ≤ 2147483647
      → Tally (lookup id (load l)) (length (rows_of id l)) (weight_of (rows_of id l)) (rows_of id l)
  unfolding load lookup
  load-Tally l h small light =
      let counted =
        count_rows-Tally l [] 0 0 h (omega (arith, small)) (omega (arith, light))
          (refl, refl, refl) in
      append_rows-Tally l (count_rows l []) (length (rows_of id l)) (weight_of (rows_of id l)) []
        (omega arith)
        (Tally-same (lookup id (count_rows l [])) (omega arith) (omega arith) refl counted)
