-- ===== src/Player/Resource/Changes.antt =====
-- What is noted of the changes of items accounts for their counts (items_changed_info).
use ih_server.Base.{
  ℤ, pos, pos_part, neg_part, ◌+ℤ◌, ◌-ℤ◌, ◌+₃₂◌, neg32, +ℤ_parts, -ℤ_parts, parts_disjoint,
  eq_of_parts, IsInt32, ◌≤ℤ◌, ◌<?◌, ◌≤?◌, ◌=?◌, =?-iff, lookup, Option-cases, Bool-cases, inl, inr,
  ◌||◌, if◌then◌else◌, ◌≡◌, refl, ap, arith,
}
use ih_server.Player.Env.{Env}
use ih_server.Player.State.{Player, value_or_zero}
use ih_server.Player.Resource.{
  get_item, changes, note_change, bonus_count, stock, add_item, del_item,
}
use ih_server.Player.Resource.Items.{
  noted, Counted, add32_exact, note_change_lem, stocked, stock_lem, taken_exact, del_counts,
}

add_back : (a b d : ℤ) → d ≡ a -ℤ b → b +ℤ d ≡ a
add_back a b d e =
    eq_of_parts _ _ (omega (arith, +ℤ_parts b d, -ℤ_parts a b, ap pos_part e, ap neg_part e))

-- The counts are in range, and the record of changes is what each count differs by from `base`, the
-- counts at the last message.
pub record Logged (base : ℤ → ℤ) (p : Player) : Type 0 where
  pub counted : Counted (get_item p)
  pub logged : (id : ℤ) → get_item p id ≡ base id +ℤ noted p id

module _ (base : ℤ → ℤ) (start : Counted base) (p : Player) (l : Logged base p) where
  noted_exact :
      (id d : ℤ)
      → pos 0 ≤ℤ get_item p id +ℤ d
      → IsInt32 (get_item p id +ℤ d)
      → noted p id +₃₂ d ≡ noted p id +ℤ d
  noted_exact id d h k = add32_exact (noted p id) d (
      omega (
        arith,
        start id,
        ap pos_part (l.logged id),
        ap neg_part (l.logged id),
        +ℤ_parts (base id) (noted p id),
        +ℤ_parts (get_item p id) d,
        +ℤ_parts (noted p id) d,
        parts_disjoint (noted p id +ℤ d),
        parts_disjoint (get_item p id +ℤ d),
      ))

  moved :
      (id d : ℤ)
      → pos 0 ≤ℤ get_item p id +ℤ d
      → IsInt32 (get_item p id +ℤ d)
      → get_item p id +ℤ d ≡ base id +ℤ (noted p id +₃₂ d)
  moved id d h k = rw (noted_exact id d h k) (
      eq_of_parts _ _ (
        omega (
          arith,
          ap pos_part (l.logged id),
          ap neg_part (l.logged id),
          +ℤ_parts (base id) (noted p id),
          +ℤ_parts (base id) (noted p id +ℤ d),
          +ℤ_parts (get_item p id) d,
          +ℤ_parts (noted p id) d,
        )))

  -- A move of one count that is noted keeps the record.
  moves-Logged :
      (q : Player) (id d : ℤ)
      → ((j : ℤ) → get_item q j ≡ (if id =? j then get_item p id +ℤ d else get_item p j))
      → ((j : ℤ) → noted q j ≡ (if id =? j then noted p id +₃₂ d else noted p j))
      → pos 0 ≤ℤ get_item p id +ℤ d
      → IsInt32 (get_item p id +ℤ d)
      → Logged base q
  moves-Logged q id d c n h k = record {
    counted = λ j. elim (Bool-cases (id =? j)) [
      | inl e ↦ rw (c j, e) (h, k)
      | inr e ↦ rw (c j, e) (l.counted j)
    ];
    logged = λ j. elim (Bool-cases (id =? j)) [
      | inl e ↦ rw (c j, n j, e) (rw (← (=?-iff id j).0 e) (moved id d h k))
      | inr e ↦ rw (c j, n j, e) (l.logged j)
    ];
  }

  -- del_item takes the count off, or refuses and changes nothing; the record stays right.
  pub del_item-Logged : (id count : ℤ) → IsInt32 count → Logged base (del_item id count p).0
  unfolding del_item
  del_item-Logged id count h = elim (Option-cases (lookup id p.items)) [
    | inl e ↦ rw (e, del_item) l
    | inr (c, e) ↦ elim (Bool-cases (count ≤? pos 0 || c <? count)) [
      | inl bad ↦ rw (e, del_item) (rw bad l)
      | inr good ↦
          let i : (pos 0 ≤ℤ c) × IsInt32 c = rw e at (l.counted id) in
          let t = taken_exact c count (ground arith) (ground arith) i.1 in
          let back : value_or_zero (lookup id p.items) ≡ c = rw e in
          rw (e, del_item)
            (rw good (
              moves-Logged _ id (neg32 count)
                (λ j. rw back (del_counts id c count j p.items e (ground arith) (ground arith) i.1))
                (λ j. note_change_lem id (neg32 count) j (changes p.items_changed_info) t.0)
                (rw (back, t.2) (ground (arith, -ℤ_parts c count)))
                (rw (back, t.2) (ground (arith, -ℤ_parts c count, parts_disjoint (c -ℤ count))))))
    ]
  ]

  noted_stock :
      (id d : ℤ)
      → pos 0 ≤ℤ get_item p id +ℤ d
      → IsInt32 (get_item p id +ℤ d)
      → pos 0 ≤ℤ d
      → (j : ℤ)
      → value_or_zero (
          lookup j (
            if pos 0 <? d
            then note_change id d (changes p.items_changed_info)
            else changes p.items_changed_info))
        ≡ (if id =? j then noted p id +₃₂ d else noted p j)
  noted_stock id d h k n j = elim (Bool-cases (pos 0 <? d)) [
    | inl more ↦
        let small : IsInt32 d =
          omega (arith, l.counted id, +ℤ_parts (get_item p id) d, parts_disjoint d) in
        rw more (note_change_lem id d j (changes p.items_changed_info) small)
    | inr same ↦
        let zero_d : d ≡ pos 0 = eq_of_parts d (pos 0) (ground arith) in
        rw (same, noted_exact id d h k, zero_d)
          (ground (
            arith,
            +ℤ_parts (noted p id) (pos 0),
            eq_of_parts (noted p id +ℤ pos 0) (noted p id),
            =?-iff id j,
          ))
  ]

  -- add_item keeps the record right, as long as the bonus of honor does not overflow.
  pub add_item-Logged :
      (e : Env) (id count : ℤ)
      → pos 0 ≤ℤ bonus_count e p id count
      → IsInt32 (bonus_count e p id count)
      → Logged base (add_item e id count p).0
  unfolding add_item
  add_item-Logged e id count n h = elim (Option-cases (e.item_table id)) [
    | inl no_row ↦ rw (no_row, add_item) l
    | inr (item, row) ↦ elim (Bool-cases (count <? pos 0)) [
      | inl bad ↦ rw (row, add_item) (rw bad l)
      | inr good ↦
          let c = bonus_count e p id count in
          let at = λ (j : ℤ).
            stock_lem item id c p.items h n j (lookup id p.items) refl (l.counted id).0
              (l.counted id).1 in
          let d = (stock item id c p.items).1 in
          let f = at id in
          let whole = add_back (stocked item (lookup id p.items) c) (get_item p id) d f.1 in
          rw (row, add_item)
            (rw good (
              moves-Logged _ id d (λ j. rw whole (at j).0)
                (noted_stock id d (rw whole f.2) (rw whole f.3) f.4) (rw whole f.2) (rw whole f.3)))
    ]
  ]
