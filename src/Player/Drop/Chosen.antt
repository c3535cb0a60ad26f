-- ===== src/Player/Drop/Chosen.antt =====
-- A drop gives each row for as many random numbers as its weight.
use ih_server.Base.{
  ℕ, suc, ◌+◌, ◌-◌, ◌≤◌, ◌<◌, ℤ, pos, pos_part, ◌≤ℤ◌, ◌<ℤ◌, ◌-₃₂◌, ◌-ℤ◌, wrap32, ◌=?◌, ◌<?◌, =?-iff,
  List, [], ◌∷◌, Option, none, some, is_some, Bool-cases, inl, inr, ◌⊎◌, Bool, true, false, ltb,
  length, take, get_elem?, ◌≡◌, refl, ap, arith,
}
use ih_server.Player.Env.{Env}
use ih_server.Player.State.{Player}
use ih_server.Player.Drop.{DropItem, DropEnv, give_drop, drop_loop}
use ih_server.Player.Drop.Load.{weight_of, Weighed}
use ih_server.Player.Drop.Range.{Random, rand31n_from_range_lem}

-- The random number is on the stretch of a row: the stretches follow each other, as long as the
-- weights.
pub record Hits (l : List DropItem) (r i : ℕ) (d : DropItem) : Type 0 where
  pub there : get_elem? l i ≡ some d
  pub from : weight_of (take i l) ≤ r
  pub until : r < weight_of (take i l) + pos_part d.weight

-- The counts of each row are a range of int32s that are not negative.
abbrev pub Ranged : List DropItem → Type 0
Ranged [] = Unit
Ranged (d ∷ l) = (pos 0 ≤ℤ d.min) × (d.min ≤ℤ d.max) × (d.max <ℤ pos 2147483647) × Ranged l

-- What a row gives: no item where it has the id zero, else a count within its range.
abbrev pub Gives : Player → DropItem → Option (Player × Option (ℤ × ℤ)) → Type 0
Gives p d res =
    ((d.drop_item_id ≡ pos 0) × (res ≡ some (p, none)))
    ⊎ ((num : ℤ) × (d.min ≤ℤ num) × (num ≤ℤ d.max) × (res ≡ some (p, some (d.drop_item_id, num))))

module _ (e : Env) (m : DropEnv) (cnt : ℤ) (p : Player)
    (random : (k : ℕ) → Random (m.int31n k)) where
  give_nothing : (id num : ℤ) → give_drop e m false id num p ≡ (p, true)
  unfolding give_drop
  give_nothing id num = elim (Bool-cases (is_some (e.item_table id))) [
    | inl item ↦ rw (give_drop, item) refl
    | inr no_item ↦ rw (give_drop, no_item) refl
  ]

  first_row :
      (d : DropItem) (l : List DropItem) (n : ℕ) (r : ℤ)
      → pos 0 ≤ℤ d.min
      → d.min ≤ℤ d.max
      → d.max <ℤ pos 2147483647
      → (r <? d.weight) ≡ true
      → Gives p d (drop_loop e m false none (suc n) (d ∷ l) r false cnt p)
  unfolding drop_loop
  first_row d l n r low le high here = elim (Bool-cases (d.drop_item_id =? pos 0)) [
    | inl zero_id ↦
        inl (
          ground (arith, zero_id, =?-iff d.drop_item_id (pos 0)),
          rw (drop_loop, here, zero_id) refl,
        )
    | inr some_id ↦
        let (num, is_num, above, below) =
          rand31n_from_range_lem (m.int31n (suc n)) d.min d.max (random (suc n)) low le high in
        let given = give_nothing d.drop_item_id num in
        let done = ap (λ (x : Player × Bool). x.1) given in
        let same = ap (λ (x : Player × Bool). x.0) given in
        inr (num, above, below, rw (drop_loop, here, some_id, is_num, done, same) refl)
  ]

  later_row :
      (d : DropItem) (l : List DropItem) (n r : ℕ)
      → pos 0 ≤ℤ d.weight
      → pos_part d.weight ≤ r
      → r ≤ 2147483647
      → drop_loop e m false none (suc n) (d ∷ l) (pos r) false cnt p
        ≡ drop_loop e m false none n l (pos (r - pos_part d.weight)) false cnt p
  unfolding drop_loop ◌-₃₂◌ ◌-ℤ◌ wrap32
  later_row d l n r low le small =
      let passed : (pos r <? d.weight) ≡ false = ground (arith, low, le) in
      let rest : pos r -₃₂ d.weight ≡ pos (r - pos_part d.weight) =
        ground (arith, low, le, small) in
      rw (drop_loop, passed, rest) refl

  pub drop_loop-Hits :
      (l : List DropItem) (r : ℕ)
      → Weighed l
      → Ranged l
      → r < weight_of l
      → weight_of l ≤ 2147483647
      → (i : ℕ) × (d : DropItem) × Hits l r i d
        × Gives p d (drop_loop e m false none (length l) l (pos r) false cnt p)
  drop_loop-Hits [] r h g lt small = absurd (omega (arith, lt))
  drop_loop-Hits (d ∷ l) r (low, h) (min, le, max, g) lt small =
      elim (Bool-cases (ltb r (pos_part d.weight))) [
        | inl here ↦ (
          0,
          d,
          record { there = refl; from = omega arith; until = ground (arith, here) },
          first_row d l (length l) (pos r) min le max (ground (arith, here)),
        )
        | inr later ↦
            let past : pos_part d.weight ≤ r = ground (arith, later) in
            let (i, c, f, gives) =
              drop_loop-Hits l (r - pos_part d.weight) h g (omega (arith, past, lt))
                (omega (arith, small)) in
            (
              suc i,
              c,
              record {
                there = f.there;
                from = omega (arith, f.from, past);
                until = omega (arith, f.until, past);
              },
              rw (later_row d l (length l) r low past (omega (arith, lt, small))) gives,
            )
      ]
