-- ===== src/Player/Resource/Reward/Single.antt =====
-- add_resource: an amount of a reward is added in full.
use ih_server.Base.{
  ℤ, pos, ◌+ℤ◌, +ℤ_parts, parts_disjoint, eq_of_parts, IsInt32, ◌≤ℤ◌, ◌<ℤ◌, ◌=?◌, ◌<?◌, =?-iff,
  =?-refl, Option, none, some, Bool-cases, inl, inr, true, false, if◌then◌else◌, lookup, max_int32,
  ◌≡◌, ◌≢◌, refl, ◌∙◌, arith,
}
use ih_server.Player.Env.{Env, ItemData}
use ih_server.Player.State.{Player, value_or_zero, send}
use ih_server.Player.Resource.{
  get_item, add_gold, add_diamond, add_item, bonus_count, head_type, gold_id, diamond_id, exp_id,
  vip_exp_id,
}
use ih_server.Player.Resource.ById.{get_resource, add_resource, add_item_resource}
use ih_server.Player.Resource.Money.{saturate, add_money-saturate}
use ih_server.Player.Resource.Items.{stocked, stock_lem}
use ih_server.Player.Resource.Price.{IsSpendable}
use ih_server.Player.Resource.Reward.Same.{
  Counts, exp-Same, add_item-others, vip-Same, gained-Same, One,
}

pub full_sum :
    (a n : ℤ) → pos 0 ≤ℤ a → pos 0 <ℤ n → a +ℤ n ≤ℤ max_int32 → saturate (a +ℤ n) ≡ a +ℤ n
full_sum a n low up room = ground (arith, low, up, room, +ℤ_parts a n)

pub small : (a n : ℤ) → pos 0 ≤ℤ a → pos 0 <ℤ n → a +ℤ n ≤ℤ max_int32 → IsInt32 a × IsInt32 n
small a n low up room = omega (
  arith,
  low,
  up,
  room,
  +ℤ_parts a n,
  parts_disjoint a,
  parts_disjoint n,
  parts_disjoint (a +ℤ n),
)

module _ (e : Env) (id n : ℤ) (p : Player) (up : pos 0 <ℤ n) (low : pos 0 ≤ℤ get_resource p id)
    (room : get_resource p id +ℤ n ≤ℤ max_int32) where
  gold-One : id ≡ gold_id → One id n p (add_gold n p)
  unfolding add_gold get_resource
  gold-One at j s =
      let is_gold : get_resource p id ≡ p.gold = rw at refl in
      let l : pos 0 ≤ℤ p.gold = rw (← is_gold) low in
      let r : p.gold +ℤ n ≤ℤ max_int32 = rw (← is_gold) room in
      let (i, k) = small p.gold n l up r in
      ground (
        arith,
        at,
        =?-iff gold_id j,
        =?-iff j gold_id,
        add_money-saturate n p.gold k i l,
        full_sum p.gold n l up r,
        is_gold,
      )

  diamond-One : id ≡ diamond_id → One id n p (add_diamond n p)
  unfolding add_diamond get_resource send
  diamond-One at j s =
      let is_diamond : get_resource p id ≡ p.diamond = rw at refl in
      let l : pos 0 ≤ℤ p.diamond = rw (← is_diamond) low in
      let r : p.diamond +ℤ n ≤ℤ max_int32 = rw (← is_diamond) room in
      let (i, k) = small p.diamond n l up r in
      ground (
        arith,
        at,
        =?-iff diamond_id j,
        =?-iff j diamond_id,
        add_money-saturate n p.diamond k i l,
        full_sum p.diamond n l up r,
        is_diamond,
      )

  stocked_sum :
      (item : ItemData) (o : Option ℤ)
      → item.item_type ≢ head_type
      → pos 0 ≤ℤ value_or_zero o
      → value_or_zero o +ℤ n ≤ℤ max_int32
      → stocked item o n ≡ value_or_zero o +ℤ n
  stocked_sum item none plain l r = ground (
    arith,
    plain,
    =?-iff item.item_type head_type,
    eq_of_parts n (pos 0 +ℤ n) (omega (arith, +ℤ_parts (pos 0) n)),
  )
  stocked_sum item (some old) plain l r =
      ground (arith, plain, =?-iff item.item_type head_type, full_sum old n l up r)

  module _ (item : ItemData) (row : e.item_table id ≡ some item)
      (plain : item.item_type ≢ head_type) (no_honor : id ≢ pos 17) (g : (id =? gold_id) ≡ false)
      (d : (id =? diamond_id) ≡ false) (x : (id =? exp_id) ≡ false) where
    owned : get_resource p id ≡ get_item p id
    unfolding get_resource
    owned = ground (arith, g, d, x)

    added_count :
        (j : ℤ)
        → get_item (add_item e id n p).0 j ≡ (if id =? j then get_item p id +ℤ n else get_item p j)
    unfolding add_item bonus_count
    added_count j =
        let no_bonus : bonus_count e p id n ≡ n = ground (arith, no_honor, =?-iff id (pos 17)) in
        let gain : (n <? pos 0) ≡ false = ground (arith, up) in
        let l : pos 0 ≤ℤ get_item p id = rw (← owned) low in
        let r : get_item p id +ℤ n ≤ℤ max_int32 = rw (← owned) room in
        let (i, k) = small (get_item p id) n l up r in
        let (there, a, b, c, f) =
          stock_lem item id n p.items k (omega (arith, up)) j (lookup id p.items) refl l i in
        rw (add_item, row, gain, no_bonus)
          (there ∙ rw (stocked_sum item (lookup id p.items) plain l r) refl)

    added : One id n p (add_item e id n p).0
    unfolding get_resource
    added j s = elim (Bool-cases (id =? j)) [
      | inl same ↦ ground (arith, same, =?-iff id j, g, d, x, added_count j)
      | inr other ↦
          rw other (add_item-others e id n p j (λ at. ground (arith, other, at, =?-refl id)))
    ]

    item-One : One id n p (add_item_resource e id n p).0
    unfolding add_item_resource
    item-One j s =
        let gain : (pos 0 <? n) ≡ true = ground (arith, up) in
        rw (add_item_resource, gain) (gained-Same e n (add_item e id n p) j s ∙ added j s)

-- One entry of a reward adds its amount, where it is not experience.
pub add_one :
    (e : Env) (id n : ℤ) (p : Player)
    → Counts e id
    → pos 0 <ℤ n
    → (IsSpendable id → (pos 0 ≤ℤ get_resource p id) × (get_resource p id +ℤ n ≤ℤ max_int32))
    → One id n p (add_resource e id n p).0
unfolding add_resource
add_one e id n p counts up fits j s = elim (Bool-cases (id =? gold_id)) [
  | inl gold ↦
      let at = (=?-iff id gold_id).0 gold in
      let (low, room) = fits (ground (arith, at), ground (arith, at)) in
      rw (add_resource, gold) (gold-One e id n p up low room at j s)
  | inr g ↦ elim (Bool-cases (id =? diamond_id)) [
    | inl diamond ↦
        let at = (=?-iff id diamond_id).0 diamond in
        let (low, room) = fits (ground (arith, at), ground (arith, at)) in
        rw (add_resource, g, diamond) (diamond-One e id n p up low room at j s)
    | inr d ↦ elim (Bool-cases (id =? exp_id)) [
      | inl exp ↦
          let other : (id =? j) ≡ false = ground (arith, exp, s, =?-iff id exp_id, =?-iff id j) in
          rw (add_resource, g, d, exp, other) (exp-Same e n p j s)
      | inr x ↦ elim (Bool-cases (id =? vip_exp_id)) [
        | inl vip ↦
            let other : (id =? j) ≡ false =
              ground (arith, vip, s, =?-iff id vip_exp_id, =?-iff id j) in
            rw (add_resource, g, d, x, vip, other) (vip-Same e n p j s)
        | inr v ↦
            let (low, room) = fits (x, v) in
            elim counts [
              | inl gold ↦ absurd (ground (arith, gold, g))
              | inr (inl diamond) ↦ absurd (ground (arith, diamond, d))
              | inr (inr (inl exp)) ↦ absurd (ground (arith, exp, x))
              | inr (inr (inr (inl vip))) ↦ absurd (ground (arith, vip, v))
              | inr (inr (inr (inr (item, row, plain, no_honor)))) ↦
                  rw (add_resource, g, d, x, v)
                    (item-One e id n p up low room item row plain no_honor g d x j s)
            ]
      ]
    ]
  ]
]
