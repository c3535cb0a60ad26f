-- ===== src/Tests/Wallet.antt =====
-- Gold, diamonds, experience and items at concrete inputs.
use ih_server.Base.{
  ◌=?◌, Bool-cases, inl, inr, true, ◌⊎◌, ◌<ℤ◌, =?-iff, none, if◌then◌else◌, ℕ, ◌≤◌, ℤ, pos, ◌+ℤ◌,
  ◌-ℤ◌, ◌+₃₂◌, ◌-₃₂◌, wrap32, neg32, ◌≤ℤ◌, IsInt32, max_int32, List, [], ◌∷◌, some, false, lookup,
  insert, delete, ◌≡◌, refl, arith, eq_of_parts, +ℤ_parts,
}
use ih_server.Player.State.{pairs, send}
use ih_server.Player.Resource.{
  get_item, add_gold, add_diamond, add_exp, add_item, del_item, bonus_count, note_change, stock,
}
use ih_server.Player.Resource.ById.{
  get_resource, add_resources, cost_resources, check_and_send_items_change,
}
use ih_server.Player.Resource.Money.{saturate, money_saturates, Spends}
use ih_server.Player.Resource.Exp.{add_exp-Spends}
use ih_server.Player.Resource.Items.{Counted}
use ih_server.Player.Resource.Sync.{
  ItemOp, gain, take, flush, run, shown, AllFit, InStep, client-InStep,
}
use ih_server.Player.Resource.Price.{Solvent, amount, cost_resources_exact}
use ih_server.Player.Resource.Reward.{IsReward, Room, sum_of, add_resources_exact}
use ih_server.Player.Env.{Env, VipData}
use ih_server.Player.Resource.{vip_exp_id, add_points}
use ih_server.Player.Resource.ById.{add_vip_exp}
use ih_server.Player.Resource.Vip.{RowsUpTo, Earned, Reached, add_vip_exp-Reached}
use ih_server.Tests.World.{world, hero, plain_item}

hero-Counted : Counted (get_item hero)
unfolding lookup
hero-Counted id = ground arith

pub hero-Solvent : Solvent hero
unfolding get_resource lookup
hero-Solvent id = ground arith

abbrev ops : List ItemOp
ops = gain (pos 100) (pos 4) ∷ take (pos 50) (pos 2) ∷ flush ∷ take (pos 100) (pos 9) ∷ []

hero-InStep : InStep (get_item hero, hero)
unfolding lookup
hero-InStep = (
  hero-Counted,
  record {
    counted = hero-Counted;
    logged = λ id. eq_of_parts _ _ (omega (arith, +ℤ_parts (get_item hero id) (pos 0)));
  },
)

ops-AllFit : AllFit world ops
unfolding bonus_count
ops-AllFit = (λ p. (omega arith, omega arith), (omega arith, (tt, (omega arith, tt))))

client_in_step_example :
    let t = run world ops (get_item hero, hero) in
    (shown t.1.items_changed_info t.0 (pos 100) ≡ get_item t.1 (pos 100))
    × (pos 0 ≤ℤ get_item t.1 (pos 100))
    × IsInt32 (get_item t.1 (pos 100))
client_in_step_example =
    client-InStep world ops (get_item hero) hero ops-AllFit hero-InStep (pos 100)

left_items : get_item (run world ops (get_item hero, hero)).1 (pos 100) ≡ pos 7
unfolding run add_item del_item check_and_send_items_change lookup insert delete note_change stock
    bonus_count ◌+₃₂◌ ◌-₃₂◌ ◌+ℤ◌ ◌-ℤ◌ wrap32 neg32 send
left_items = refl

abbrev price : List ℤ
price = pos 1 ∷ pos 30 ∷ pos 100 ∷ pos 2 ∷ []

cost_resources_exact_example :
    let (q, paid) = cost_resources world (some price) hero in
    (((paid ≡ true) × ((j : ℤ) → amount (pairs price) j ≤ℤ get_resource hero j))
      ⊎ ((paid ≡ false) × ((j : ℤ) × (get_resource hero j <ℤ amount (pairs price) j))))
    × ((j : ℤ)
        → get_resource q j
          ≡ (if paid then get_resource hero j -ℤ amount (pairs price) j else get_resource hero j))
    × Solvent q
unfolding lookup
cost_resources_exact_example =
    cost_resources_exact world price hero hero-Solvent
      ((refl, refl), omega arith, refl, ((refl, refl), omega arith, refl, tt))

money_saturates_example :
    ((add_gold max_int32 hero).gold ≡ saturate (pos 100 +ℤ max_int32))
    × ((add_diamond max_int32 hero).diamond ≡ saturate (pos 50 +ℤ max_int32))
    × ((add_gold max_int32 hero).diamond ≡ pos 50)
    × ((add_diamond max_int32 hero).gold ≡ pos 100)
money_saturates_example =
    money_saturates max_int32 hero (omega arith) (omega arith) (omega arith) (omega arith)
      (omega arith)

add_exp-Spends_example :
    Spends world.levelup_table
      (pos 1)
      (saturate (pos 3 +ℤ pos 25))
      ((add_exp world (pos 25) hero).lvl, (add_exp world (pos 25) hero).exp)
add_exp-Spends_example =
    add_exp-Spends world (pos 25) hero (omega arith) (omega arith) (omega arith) (omega arith)

abbrev bounty : List ℤ
bounty = pos 1 ∷ pos 15 ∷ pos 100 ∷ pos 2 ∷ []

bounty-IsReward : IsReward world (pairs bounty)
bounty-IsReward = (
  inl refl,
  omega arith,
  (
    inr (inr (inr (inr (plain_item, refl, λ h. ground (arith, h), λ h. ground (arith, h))))),
    omega arith,
    tt,
  ),
)

pub bounty_small : (j : ℤ) → sum_of j (pairs bounty) ≤ℤ pos 17
unfolding ◌+ℤ◌
bounty_small j = elim (Bool-cases (pos 1 =? j)) [
  | inl gold ↦ rw gold (ground arith)
  | inr no_gold ↦ elim (Bool-cases (pos 100 =? j)) [
    | inl item ↦ rw (no_gold, item) (omega arith)
    | inr none_at ↦ rw (no_gold, none_at) (omega arith)
  ]
]

pub hero_small : (j : ℤ) → (pos 0 ≤ℤ get_resource hero j) × (get_resource hero j ≤ℤ pos 100)
unfolding get_resource lookup
hero_small j = (ground arith, ground arith)

bounty-Room : Room (pairs bounty) hero
bounty-Room j s =
    let (low, high) = hero_small j in
    (
      low,
      omega (arith, high, bounty_small j, +ℤ_parts (get_resource hero j) (sum_of j (pairs bounty))),
    )

add_resources_exact_example :
    get_resource (add_resources world (some bounty) hero) (pos 100)
    ≡ get_resource hero (pos 100) +ℤ sum_of (pos 100) (pairs bounty)
add_resources_exact_example =
    add_resources_exact world bounty hero bounty-IsReward bounty-Room (pos 100) (refl, refl)

abbrev first_vip : VipData
first_vip = record { exp = pos 5; honor_point_bonus = pos 0; gold_finger_bonus = pos 0 }

abbrev vip_world : Env
vip_world = record world {
  vip_table = λ l. if l =? pos 1 then some first_vip else none;
  vip_table_len = pos 1;
}

vip-RowsUpTo : RowsUpTo 1 vip_world.vip_table
vip-RowsUpTo l v h = ground (arith, h, =?-iff l (pos 1))

add_vip_exp-Reached_example :
    (m : ℕ) × ((add_vip_exp vip_world (pos 9) hero).vip_lvl ≡ pos m)
    × (0 ≤ m)
    × (m ≤ 1)
    × Earned vip_world.vip_table (add_points (pos 9) (get_resource hero vip_exp_id)) 0 m
    × Reached vip_world.vip_table (add_points (pos 9) (get_resource hero vip_exp_id)) (pos m)
add_vip_exp-Reached_example =
    add_vip_exp-Reached vip_world (pos 9) 1 0 hero (omega arith) refl (omega arith) refl
      (omega arith) vip-RowsUpTo
