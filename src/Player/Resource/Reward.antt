-- ===== src/Player/Resource/Reward.antt =====
-- add_resources: a reward is added in full.
mod Same
mod Single
pub use Same.{sum_of, Counts, IsReward, Room}
use ih_server.Player.Resource.Reward.Single.{add_one}
use ih_server.Base.{
  ℕ, ◌+◌, ℤ, pos, negsuc, pos_part, ◌+ℤ◌, ◌-ℤ◌, ◌+₃₂◌, ◌-₃₂◌, neg32, wrap32, +ℤ_parts, -ℤ_parts,
  parts_disjoint, eq_of_parts, IsInt32, ◌≤ℤ◌, ◌<ℤ◌, ◌=?◌, ◌<?◌, ◌≤?◌, =?-iff, =?-refl, List, [],
  ◌∷◌, Option, none, some, Option-cases, Bool-cases, inl, inr, true, Bool, false, if◌then◌else◌,
  lookup, lookup-insert, lookup-delete, max_int32, Dict, ◌≡◌, ◌≢◌, ◌⊎◌, refl, sym, ap, ◌∙◌, arith,
}
use ih_server.Player.Env.{Env, Slice, ItemData}
use ih_server.Player.State.{Player, value_or_zero, send, pairs}
use ih_server.Player.Task.{reach_level, reach_vip_n_level, get_quality_equips_num}
use ih_server.Player.Task.Update.{task_update}
use ih_server.Player.Task.Frame.{task_update-OnlyTasks}
use ih_server.Player.Resource.{
  get_item, add_gold, add_diamond, add_exp, add_item, del_item, add_points, level_up, vip_level_up,
  stock, bonus_count, head_type, gold_id, diamond_id, exp_id, vip_exp_id,
}
use ih_server.Player.Resource.ById.{
  get_resource, set_resource, set_item, add_vip_exp, add_resource, add_item_resource, gained,
  add_pairs, add_resources,
}
use ih_server.Player.Resource.Money.{saturate, add_money-saturate}
use ih_server.Player.Resource.Items.{stocked, stock_lem}
use ih_server.Player.Resource.Price.{IsSpendable}

pub sum_low : (e : Env) (j : ℤ) (l : List (ℤ × ℤ)) → IsReward e l → pos 0 ≤ℤ sum_of j l
sum_low e j [] r = omega arith
sum_low e j ((id, n) ∷ l) (c, up, r) = ground (arith, up, sum_low e j l r, +ℤ_parts n (sum_of j l))

sum_assoc : (a n t : ℤ) → a +ℤ n +ℤ t ≡ a +ℤ (n +ℤ t)
sum_assoc a n t =
    eq_of_parts _ _
      (omega (arith, +ℤ_parts a n, +ℤ_parts (a +ℤ n) t, +ℤ_parts n t, +ℤ_parts a (n +ℤ t)))

room_first :
    (id n t a : ℤ)
    → pos 0 ≤ℤ t
    → (pos 0 ≤ℤ a) × (a +ℤ (n +ℤ t) ≤ℤ max_int32)
    → (pos 0 ≤ℤ a) × (a +ℤ n ≤ℤ max_int32)
room_first id n t a low (up, room) =
    (up, omega (arith, low, room, +ℤ_parts a n, +ℤ_parts n t, +ℤ_parts a (n +ℤ t)))

room_rest :
    (n t a : ℤ)
    → pos 0 <ℤ n
    → pos 0 ≤ℤ a
    → a +ℤ (n +ℤ t) ≤ℤ max_int32
    → (pos 0 ≤ℤ a +ℤ n) × (a +ℤ n +ℤ t ≤ℤ max_int32)
room_rest n t a up low room = (omega (arith, up, low, +ℤ_parts a n), rw (sum_assoc a n t) room)

-- A reward of positive amounts that count as they come, with room for it, is added in full: every
-- resource but experience rises by the sum of its amounts.
pub add_pairs_lem :
    (e : Env) (l : List (ℤ × ℤ)) (p : Player)
    → IsReward e l
    → Room l p
    → (j : ℤ) → IsSpendable j
    → get_resource (add_pairs e l p) j ≡ get_resource p j +ℤ sum_of j l
unfolding add_pairs
add_pairs_lem e [] p r room j s =
    eq_of_parts _ _ (omega (arith, +ℤ_parts (get_resource p j) (pos 0)))
add_pairs_lem e ((id, n) ∷ l) p (counts, up, r) room j s =
    let q = (add_resource e id n p).0 in
    let fits : IsSpendable id
        → (pos 0 ≤ℤ get_resource p id) × (get_resource p id +ℤ n ≤ℤ max_int32) =
      λ t.
        room_first id n (sum_of id l) (get_resource p id) (sum_low e id l r)
          (rw (=?-refl id) at (room id t)) in
    let one = add_one e id n p counts up fits in
    let left : Room l q = λ k t. elim (Bool-cases (id =? k)) [
      | inl same ↦
          let at = (=?-iff id k).0 same in
          let (low, high) : (pos 0 ≤ℤ get_resource p k)
              × (get_resource p k +ℤ (n +ℤ sum_of k l) ≤ℤ max_int32) =
            rw same at (room k t) in
          rw (one k t, same, at) (room_rest n (sum_of k l) (get_resource p k) up low high)
      | inr other ↦ rw (one k t, other) (rw other at (room k t))
    ] in
    elim (Bool-cases (id =? j)) [
      | inl same ↦
          let at = (=?-iff id j).0 same in
          rw same (
            add_pairs_lem e l q r left j s
            ∙ rw (one j s, same, at) (sum_assoc (get_resource p j) n (sum_of j l)))
      | inr other ↦ rw other (add_pairs_lem e l q r left j s ∙ rw (one j s, other) refl)
    ]

-- add_resources adds a reward in full: every resource but experience rises by the sum of its amounts.
-- The amounts are positive, each of gold, diamonds, experience, or an item of the table that is neither
-- an avatar nor honor; the resources but experience are not negative before, and with the reward not
-- above MaxInt32.
pub add_resources_exact :
    (e : Env) (items : List ℤ) (p : Player)
    → IsReward e (pairs items)
    → Room (pairs items) p
    → (j : ℤ) → IsSpendable j
    → get_resource (add_resources e (some items) p) j ≡ get_resource p j +ℤ sum_of j (pairs items)
unfolding add_resources
add_resources_exact e items p r room = add_pairs_lem e (pairs items) p r room
