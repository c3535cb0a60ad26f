-- ===== src/Player/Resource/ById.antt =====
-- src/hall_server/player_item.go: resources by their id, prices and rewards as slices of pairs,
-- add_vip_exp, sell_item; check_and_send_items_change of src/hall_server/player.go.
use ih_server.Base.{
  ◌+◌, ℤ, pos, negsuc, pos_part, ◌+₃₂◌, ◌-₃₂◌, ◌*₃₂◌, neg32, ◌<?◌, ◌≤?◌, ◌=?◌, List, [], ◌∷◌,
  Option, none, some, Bool, true, false, not, if◌then◌else◌, map,
}
use ih_server.Player.Env.{Env, ItemData, Slice}
use ih_server.Player.State.{
  Player, Ret, success, failure, item_table_id_not_found, item_num_not_enough, items_update,
  item_sell, activitys_update, send, pairs,
}
use ih_server.Player.Task.{reach_vip_n_level, get_quality_equips_num}
use ih_server.Player.Task.Update.{task_update}
use ih_server.Player.Resource.{
  gold_id, diamond_id, exp_id, vip_exp_id, charge_return, get_item, add_item, del_item, add_gold,
  add_diamond, add_exp, add_points, vip_level_up,
}

-- get_resource
unfoldable pub get_resource : Player → ℤ → ℤ
get_resource p id =
    if id =? gold_id
    then p.gold
    else if id =? diamond_id
    then p.diamond
    else if id =? exp_id
    then p.exp
    else get_item p id

-- The last case of set_resource: an item's count.
unfoldable pub set_item : Env → ℤ → ℤ → Player → Player
set_item e id num p =
    let n = get_item p id in
    if not (pos 0 ≤? n)
    then p
    else if pos 0 <? neg32 n +₃₂ num
    then (add_item e id (neg32 n +₃₂ num) p).0
    else (del_item id (n -₃₂ num) p).0

-- set_resource
unfoldable pub set_resource : Env → ℤ → ℤ → Player → Player × ℤ
set_resource e id num p =
    if num <? pos 0
    then (p, negsuc 0)
    else if id =? gold_id
    then (record p { gold = num; b_base_prop_chg = true }, num)
    else if id =? diamond_id
    then (record p { diamond = num; b_base_prop_chg = true }, num)
    else if id =? exp_id
    then (p, num)
    else (set_item e id num p, num)

-- add_vip_exp
unfoldable pub add_vip_exp : Env → ℤ → Player → Player
add_vip_exp e add p =
    if add ≤? pos 0
    then p
    else let exp = add_points add (get_resource p vip_exp_id) in
      if e.vip_table_len ≤? p.vip_lvl
      then p
      else let level = vip_level_up (pos_part e.vip_table_len + 1) e.vip_table exp p.vip_lvl in
        let q =
          if level =? p.vip_lvl
          then p
          else task_update e reach_vip_n_level true level (pos 1)
              (record p { vip_lvl = level; b_base_prop_chg = true }) in
        let r =
          if exp =? get_resource q vip_exp_id then q else (set_resource e vip_exp_id exp q).0 in
        send (activitys_update charge_return add) r

-- The tasks that count equipment are told of what add_item added.
unfoldable pub gained : Env → ℤ → Player × Option ItemData → Player × Bool
gained e count (q, none) = (q, false)
gained e count (q, some item) = (
  (if pos 0 <? item.equip_type
      then task_update e get_quality_equips_num false item.quality count q
      else q),
  true,
)

-- The last case of add_resource: an item.
unfoldable pub add_item_resource : Env → ℤ → ℤ → Player → Player × Bool
add_item_resource e id count p =
    if pos 0 <? count then gained e count (add_item e id count p) else del_item id (neg32 count) p

-- add_resource
unfoldable pub add_resource : Env → ℤ → ℤ → Player → Player × Bool
add_resource e id count p =
    if id =? gold_id
    then (add_gold count p, true)
    else if id =? diamond_id
    then (add_diamond count p, true)
    else if id =? exp_id
    then (add_exp e count p, true)
    else if id =? vip_exp_id
    then (add_vip_exp e count p, true)
    else add_item_resource e id count p

-- add_resources, on the pairs of the slice
unfoldable pub add_pairs : Env → List (ℤ × ℤ) → Player → Player
add_pairs e [] p = p
add_pairs e ((id, num) ∷ l) p = add_pairs e l (add_resource e id num p).0

unfoldable pub add_resources : Env → Slice → Player → Player
add_resources e none p = p
add_resources e (some items) p = add_pairs e (pairs items) p

-- check_resources
unfoldable pub check_pairs : List (ℤ × ℤ) → Player → Bool
check_pairs [] p = true
check_pairs ((id, num) ∷ l) p = if get_resource p id <? num then false else check_pairs l p

unfoldable pub check_resources : Slice → Player → Bool
check_resources none p = false
check_resources (some items) p = check_pairs (pairs items) p

-- cost_resources
unfoldable pub cost_pairs : Env → List (ℤ × ℤ) → Player → Player
cost_pairs e [] p = p
cost_pairs e ((id, num) ∷ l) p = cost_pairs e l (add_resource e id (neg32 num) p).0

unfoldable pub cost_resources : Env → Slice → Player → Player × Bool
cost_resources e none p = (p, false)
cost_resources e (some items) p =
    if not (check_pairs (pairs items) p) then (p, false) else (cost_pairs e (pairs items) p, true)

-- The reward of a sale, item_num times the row's.
abbrev times : ℤ → List (ℤ × ℤ) → List (ℤ × ℤ)
times n = map λ r. (r.0, n *₃₂ r.1)

unfoldable pub add_reward : Env → ℤ → Slice → Player → Player
add_reward e n none p = p
add_reward e n (some l) p = add_pairs e (times n (pairs l)) p

-- sell_item
unfoldable pub sell_item : Env → ℤ → ℤ → Bool → Player → Player × Ret
sell_item e id num send_msg p = if num ≤? pos 0 then (p, failure) else elim (e.item_table id) [
  | none ↦ (p, item_table_id_not_found)
  | some item ↦
      if get_item p id <? num
      then (p, item_num_not_enough)
      else let q = (del_item id num p).0 in
        let r = add_reward e num item.sell_reward q in
        (if send_msg then send (item_sell id num) r else r, success)
]

-- check_and_send_items_change: the changes, and the counts of the items that changed
unfoldable pub check_and_send_items_change : Player → Player
check_and_send_items_change p = elim p.items_changed_info [
  | none ↦ p
  | some m ↦ record (send (items_update m (map (λ c. (c.0, get_item p c.0)) m)) p) {
    items_changed_info = none;
  }
]
