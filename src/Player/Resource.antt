-- ===== src/Player/Resource.antt =====
-- src/hall_server/player_item.go: the resources of a player, which are gold, diamonds, experience and
-- counted items, and the sale of an item; check_and_send_items_change of src/hall_server/player.go.
pub mod ById
pub mod Money
pub mod Exp
pub mod Items
pub mod Changes
pub mod Sync
pub mod Price
pub mod Reward
pub mod Frame
pub mod Vip
use ih_server.Base.{
  ℕ, zero, suc, ◌+◌, ℤ, pos, pos_part, ◌+₃₂◌, ◌-₃₂◌, neg32, max_int32, ◌<?◌, ◌≤?◌, ◌=?◌, [], Option,
  none, some, Bool, true, false, ◌||◌, not, if◌then◌else◌, lookup, insert, delete, Dict,
}
use ih_server.Player.Env.{Env, ItemData, VipData}
use ih_server.Player.State.{Player, activitys_update, save_uid_player_info, send, value_or_zero}
use ih_server.Player.Task.{reach_level}
use ih_server.Player.Task.Update.{task_update}

-- ITEM_RESOURCE_ID_GOLD and the other ids that the functions below tell apart
abbrev pub gold_id : ℤ
gold_id = pos 1

abbrev pub diamond_id : ℤ
diamond_id = pos 3

abbrev pub exp_id : ℤ
exp_id = pos 7

abbrev honor_id : ℤ
honor_id = pos 17

abbrev pub vip_exp_id : ℤ
vip_exp_id = pos 21

-- ITEM_TYPE_HEAD
abbrev pub head_type : ℤ
head_type = pos 5

-- ACTIVITY_EVENT_DIAMOND_COST and ACTIVITY_EVENT_CHARGE_RETURN
abbrev diamond_cost : ℤ
diamond_cost = pos 305

abbrev pub charge_return : ℤ
charge_return = pos 303

-- get_item
abbrev pub get_item : Player → ℤ → ℤ
get_item p id = value_or_zero (lookup id p.items)

-- The map that items_changed_info holds once it is made.
abbrev pub changes : Option (Dict ℤ) → Dict ℤ
changes none = []
changes (some m) = m

-- The change of an item's count is added to what is noted of the item; a sum of zero is dropped.
unfoldable pub note_change : ℤ → ℤ → Dict ℤ → Dict ℤ
note_change id d m = elim (lookup id m) [
  | none ↦ insert id d m
  | some c ↦ if not (c +₃₂ d =? pos 0) then insert id (c +₃₂ d) m else delete id m
]

-- The count with the bonus of the VIP level, which honor alone has.
unfoldable pub bonus_count : Env → Player → ℤ → ℤ → ℤ
bonus_count e p id count =
    if id =? honor_id
    then (count +₃₂ (elim (e.vip_table p.vip_lvl) [
      | none ↦ pos 0
      | some v ↦ e.scale_float32 count v.honor_point_bonus
    ]))
    else count

-- The items after an addition, and the count that was really added.
unfoldable pub stock : ItemData → ℤ → ℤ → Dict ℤ → Dict ℤ × ℤ
stock item id count m = elim (lookup id m) [
  | none ↦ let n = if item.item_type =? head_type then pos 1 else count in (insert id n m, n)
  | some old ↦
      if item.item_type =? head_type
      then (m, pos 0)
      else if old +₃₂ count <? pos 0
      then (insert id max_int32 m, max_int32 -₃₂ old)
      else (insert id (old +₃₂ count) m, count)
]

-- add_item; the result is the item's table row, `none` for nil
unfoldable pub add_item : Env → ℤ → ℤ → Player → Player × Option ItemData
add_item e id count p = elim (e.item_table id) [
  | none ↦ (p, none)
  | some item ↦
      if count <? pos 0
      then (p, none)
      else let (m, n) = stock item id (bonus_count e p id count) p.items in
        let c = changes p.items_changed_info in
        (
          record p {
            items = m;
            items_changed_info = some (if pos 0 <? n then note_change id n c else c);
          },
          some item,
        )
]

-- del_item
unfoldable pub del_item : ℤ → ℤ → Player → Player × Bool
del_item id count p = elim (lookup id p.items) [
  | none ↦ (p, false)
  | some c ↦ if count ≤? pos 0 || c <? count then (p, false) else (
    record p {
      items = (if c =? count then delete id p.items else insert id (c +₃₂ neg32 count) p.items);
      items_changed_info = some (note_change id (neg32 count) (changes p.items_changed_info));
    },
    true,
  )
]

-- The sum that add_gold and add_diamond store: one that wraps round is replaced.
pub add_money : ℤ → ℤ → ℤ
add_money add old =
    if pos 0 ≤? add +₃₂ old then old +₃₂ add else if pos 0 <? add then max_int32 else pos 0

-- add_gold and add_diamond, without their results, which no caller here reads
unfoldable pub add_gold : ℤ → Player → Player
add_gold add p = record p {
  gold = add_money add p.gold;
  b_base_prop_chg = not (add =? pos 0) || p.b_base_prop_chg;
}

unfoldable pub add_diamond : ℤ → Player → Player
add_diamond add p =
    let q = record p { diamond = add_money add p.diamond } in
    let r = if add <? pos 0 then send (activitys_update diamond_cost (neg32 add)) q else q in
    record r { b_base_prop_chg = not (add =? pos 0) || p.b_base_prop_chg }

-- The loop of add_exp, with fuel: the level and the experience that is left.
pub level_up : ℕ → (ℤ → Option ℤ) → ℤ → ℤ → ℤ × ℤ
level_up zero table level exp = (level, exp)
level_up (suc fuel) table level exp = elim (table level) [
  | none ↦ (level, exp)
  | some need ↦
      let rest = level_up fuel table (level +₃₂ pos 1) (exp -₃₂ need) in
      if need ≤? pos 0 || exp <? need then (level, exp) else rest
]

-- A sum that wraps round becomes MaxInt32.
pub add_points : ℤ → ℤ → ℤ
add_points add old = if add +₃₂ old <? add || add +₃₂ old <? old then max_int32 else add +₃₂ old

-- add_exp
unfoldable pub add_exp : Env → ℤ → Player → Player
add_exp e add p =
    if add <? pos 0
    then p
    else let total = add_points add p.exp in
      let (level, exp) = level_up (pos_part total + 1) e.levelup_table p.lvl total in
      let q = if exp =? p.exp then p else record p { exp = exp; b_base_prop_chg = true } in
      if level =? p.lvl
      then q
      else send (save_uid_player_info level) (
          task_update e reach_level true level (pos 1)
            (record q { lvl = level; row_level = level; b_base_prop_chg = true }))

-- The loop of add_vip_exp, with fuel.
unfoldable pub vip_level_up : ℕ → (ℤ → Option VipData) → ℤ → ℤ → ℤ
vip_level_up zero table exp level = level
vip_level_up (suc fuel) table exp level = elim (table (level +₃₂ pos 1)) [
  | none ↦ level
  | some v ↦
      let rest = vip_level_up fuel table exp (level +₃₂ pos 1) in
      if v.exp ≤? pos 0 || exp <? v.exp then level else rest
]
