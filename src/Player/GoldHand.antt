-- ===== src/Player/GoldHand.antt =====
-- src/hall_server/player_goldhand.go: gold for gems, three kinds, each once until it is refreshed.
pub mod Touch
use ih_server.Base.{
  ℕ, zero, suc, ◌+◌, ℤ, pos, pos_part, ◌*ℤ◌, ◌+₃₂◌, ◌-₃₂◌, neg32, wrap32, quot, ◌<?◌, ◌≤?◌, ◌=?◌,
  List, [], ◌∷◌, Option, none, some, Bool, true, false, ◌&&◌, ◌||◌, if◌then◌else◌, get_elem?, set,
  Dict,
}
use ih_server.Player.Env.{Env, GoldHandData, VipData}
use ih_server.Player.State.{
  Player, GoldHand, Ret, success, failure, goldhand_data_not_found, goldhand_refresh_is_coolingdown,
  diamond_not_enough, gold_hand_data, touch_gold as touch_gold_response, send,
}
use ih_server.Player.Task.Update.{task_update}
use ih_server.Player.Resource.{add_gold, add_diamond}

-- TASK_COMPLETE_TYPE_GOLD_HAND_NUM
abbrev pub gold_hand_num : ℤ
gold_hand_num = pos 109

-- reset_gold_hand_left_nums
pub reset_left_nums : Player → Player
reset_left_nums p = record p {
  gold_hand = record (p.gold_hand) { left_num = pos 1 ∷ pos 1 ∷ pos 1 ∷ [] };
}

-- get_gold_hand_left_nums: the player, and the numbers
unfoldable pub get_left_nums : Player → Player × List ℤ
get_left_nums p = elim p.gold_hand.left_num [
  | [] ↦ (reset_left_nums p, pos 1 ∷ pos 1 ∷ pos 1 ∷ [])
  | n ∷ ns ↦ (p, n ∷ ns)
]

abbrev pub all_positive : List ℤ → Bool
all_positive [] = true
all_positive (n ∷ ns) = if n ≤? pos 0 then false else all_positive ns

-- if_gold_hand_reseted
pub if_reseted : Player → Player × Bool
if_reseted p = let (q, ns) = get_left_nums p in (q, all_positive ns)

-- check_reset_gold_hand: the player, and the seconds that remain
unfoldable pub check_reset : Env → GoldHandData → Player → Player × ℤ
check_reset e row p =
    let remain = row.refresh_cd -₃₂ (e.now -₃₂ p.gold_hand.last_refresh_time) in
    if remain <? pos 0 then (reset_left_nums p, pos 0) else (p, remain)

-- The numbers by their kind, from 1.
unfoldable pub numbered : ℤ → List ℤ → Dict ℤ
numbered i [] = []
numbered i (n ∷ ns) = (i, n) ∷ numbered (i +₃₂ pos 1) ns

-- send_gold_hand
pub send_gold_hand : Env → Player → Player × Ret
send_gold_hand e p = elim (e.goldhand_table p.lvl) [
  | none ↦ (p, goldhand_data_not_found)
  | some row ↦
      let (q, remain) = check_reset e row p in
      let (r, ns) = get_left_nums q in
      (send (gold_hand_data remain (numbered (pos 1) ns)) r, success)
]

-- has_free_gold_hand; an index out of range panics, `none`
abbrev is_free : ℤ → Option ℤ → Option Bool
is_free cost none = if cost ≤? pos 0 then none else some false
is_free cost (some n) = some (cost ≤? pos 0 && pos 0 <? n)

abbrev or_else : Option Bool → Option Bool → Option Bool
or_else none r = none
or_else (some true) r = some true
or_else (some false) r = r

unfoldable pub has_free_gold_hand : Env → Player → Player × Option Bool
has_free_gold_hand e p = elim (e.goldhand_table p.lvl) [
  | none ↦ (p, some false)
  | some row ↦
      let (q, remain) = check_reset e row p in
      let (r, ns) = get_left_nums q in
      (
        r,
        (if remain ≤? pos 0
            then or_else (is_free row.gem_cost.0 (get_elem? ns 0)) (
                or_else (is_free row.gem_cost.1 (get_elem? ns 1))
                  (is_free row.gem_cost.2 (get_elem? ns 2)))
            else some false),
      )
]

-- The reward and the cost of a kind, and its index in the numbers.
unfoldable pub offer : GoldHandData → ℤ → Option (ℤ × ℤ × ℕ)
offer row t =
    if t =? pos 1
    then some (row.gold_reward.0, row.gem_cost.0, 0)
    else if t =? pos 2
    then some (row.gold_reward.1, row.gem_cost.1, 1)
    else if t =? pos 3
    then some (row.gold_reward.2, row.gem_cost.2, 2)
    else none

-- int32(int64(gold) * int64(bonus) / 10000)
pub vip_gold : Env → Player → ℤ → ℤ
vip_gold e p gold = elim (e.vip_table p.vip_lvl) [
  | none ↦ pos 0
  | some v ↦ wrap32 (quot (gold *ℤ v.gold_finger_bonus) 10000)
]

-- The last part of touch_gold, once it is allowed.
pub touch : Env → GoldHandData → ℤ → ℤ → ℤ → ℕ → ℤ → List ℤ → Player → Player
touch e row t gold diamond i left ns p =
    let q = add_diamond (neg32 diamond) (add_gold (gold +₃₂ vip_gold e p gold) p) in
    let (r, reseted) = if_reseted q in
    let hand = record (r.gold_hand) {
      last_refresh_time = if reseted then e.now else r.gold_hand.last_refresh_time;
      left_num = set ns i (left -₃₂ pos 1);
    } in
    let s =
      send (touch_gold_response t (gold +₃₂ vip_gold e p gold) diamond row.refresh_cd)
        (record r { gold_hand = hand }) in
    task_update e gold_hand_num false (pos 0) (pos 1) (send_gold_hand e s).0

-- touch_gold; an index out of range panics, `none`
unfoldable pub touch_gold : Env → ℤ → Player → Option (Player × Ret)
touch_gold e t p = elim (e.goldhand_table p.lvl) [
  | none ↦ some (p, goldhand_data_not_found)
  | some row ↦
      let q = (check_reset e row p).0 in
      elim (offer row t) [
        | none ↦ some (q, failure)
        | some (gold, diamond, i) ↦
            let (r, ns) = get_left_nums q in
            elim (get_elem? ns i) [
              | none ↦ none
              | some left ↦
                  if left ≤? pos 0
                  then some (r, goldhand_refresh_is_coolingdown)
                  else if r.diamond <? diamond
                  then some (r, diamond_not_enough)
                  else some (touch e row t gold diamond i left ns r, success)
            ]
      ]
]
