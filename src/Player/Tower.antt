-- ===== src/Player/Tower.antt =====
-- src/hall_server/player_tower.go: the keys of the tower, which grow with time, and its fights.
pub mod Keys
pub mod Fight
use ih_server.Base.{
  ℕ, zero, suc, ℤ, pos, negsuc, ◌+₃₂◌, ◌-₃₂◌, ◌*₃₂◌, quot, rem, ◌<?◌, ◌≤?◌, ◌=?◌, Option, none,
  some, Bool, true, false, not, ◌||◌, if◌then◌else◌, List, [], ◌∷◌, Dict, has_index, insert,
}
use ih_server.Player.Env.{Env, Slice}
use ih_server.Player.State.{
  Player, Tower, Ret, success, level_not_enough, tower_already_fighted, tower_not_found,
  tower_already_highest, tower_cant_fight, tower_not_enough_stamina, fight_error, tower_data,
  tower_battle_result, tower_rank, stage_reward, send, pairs,
}
use ih_server.Player.Resource.ById.{get_resource, set_resource, add_resource, add_pairs}

-- get_tower_fight_id
unfoldable pub get_tower_fight_id : ℤ → ℤ → ℤ
get_tower_fight_id tower_id i = tower_id *₃₂ pos 10 +₃₂ i

-- What check_tower_keys computes: the keys, the time of the last key, the seconds to the next one.
pub record KeyState : Type 0 where
  pub keys : ℤ
  pub last_time : ℤ
  pub remain : ℤ

-- The keys that time makes, one every `suc n` seconds.
pub grow_keys : ℤ → ℤ → ℕ → ℤ → ℤ → KeyState
grow_keys now max n keys last =
    if max ≤? keys
    then record { keys = keys; last_time = last; remain = pos 0 }
    else if last =? pos 0
    then record { keys = max; last_time = now; remain = pos (suc n) }
    else let num = quot (now -₃₂ last) (suc n) in
      let y = rem (now -₃₂ last) (suc n) in
      let got =
        if pos 0 <? num then (if max <? keys +₃₂ num then max else keys +₃₂ num) else keys in
      record {
        keys = got;
        last_time = if pos 0 <? num then now -₃₂ y else last;
        remain = if got <? max then pos (suc n) -₃₂ y else pos 0;
      }

abbrev pub key_state : Env → Player → KeyState
key_state e p =
    grow_keys e.now e.tower_key_max e.tower_key_interval_pred (get_resource p e.tower_key_id)
      p.tower.last_get_new_key_time

-- check_tower_keys
pub check_tower_keys : Env → Player → Player × Bool × KeyState
check_tower_keys e p =
    let k = key_state e p in
    let q = record p { tower = record (p.tower) { last_get_new_key_time = k.last_time } } in
    if get_resource p e.tower_key_id =? k.keys
    then (q, false, k)
    else ((set_resource e e.tower_key_id k.keys q).0, true, k)

-- send_tower_data
pub send_tower_data : Env → Bool → Player → Player × Ret
send_tower_data e always p =
    if p.lvl <? e.tower_enter_level
    then (p, level_not_enough)
    else let (q, updated, k) = check_tower_keys e p in
      (
        if always || updated then send (tower_data q.tower.curr_id k.keys k.remain) q else q,
        success,
      )

-- The stage of the tower that is fought, a refusal, or the nil dereference of a first tower that
-- has no row.
pub data Choice : Type 0 where
  stage : ℤ → Choice
  refused : Ret → Choice
  panic : Choice

-- The first part of fight_tower: any tower before the first victory, then the next one.
unfoldable pub choose_tower : Env → ℤ → ℤ → Choice
choose_tower e curr id =
    if curr =? pos 0
    then (elim (e.tower_table id) [ none ↦ panic | some t ↦ stage t.stage_id ])
    else if id ≤? curr
    then refused tower_already_fighted
    else elim (e.tower_table curr) [
      | none ↦ refused tower_not_found
      | some c ↦ elim c.next [
        | none ↦ refused tower_already_highest
        | some (next, next_stage) ↦
            if not (next =? id) then refused tower_cant_fight else stage next_stage
      ]
    ]

-- FightInStage, of the battle: a negative error, or whether the player wins.
abbrev pub Fight : Type 0
Fight = ℤ → ℤ × Bool

-- send_stage_reward of src/hall_server/player_campaign.go
pub send_stage_reward : Env → Slice → ℤ → ℤ → Player → Player
send_stage_reward e none kind seconds p = p
send_stage_reward e (some []) kind seconds p = p
send_stage_reward e (some (n ∷ l)) kind seconds p =
    send (stage_reward (pairs (n ∷ l)) kind seconds) (add_pairs e (pairs (n ∷ l)) p)

-- The saved fights of a tower, by their ids: the attacker of each.
abbrev pub Saves : Type 0
Saves = Dict ℤ

-- A victory takes the first of three free places.
unfoldable pub save_fight : ℤ → ℤ → Saves → Saves
save_fight tower_id attacker m =
    let (a, b, c) : ℤ × ℤ × ℤ = (
      get_tower_fight_id tower_id (pos 1),
      get_tower_fight_id tower_id (pos 2),
      get_tower_fight_id tower_id (pos 3),
    ) in
    if not (has_index a m)
    then insert a attacker m
    else if not (has_index b m)
    then insert b attacker m
    else if not (has_index c m)
    then insert c attacker m
    else m

-- A fight costs a key.
pub spend_key : Env → ℤ → Player → Player
spend_key e keys p =
    let q = (add_resource e e.tower_key_id (negsuc 0) p).0 in
    if e.tower_key_max ≤? keys
    then record q { tower = record (q.tower) { last_get_new_key_time = e.now } }
    else q

-- A victory moves to the tower and pays the reward of its stage.
pub win_tower : Env → ℤ → Slice → Player → Player
win_tower e id rewards p = send_stage_reward e rewards (pos 3) (pos 0) (
    send (tower_rank id e.now)
      (record p { tower = record (p.tower) { curr_id = id; pass_tower_time = e.now } }))

-- The part of fight_tower after the keys are checked.
pub fight_with_key : Env → Fight → ℤ → ℤ → ℤ → Slice → ℤ → Saves → Player → Player × Saves × Ret
fight_with_key e fight player_id id stage_id rewards keys m p =
    let (error, won) = fight stage_id in
    if keys ≤? pos 0
    then (p, m, tower_not_enough_stamina)
    else if error <? pos 0
    then (p, m, fight_error error)
    else let q = send (tower_battle_result id won) (spend_key e keys p) in
      (
        (send_tower_data e true (if won then win_tower e id rewards q else q)).0,
        (if won then save_fight id player_id m else m),
        success,
      )

-- fight_tower; `none` is a panic
unfoldable pub fight_tower : Env → Fight → ℤ → ℤ → Saves → Player → Option (Player × Saves × Ret)
fight_tower e fight player_id id m p = elim (choose_tower e p.tower.curr_id id) [
  | panic ↦ none
  | refused r ↦ some (p, m, r)
  | stage stage_id ↦ elim (e.stage_table stage_id) [
    | none ↦ some (p, m, tower_not_found)
    | some rewards ↦
        let (q, updated, k) = check_tower_keys e p in
        some (fight_with_key e fight player_id id stage_id rewards k.keys m q)
  ]
]
