-- ===== src/Player/Task.antt =====
-- src/hall_server/player_task.go: daily tasks and achievements, and the clock of the daily reset
-- (GetRemainSeconds2NextDayTime of libs/utils/time_func.go).
pub mod Update
pub mod Frame
use ih_server.Base.{
  ℤ, pos, negsuc, ◌+ℤ◌, ◌-ℤ◌, ◌+₃₂◌, wrap32, ◌<?◌, ◌≤?◌, ◌=?◌, List, [], ◌∷◌, Option, none, some,
  Bool, true, false, ◌&&◌, ◌||◌, not, if◌then◌else◌, lookup, insert, delete, has_index, Dict,
}
use ih_server.Player.Env.{Env, TaskItem}
use ih_server.Player.State.{Player, TaskData, TaskInfo, Effect, task_value_notify, task_data, send}

-- TASK_STATE_DOING, TASK_STATE_COMPLETE and TASK_STATE_REWARD
abbrev pub doing : ℤ
doing = pos 0

abbrev pub complete : ℤ
complete = pos 1

abbrev pub reward : ℤ
reward = pos 2

-- TASK_TYPE_DAILY and TASK_TYPE_ACHIVE
abbrev pub daily : ℤ
daily = pos 1

abbrev pub achive : ℤ
achive = pos 2

-- TASK_COMPLETE_TYPE_ALL_DAILY, _REACH_LEVEL, _REACH_VIP_N_LEVEL and _GET_QUALITY_EQUIPS_NUM
abbrev pub all_daily : ℤ
all_daily = pos 101

abbrev pub reach_level : ℤ
reach_level = pos 202

abbrev pub reach_vip_n_level : ℤ
reach_vip_n_level = pos 209

abbrev pub get_quality_equips_num : ℤ
get_quality_equips_num = pos 210

-- GetRemainSeconds2NextDayTime, where `today` is the configured time of this day
unfoldable pub remain_seconds_to_next_day_time : ℤ → Option ℤ → ℤ → ℤ
remain_seconds_to_next_day_time now today last = if now <? last then negsuc 0 else elim today [
  | none ↦ negsuc 0
  | some at ↦
      if last <? at
      then (if now <? at then wrap32 (at -ℤ now) else pos 0)
      else wrap32 (at +ℤ pos 86400 -ℤ now)
]

abbrev remain_seconds : Env → ℤ → ℤ
remain_seconds e = remain_seconds_to_next_day_time e.now e.daily_refresh_today

abbrev value_of : Option TaskData → ℤ
value_of none = pos 0
value_of (some d) = d.value

abbrev state_of : Option TaskData → ℤ
state_of none = pos 0
state_of (some d) = d.state

-- dbPlayerTaskColumn's GetValue and GetState, without their second value
abbrev pub get_value : Player → ℤ → ℤ
get_value p id = value_of (lookup id p.tasks)

abbrev pub get_state : Player → ℤ → ℤ
get_state p id = state_of (lookup id p.tasks)

-- its Add, SetValue, SetState and IncbyValue
unfoldable pub add_task : ℤ → ℤ → Player → Player
add_task id v p =
    if has_index id p.tasks
    then p
    else record p { tasks = insert id (record { value = v; state = doing }) p.tasks }

unfoldable pub set_value : ℤ → ℤ → Player → Player
set_value id v p = elim (lookup id p.tasks) [
  | none ↦ p
  | some d ↦ record p { tasks = insert id (record d { value = v }) p.tasks }
]

unfoldable pub set_state : ℤ → ℤ → Player → Player
set_state id s p = elim (lookup id p.tasks) [
  | none ↦ p
  | some d ↦ record p { tasks = insert id (record d { state = s }) p.tasks }
]

unfoldable pub incby_value : ℤ → ℤ → Player → Player
incby_value id v p = record p {
  tasks = insert id (record { value = get_value p id +₃₂ v; state = get_state p id }) p.tasks;
}

-- ResetDailyTask
unfoldable pub reset_tasks : List TaskItem → Dict TaskData → Dict TaskData
reset_tasks [] m = m
reset_tasks (t ∷ ts) m =
    reset_tasks ts (insert t.task_id (record { value = pos 0; state = pos 0 }) m)

unfoldable pub reset_daily_task : Env → Player → Player
unfolding reset_tasks
reset_daily_task e p = record p { tasks = reset_tasks e.daily_tasks p.tasks }

-- ChkPlayerDailyTask
unfoldable pub chk_player_daily_task : Env → Player → Player × ℤ
chk_player_daily_task e p =
    let remain = remain_seconds e p.task_refresh_time in
    if remain ≤? pos 0
    then (record (reset_daily_task e p) { task_refresh_time = e.now }, remain_seconds e e.now)
    else (p, remain)

-- The states of a task that fill_task_msg mends before it lists the task.
unfoldable pub settle : Env → TaskItem → Player → Player × ℤ × ℤ
settle e t p =
    let v = get_value p t.task_id in
    let s = get_state p t.task_id in
    let reached =
      (t.event_id =? reach_level && t.event_param ≤? p.row_level)
      || (t.event_id =? reach_vip_n_level && t.event_param ≤? p.vip_lvl) in
    if s =? doing && t.complete_num ≤? v
    then (p, v, complete)
    else if s =? complete && v <? t.complete_num
    then (set_state t.task_id doing p, v, doing)
    else if s =? doing && reached
    then (set_value t.task_id t.complete_num p, t.complete_num, complete)
    else (p, v, s)

-- One round of the loop of fill_task_msg: the player, and the entry if one is listed.
unfoldable pub fill_task : Env → ℤ → TaskItem → Player → Player × Option TaskInfo
fill_task e task_type t p =
    if not (has_index t.task_id p.tasks) && has_index t.task_id p.finished_tasks
    then (p, none)
    else let (q, v, s) = settle e t (add_task t.task_id (pos 0) p) in
      if not (t.task_type =? task_type) || (pos 0 <? t.prev && has_index t.prev q.tasks)
      then (q, none)
      else (q, some (record { id = t.task_id; value = v; state = s }))

abbrev concat_option : Option TaskInfo → List TaskInfo → List TaskInfo
concat_option none l = l
concat_option (some i) l = i ∷ l

unfoldable pub fill_tasks : Env → ℤ → List TaskItem → Player → Player × List TaskInfo
fill_tasks e task_type [] p = (p, [])
fill_tasks e task_type (t ∷ ts) p =
    let (q, entry) = fill_task e task_type t p in
    let (r, rest) = fill_tasks e task_type ts q in (r, concat_option entry rest)

-- fill_task_msg; GetTasks has no tasks of another type
unfoldable pub fill_task_msg : Env → ℤ → Player → Player × List TaskInfo
fill_task_msg e task_type p =
    if task_type =? daily
    then fill_tasks e task_type e.daily_tasks p
    else if task_type =? achive
    then fill_tasks e task_type e.achieve_tasks p
    else (p, [])

-- The halves of send_task. The response of the second half keeps the seconds of the first.
unfoldable pub send_daily : Env → Player → Player × ℤ
send_daily e p =
    let (q, remain) = chk_player_daily_task e p in
    let (r, list) = fill_task_msg e daily q in (send (task_data daily list remain) r, remain)

unfoldable pub send_achive : Env → ℤ → Player → Player
send_achive e remain p =
    let (q, list) = fill_task_msg e achive p in send (task_data achive list remain) q

unfoldable pub send_task : Env → ℤ → Player → Player
send_task e task_type p =
    let (q, remain) =
      if task_type =? pos 0 || task_type =? daily then send_daily e p else (p, pos 0) in
    if task_type =? pos 0 || task_type =? achive then send_achive e remain q else q

unfoldable pub check_and_send_daily_task : Env → Player → Player
check_and_send_daily_task e p =
    let (q, remain) = chk_player_daily_task e p in
    if remain ≤? pos 0 then send_task e daily q else q
