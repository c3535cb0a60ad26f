-- ===== src/Player/TaskReward.antt =====
-- src/hall_server/player_task.go: task_get_reward, check_notify_next_task,
-- first_gen_achieve_tasks and dbPlayerTaskColumn.has_reward.
pub mod Others
pub mod Kept
pub mod Progress
pub mod Claimed
pub mod Once
use ih_server.Base.{
  ℤ, pos, ◌<?◌, ◌≤?◌, ◌=?◌, List, [], ◌∷◌, Option, none, some, Bool, true, false, ◌&&◌, ◌||◌, not,
  if◌then◌else◌, lookup, insert, delete, has_index, Dict,
}
use ih_server.Player.Env.{Env, TaskItem}
use ih_server.Player.State.{
  Player, TaskData, Ret, success, task_already_rewarded, task_not_found, task_not_complete,
  task_reward, send,
}
use ih_server.Player.Task.{
  doing, complete, reward, daily, achive, get_value, get_state, add_task, set_state,
  check_and_send_daily_task,
}
use ih_server.Player.Task.Update.{notify_task_value}
use ih_server.Player.Resource.ById.{add_resources}

-- check_notify_next_task
pub check_notify_next_task : Env → TaskItem → Player → Player
check_notify_next_task e t p = if t.next ≤? pos 0 then p else elim (e.task_map t.next) [
  | none ↦ p
  | some n ↦
      if not (has_index t.next p.tasks)
      then p
      else let v = get_value p t.next in
        notify_task_value t.next v (if n.complete_num ≤? v then complete else get_state p t.next) p
]

-- An achievement with a successor moves to the finished tasks.
pub finish : Env → TaskItem → ℤ → Player → Player
finish e t id p =
    if t.task_type =? achive && pos 0 <? t.next
    then check_notify_next_task e t (record p {
      tasks = delete id p.tasks;
      finished_tasks =
          if has_index id p.finished_tasks then p.finished_tasks else insert id tt p.finished_tasks;
    })
    else p

-- task_get_reward
unfoldable pub task_get_reward : Env → ℤ → Player → Player × Ret
task_get_reward e id p =
    if get_state p id =? reward then (p, task_already_rewarded) else elim (e.task_map id) [
      | none ↦ (p, task_not_found)
      | some t ↦
          let v = get_value p id in
          if v <? t.complete_num
          then (p, task_not_complete)
          else let q = set_state id reward (add_resources e t.rewards p) in
            let r = send (task_reward id) (notify_task_value id v reward q) in
            (check_and_send_daily_task e (finish e t id r), success)
    ]

-- first_gen_achieve_tasks
unfoldable pub add_tasks : List TaskItem → Player → Player
add_tasks [] p = p
add_tasks (t ∷ ts) p = add_tasks ts (add_task t.task_id (pos 0) p)

unfoldable pub first_gen_achieve_tasks : Env → Player → Player
first_gen_achieve_tasks e p = add_tasks e.achieve_tasks (record p { tasks = [] })

-- The state that has_reward gives a task whose progress has moved past its mark or behind it.
abbrev mended : TaskItem → TaskData → TaskData
mended t d =
    if d.state =? doing
    then (if t.complete_num ≤? d.value then record d { state = complete } else d)
    else if d.state =? complete
    then (if d.value <? t.complete_num then record d { state = doing } else d)
    else d

-- Whether a mended task is a reward of the kind that is asked for.
unfoldable pub is_due : Dict TaskData → ℤ → TaskItem → TaskData → Bool
is_due all ty t d =
    if pos 0 <? ty && not (t.task_type =? ty)
    then false
    else if t.task_type =? achive && pos 0 <? t.prev && has_index t.prev all
    then false
    else d.state =? complete && (ty =? pos 0 || ty =? daily || ty =? achive)

-- dbPlayerTaskColumn.has_reward, over the entries in the order of the iteration; it stops at the
-- first reward. `all` is the whole map, whose keys stay.
unfoldable pub has_reward_in : Env → Dict TaskData → ℤ → Dict TaskData → Dict TaskData × Bool
has_reward_in e all ty [] = ([], false)
has_reward_in e all ty ((id, d) ∷ m) =
    let (rest, found) = has_reward_in e all ty m in
    elim (e.task_map id) [
      | none ↦ ((id, d) ∷ rest, found)
      | some t ↦
          if is_due all ty t (mended t d)
          then ((id, mended t d) ∷ m, true)
          else ((id, mended t d) ∷ rest, found)
    ]

unfoldable pub task_has_reward : Env → ℤ → Player → Player × Bool
task_has_reward e ty p =
    let (m, found) = has_reward_in e p.tasks ty p.tasks in (record p { tasks = m }, found)
