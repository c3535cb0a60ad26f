-- ===== src/Player/Task/Update.antt =====
-- src/hall_server/player_task.go: the progress of tasks (TaskUpdate and what it calls).
use ih_server.Base.{
  ℤ, pos, ◌<?◌, ◌=?◌, List, [], ◌∷◌, none, some, Bool, true, false, ◌&&◌, ◌||◌, not, if◌then◌else◌,
  lookup, has_index,
}
use ih_server.Player.Env.{Env, TaskItem}
use ih_server.Player.State.{Player, task_value_notify, send}
use ih_server.Player.Task.{
  complete, doing, reward, daily, achive, all_daily, get_value, get_state, add_task, incby_value,
  check_and_send_daily_task,
}

-- NotifyTaskValue
unfoldable pub notify_task_value : ℤ → ℤ → ℤ → Player → Player
notify_task_value id v s p = send (task_value_notify id v s) p

-- IsTaskComplete
unfoldable pub is_task_complete : Player → TaskItem → Bool
is_task_complete p t =
    if t.task_type =? daily || t.task_type =? achive
    then (elim (lookup t.task_id p.tasks) [
      | none ↦ false
      | some d ↦ not (d.value <? t.complete_num)
    ])
    else false

-- SingleTaskUpdate: updated, cur_val and cur_state
pub record Progress : Type 0 where
  pub updated : Bool
  pub cur_val : ℤ
  pub cur_state : ℤ

abbrev state_at : ℤ → TaskItem → ℤ
state_at v t = if v <? t.complete_num then doing else complete

unfoldable pub single_task_update : TaskItem → ℤ → Player → Player × Progress
single_task_update t add_val p =
    if has_index t.task_id p.tasks
    then (if get_state p t.task_id =? reward
        then (p, record { updated = false; cur_val = pos 0; cur_state = pos 0 })
        else if get_value p t.task_id <? t.complete_num
        then (let q = incby_value t.task_id add_val p in
            let v = get_value q t.task_id in
            (q, record { updated = true; cur_val = v; cur_state = state_at v t }))
        else (p, record { updated = false; cur_val = pos 0; cur_state = state_at (pos 0) t }))
    else (
      add_task t.task_id add_val p,
      record { updated = true; cur_val = add_val; cur_state = state_at add_val t },
    )

-- WholeDailyTaskUpdate
unfoldable pub whole_daily_task_update : Env → TaskItem → Player → Player
whole_daily_task_update e t p = elim e.all_daily_task [
  | none ↦ p
  | some w ↦
      if is_task_complete p w || t.event_id =? all_daily
      then p
      else let (q, r) = single_task_update w (pos 1) p in
        if r.updated then notify_task_value w.task_id r.cur_val r.cur_state q else q
]

-- The test of EventParam in TaskUpdate.
unfoldable pub event_matches : Bool → ℤ → TaskItem → Bool
event_matches if_not_less event_param t =
    if pos 0 <? t.event_param
    then (if if_not_less then not (event_param <? t.event_param) else event_param =? t.event_param)
    else true

-- One round of the loop of TaskUpdate.
unfoldable pub task_update_one : Env → Bool → ℤ → ℤ → TaskItem → Player → Player
task_update_one e if_not_less event_param value t p =
    if not (has_index t.task_id p.tasks)
      || is_task_complete p t
      || not (event_matches if_not_less event_param t)
    then p
    else let (q, r) = single_task_update t value p in
      if r.updated && not (pos 0 <? t.prev && has_index t.prev q.tasks)
      then (let n = notify_task_value t.task_id r.cur_val r.cur_state q in
          if t.task_type =? daily && r.cur_state =? complete
          then whole_daily_task_update e t n
          else n)
      else q

unfoldable pub task_update_loop : Env → Bool → ℤ → ℤ → List TaskItem → Player → Player
task_update_loop e if_not_less event_param value [] p = p
task_update_loop e if_not_less event_param value (t ∷ ts) p =
    task_update_loop e if_not_less event_param value ts
      (task_update_one e if_not_less event_param value t p)

-- TaskUpdate
unfoldable pub task_update : Env → ℤ → Bool → ℤ → ℤ → Player → Player
task_update e complete_type if_not_less event_param value p = elim (e.finish_tasks complete_type) [
  | [] ↦ p
  | t ∷ ts ↦
      check_and_send_daily_task e (task_update_loop e if_not_less event_param value (t ∷ ts) p)
]
