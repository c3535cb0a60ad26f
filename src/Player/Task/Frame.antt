-- ===== src/Player/Task/Frame.antt =====
-- src/hall_server/player_task.go: what the progress of tasks leaves alone.
use ih_server.Base.{ℤ, pos, List, [], ◌∷◌, Bool, ◌≡◌, refl, ◌∙◌, ap, inl, inr, Option-cases, arith}
use ih_server.Player.Env.{Env, TaskItem}
use ih_server.Player.State.{Player, send, Effect}
use ih_server.Player.Task.{
  add_task, set_value, set_state, incby_value, reset_daily_task, chk_player_daily_task, settle,
  fill_task, fill_tasks, fill_task_msg, send_daily, send_achive, send_task,
  check_and_send_daily_task, daily, achive,
}
use ih_server.Player.Task.Update.{
  notify_task_value, single_task_update, whole_daily_task_update, task_update_one, task_update_loop,
  task_update,
}

-- `q` differs from `p` in its tasks, their clock and the effects at most.
pub record OnlyTasks (p q : Player) : Type 0 where
  pub same :
      q ≡ record p { tasks = q.tasks; task_refresh_time = q.task_refresh_time; effects = q.effects }

OnlyTasks-refl : (p : Player) → OnlyTasks p p
OnlyTasks-refl p = record { same = refl }

OnlyTasks-trans : {p q r : Player} → OnlyTasks p q → OnlyTasks q r → OnlyTasks p r
OnlyTasks-trans {p} {q} {r} a b = record {
  same =
      b.same
      ∙ ap {B = Player}
          (λ (x : Player). record x {
            tasks = r.tasks;
            task_refresh_time = r.task_refresh_time;
            effects = r.effects;
          })
          a.same;
}

send-OnlyTasks : (e : Effect) (p : Player) → OnlyTasks p (send e p)
unfolding send
send-OnlyTasks e p = record { same = refl }

pub add_task-OnlyTasks : (id v : ℤ) (p : Player) → OnlyTasks p (add_task id v p)
unfolding add_task
add_task-OnlyTasks id v p = ground arith

set_value-OnlyTasks : (id v : ℤ) (p : Player) → OnlyTasks p (set_value id v p)
unfolding set_value
set_value-OnlyTasks id v p = ground arith

set_state-OnlyTasks : (id v : ℤ) (p : Player) → OnlyTasks p (set_state id v p)
unfolding set_state
set_state-OnlyTasks id v p = ground arith

pub chk-OnlyTasks : (e : Env) (p : Player) → OnlyTasks p (chk_player_daily_task e p).0
unfolding chk_player_daily_task reset_daily_task
chk-OnlyTasks e p = ground arith

settle-OnlyTasks : (e : Env) (t : TaskItem) (p : Player) → OnlyTasks p (settle e t p).0
unfolding settle
settle-OnlyTasks e t p =
    ground (
      arith,
      set_value-OnlyTasks t.task_id t.complete_num p,
      set_state-OnlyTasks t.task_id (pos 0) p,
    )

pub fill_task-OnlyTasks :
    (e : Env) (ty : ℤ) (t : TaskItem) (p : Player) → OnlyTasks p (fill_task e ty t p).0
unfolding fill_task
fill_task-OnlyTasks e ty t p =
    let a =
      OnlyTasks-trans (add_task-OnlyTasks t.task_id (pos 0) p)
        (settle-OnlyTasks e t (add_task t.task_id (pos 0) p)) in
    ground (arith, a)

fill_tasks-OnlyTasks :
    (e : Env) (ty : ℤ) (ts : List TaskItem) (p : Player) → OnlyTasks p (fill_tasks e ty ts p).0
unfolding fill_tasks
fill_tasks-OnlyTasks e ty [] p = OnlyTasks-refl p
fill_tasks-OnlyTasks e ty (t ∷ ts) p =
    OnlyTasks-trans (fill_task-OnlyTasks e ty t p)
      (fill_tasks-OnlyTasks e ty ts (fill_task e ty t p).0)

fill_task_msg-OnlyTasks : (e : Env) (ty : ℤ) (p : Player) → OnlyTasks p (fill_task_msg e ty p).0
unfolding fill_task_msg
fill_task_msg-OnlyTasks e ty p =
    ground (
      arith,
      fill_tasks-OnlyTasks e ty e.daily_tasks p,
      fill_tasks-OnlyTasks e ty e.achieve_tasks p,
    )

send_daily-OnlyTasks : (e : Env) (p : Player) → OnlyTasks p (send_daily e p).0
unfolding send_daily
send_daily-OnlyTasks e p =
    OnlyTasks-trans (chk-OnlyTasks e p)
      (OnlyTasks-trans (fill_task_msg-OnlyTasks e daily _) (send-OnlyTasks _ _))

send_achive-OnlyTasks : (e : Env) (r : ℤ) (p : Player) → OnlyTasks p (send_achive e r p)
unfolding send_achive
send_achive-OnlyTasks e r p =
    OnlyTasks-trans (fill_task_msg-OnlyTasks e achive _) (send-OnlyTasks _ _)

check_and_send-OnlyTasks : (e : Env) (p : Player) → OnlyTasks p (check_and_send_daily_task e p)
unfolding check_and_send_daily_task send_task
check_and_send-OnlyTasks e p =
    let (q, r) = chk_player_daily_task e p in
    ground
      (arith, chk-OnlyTasks e p, OnlyTasks-trans (chk-OnlyTasks e p) (send_daily-OnlyTasks e q))

pub single-OnlyTasks :
    (t : TaskItem) (v : ℤ) (p : Player) → OnlyTasks p (single_task_update t v p).0
unfolding single_task_update incby_value
single-OnlyTasks t v p = ground (arith, add_task-OnlyTasks t.task_id v p)

pub whole-OnlyTasks :
    (e : Env) (t : TaskItem) (p : Player) → OnlyTasks p (whole_daily_task_update e t p)
unfolding whole_daily_task_update notify_task_value send
whole-OnlyTasks e t p = elim (Option-cases e.all_daily_task) [
  | inl h ↦ rw (h, whole_daily_task_update) (OnlyTasks-refl p)
  | inr (w, h) ↦ rw (h, whole_daily_task_update) (ground (arith, single-OnlyTasks w (pos 1) p))
]

update_one-OnlyTasks :
    (e : Env) (b : Bool) (param v : ℤ) (t : TaskItem) (p : Player)
    → OnlyTasks p (task_update_one e b param v t p)
unfolding task_update_one notify_task_value send
update_one-OnlyTasks e b param v t p =
    let a = single-OnlyTasks t v p in
    let (q, r) = single_task_update t v p in
    let n = notify_task_value t.task_id r.cur_val r.cur_state q in
    ground (arith, a, whole-OnlyTasks e t n)

loop-OnlyTasks :
    (e : Env) (b : Bool) (param v : ℤ) (ts : List TaskItem) (p : Player)
    → OnlyTasks p (task_update_loop e b param v ts p)
unfolding task_update_loop
loop-OnlyTasks e b param v [] p = OnlyTasks-refl p
loop-OnlyTasks e b param v (t ∷ ts) p =
    OnlyTasks-trans (update_one-OnlyTasks e b param v t p)
      (loop-OnlyTasks e b param v ts (task_update_one e b param v t p))

update_by-OnlyTasks :
    (e : Env) (ty : ℤ) (b : Bool) (param v : ℤ) (p : Player) (l : List TaskItem)
    → e.finish_tasks ty ≡ l
    → OnlyTasks p (task_update e ty b param v p)
unfolding task_update
update_by-OnlyTasks e ty b param v p [] h = rw (h, task_update) (OnlyTasks-refl p)
update_by-OnlyTasks e ty b param v p (t ∷ ts) h =
    rw (h, task_update)
      (OnlyTasks-trans (loop-OnlyTasks e b param v (t ∷ ts) p) (check_and_send-OnlyTasks e _))

-- TaskUpdate changes the tasks, the clock of their reset and what is sent, and nothing else of the
-- player.
pub task_update-OnlyTasks :
    (e : Env) (ty : ℤ) (b : Bool) (param v : ℤ) (p : Player)
    → OnlyTasks p (task_update e ty b param v p)
task_update-OnlyTasks e ty b param v p =
    update_by-OnlyTasks e ty b param v p (e.finish_tasks ty) refl
