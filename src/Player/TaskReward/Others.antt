-- ===== src/Player/TaskReward/Others.antt =====
-- src/hall_server/player_task.go: what leaves a task alone that is none of the daily ones.
use ih_server.Base.{
  ℤ, pos, =?-iff, List, [], ◌∷◌, Option-cases, inl, inr, lookup, lookup-insert, ◌≡◌, ◌≢◌, refl, ◌∙◌,
  Dict, arith,
}
use ih_server.Player.Env.{Env, TaskItem}
use ih_server.Player.State.{Player, TaskData, send}
use ih_server.Player.Task.{
  doing, daily, add_task, set_state, set_value, send_daily, send_task, check_and_send_daily_task,
  chk_player_daily_task, reset_daily_task, reset_tasks, settle, fill_task, fill_tasks,
  fill_task_msg,
}

-- A task that a list of tasks does not name.
abbrev pub IsNotIn : ℤ → List TaskItem → Type 0
IsNotIn id [] = Unit {0}
IsNotIn id (t ∷ ts) = (t.task_id ≢ id) × IsNotIn id ts

module _ (e : Env) (id : ℤ) where
  pub reset_tasks-lookup :
      (l : List TaskItem) (m : Dict TaskData)
      → IsNotIn id l
      → lookup id (reset_tasks l m) ≡ lookup id m
  unfolding reset_tasks
  reset_tasks-lookup [] m h = refl
  reset_tasks-lookup (t ∷ ts) m (h, hs) =
      reset_tasks-lookup ts _ hs
      ∙ ground (
        arith,
        lookup-insert t.task_id id (record { value = pos 0; state = pos 0 }) m,
        =?-iff t.task_id id,
      )

  pub add_task-lookup :
      (i v : ℤ) (p : Player) → i ≢ id → lookup id (add_task i v p).tasks ≡ lookup id p.tasks
  unfolding add_task
  add_task-lookup i v p h =
      ground (arith, lookup-insert i id (record { value = v; state = doing }) p.tasks, =?-iff i id)

  pub set_state-lookup :
      (i s : ℤ) (p : Player) → i ≢ id → lookup id (set_state i s p).tasks ≡ lookup id p.tasks
  unfolding set_state
  set_state-lookup i s p h = elim (Option-cases (lookup i p.tasks)) [
    | inl n ↦ rw (n, set_state) refl
    | inr (d, n) ↦
        rw (n, set_state)
          (ground (arith, lookup-insert i id (record d { state = s }) p.tasks, =?-iff i id))
  ]

  pub set_value-lookup :
      (i v : ℤ) (p : Player) → i ≢ id → lookup id (set_value i v p).tasks ≡ lookup id p.tasks
  unfolding set_value
  set_value-lookup i v p h = elim (Option-cases (lookup i p.tasks)) [
    | inl n ↦ rw (n, set_value) refl
    | inr (d, n) ↦
        rw (n, set_value)
          (ground (arith, lookup-insert i id (record d { value = v }) p.tasks, =?-iff i id))
  ]

  pub fill_task-lookup :
      (ty : ℤ) (t : TaskItem) (p : Player)
      → t.task_id ≢ id
      → lookup id (fill_task e ty t p).0.tasks ≡ lookup id p.tasks
  unfolding fill_task settle
  fill_task-lookup ty t p h =
      let q = add_task t.task_id (pos 0) p in
      ground (
        arith,
        add_task-lookup t.task_id (pos 0) p h,
        set_state-lookup t.task_id doing q h,
        set_value-lookup t.task_id t.complete_num q h,
      )

  fill_tasks-lookup :
      (ty : ℤ) (l : List TaskItem) (p : Player)
      → IsNotIn id l
      → lookup id (fill_tasks e ty l p).0.tasks ≡ lookup id p.tasks
  unfolding fill_tasks
  fill_tasks-lookup ty [] p h = refl
  fill_tasks-lookup ty (t ∷ ts) p (h, hs) = fill_tasks-lookup ty ts _ hs ∙ fill_task-lookup ty t p h

  pub chk-lookup :
      (p : Player)
      → IsNotIn id e.daily_tasks
      → lookup id (chk_player_daily_task e p).0.tasks ≡ lookup id p.tasks
  unfolding chk_player_daily_task reset_daily_task
  chk-lookup p h = ground (arith, reset_tasks-lookup e.daily_tasks p.tasks h)

  pub daily-lookup :
      (p : Player)
      → IsNotIn id e.daily_tasks
      → lookup id (check_and_send_daily_task e p).tasks ≡ lookup id p.tasks
  unfolding check_and_send_daily_task send_task send_daily fill_task_msg send
  daily-lookup p h =
      let q = (chk_player_daily_task e p).0 in
      let r = (chk_player_daily_task e q).0 in
      ground (arith, chk-lookup p h, chk-lookup q h, fill_tasks-lookup daily e.daily_tasks r h)
