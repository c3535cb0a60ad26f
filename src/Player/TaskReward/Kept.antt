-- ===== src/Player/TaskReward/Kept.antt =====
-- src/hall_server/player_task.go: a task whose reward is taken stays so, whatever progress tasks make.
use ih_server.Base.{
  ℤ, pos, ◌=?◌, ◌+₃₂◌, =?-iff, =?-refl, List, [], ◌∷◌, none, some, Option-cases, Bool-cases, true,
  false, inl, inr, lookup, has_index, lookup-insert, ◌≡◌, ◌≢◌, ◌⊎◌, refl, ap, ◌∙◌, arith,
}
use ih_server.Player.Env.{Env, TaskItem}
use ih_server.Player.State.{Player, TaskData, Effect, send}
use ih_server.Player.Task.{
  doing, reward, daily, achive, get_value, get_state, add_task, set_state, set_value, incby_value,
  send_daily, send_achive, send_task, check_and_send_daily_task, chk_player_daily_task, settle,
  fill_task, fill_tasks, fill_task_msg,
}
use ih_server.Player.Task.Update.{notify_task_value, single_task_update, whole_daily_task_update}
use ih_server.Player.Task.Frame.{fill_task-OnlyTasks, chk-OnlyTasks, single-OnlyTasks}
use ih_server.Player.TaskReward.Others.{IsNotIn, add_task-lookup, fill_task-lookup, chk-lookup}

-- A task whose reward is taken: in that state, or moved to the finished tasks.
abbrev pub IsClaimed : ℤ → Player → Type 0
IsClaimed id p =
    (get_state p id ≡ reward)
    ⊎ ((lookup id p.tasks ≡ none) × (has_index id p.finished_tasks ≡ true))

-- A task that is there stays, and one whose reward is taken stays so.
pub record Kept (id : ℤ) (p q : Player) : Type 0 where
  pub present : has_index id p.tasks ≡ true → has_index id q.tasks ≡ true
  pub claimed : IsClaimed id p → IsClaimed id q

-- The tables name a task neither as a daily one nor as the one of all daily ones.
pub record Lasting (e : Env) (id : ℤ) : Type 0 where
  pub not_daily : IsNotIn id e.daily_tasks
  pub not_all : (w : TaskItem) → e.all_daily_task ≡ some w → w.task_id ≢ id

module _ (id : ℤ) where
  pub Kept-refl : (p : Player) → Kept id p p
  Kept-refl p = record { present = λ h. h; claimed = λ h. h }

  pub Kept-trans : {p q r : Player} → Kept id p q → Kept id q r → Kept id p r
  Kept-trans a b = record {
    present = λ h. b.present (a.present h);
    claimed = λ h. b.claimed (a.claimed h);
  }

  claimed-same :
      (p q : Player)
      → lookup id q.tasks ≡ lookup id p.tasks
      → q.finished_tasks ≡ p.finished_tasks
      → IsClaimed id p
      → IsClaimed id q
  claimed-same p q same finished (inl taken) = inl (rw same taken)
  claimed-same p q same finished (inr (gone, done)) = inr (rw same gone, rw finished done)

  pub same-Kept :
      (p q : Player)
      → lookup id q.tasks ≡ lookup id p.tasks
      → q.finished_tasks ≡ p.finished_tasks
      → Kept id p q
  same-Kept p q same finished = record {
    present = λ h. rw same h;
    claimed = claimed-same p q same finished;
  }

  -- Of a task that is there and not rewarded, it matters only that it stays.
  pub open-Kept :
      (p q : Player) (d : TaskData)
      → lookup id p.tasks ≡ some d
      → d.state ≢ reward
      → has_index id q.tasks ≡ true
      → Kept id p q
  open-Kept p q d there fresh stays = record {
    present = λ h. stays;
    claimed = λ h. elim h [
      | inl taken ↦ absurd (ground (arith, taken, there, fresh))
      | inr (gone, done) ↦ absurd (ground (arith, gone, there))
    ];
  }

  -- Of a task that is neither there nor finished, nothing matters.
  pub missing-Kept :
      (p q : Player)
      → lookup id p.tasks ≡ none
      → has_index id p.finished_tasks ≡ false
      → Kept id p q
  missing-Kept p q gone fresh = record {
    present = λ h. absurd (ground (arith, h, gone));
    claimed = λ h. elim h [
      | inl taken ↦ absurd (ground (arith, taken, gone))
      | inr (no_task, done) ↦ absurd (ground (arith, done, fresh))
    ];
  }

  settle-there :
      (e : Env) (t : TaskItem) (p : Player) (d : TaskData)
      → lookup id p.tasks ≡ some d
      → t.task_id ≡ id
      → Kept id p (settle e t p).0
  unfolding settle set_state set_value
  settle-there e t p d there is_id = elim (Bool-cases (d.state =? reward)) [
    | inl taken ↦
        let is_reward : get_state p t.task_id ≡ reward =
          ground (arith, there, taken, =?-iff d.state reward, is_id) in
        let same : (settle e t p).0 ≡ p = ground (arith, is_reward) in rw same (Kept-refl p)
    | inr fresh ↦
        open-Kept p (settle e t p).0 d there (ground (arith, fresh, =?-iff d.state reward)) (
          rw is_id (
            ground (
              arith,
              there,
              lookup-insert id id (record d { state = doing }) p.tasks,
              lookup-insert id id (record d { value = t.complete_num }) p.tasks,
              =?-refl id,
            )))
  ]

module _ (e : Env) (id : ℤ) where
  fill_task-Kept : (ty : ℤ) (t : TaskItem) (p : Player) → Kept id p (fill_task e ty t p).0
  unfolding fill_task add_task
  fill_task-Kept ty t p = elim (Bool-cases (t.task_id =? id)) [
    | inr other ↦
        let neq : t.task_id ≢ id = λ same. absurd (ground (arith, other, same, =?-refl id)) in
        same-Kept id p (fill_task e ty t p).0 (fill_task-lookup e id ty t p neq)
          (ap (λ (x : Player). x.finished_tasks) (fill_task-OnlyTasks e ty t p).same)
    | inl same ↦
        let is_id = (=?-iff t.task_id id).0 same in
        elim (Option-cases (lookup id p.tasks)) [
          | inl gone ↦ elim (Bool-cases (has_index id p.finished_tasks)) [
            | inl done ↦
                let skipped : (fill_task e ty t p).0 ≡ p = rw is_id (ground (arith, gone, done)) in
                rw skipped (Kept-refl id p)
            | inr fresh ↦ missing-Kept id p (fill_task e ty t p).0 gone fresh
          ]
          | inr (d, there) ↦
              let there_t : lookup t.task_id p.tasks ≡ some d = rw is_id there in
              let settled : (fill_task e ty t p).0 ≡ (settle e t p).0 = ground (arith, there_t) in
              rw settled (settle-there id e t p d there is_id)
        ]
  ]

  fill_tasks-Kept : (ty : ℤ) (l : List TaskItem) (p : Player) → Kept id p (fill_tasks e ty l p).0
  unfolding fill_tasks
  fill_tasks-Kept ty [] p = Kept-refl id p
  fill_tasks-Kept ty (t ∷ ts) p =
      Kept-trans id (fill_task-Kept ty t p) (fill_tasks-Kept ty ts (fill_task e ty t p).0)

  fill_task_msg-Kept : (ty : ℤ) (p : Player) → Kept id p (fill_task_msg e ty p).0
  unfolding fill_task_msg
  fill_task_msg-Kept ty p = ground (
    arith,
    fill_tasks-Kept ty e.daily_tasks p,
    fill_tasks-Kept ty e.achieve_tasks p,
    Kept-refl id p,
  )

  pub send-Kept : (f : Effect) (p : Player) → Kept id p (send f p)
  unfolding send
  send-Kept f p = same-Kept id p (send f p) refl refl

  pub notify-Kept : (i v s : ℤ) (p q : Player) → Kept id p q → Kept id p (notify_task_value i v s q)
  unfolding notify_task_value
  notify-Kept i v s p q one = Kept-trans id one (send-Kept _ q)

  module _ (steady : Lasting e id) where
    chk-Kept : (p : Player) → Kept id p (chk_player_daily_task e p).0
    chk-Kept p =
        same-Kept id p (chk_player_daily_task e p).0 (chk-lookup e id p steady.not_daily)
          (ap (λ (x : Player). x.finished_tasks) (chk-OnlyTasks e p).same)

    send_daily-Kept : (p : Player) → Kept id p (send_daily e p).0
    unfolding send_daily
    send_daily-Kept p =
        Kept-trans id (chk-Kept p)
          (Kept-trans id (fill_task_msg-Kept daily (chk_player_daily_task e p).0) (send-Kept _ _))

    send_achive-Kept : (remain : ℤ) (p : Player) → Kept id p (send_achive e remain p)
    unfolding send_achive
    send_achive-Kept remain p = Kept-trans id (fill_task_msg-Kept achive p) (send-Kept _ _)

    pub send_task-Kept : (ty : ℤ) (p : Player) → Kept id p (send_task e ty p)
    unfolding send_task
    send_task-Kept ty p =
        let (q, remain) = send_daily e p in
        ground (
          arith,
          send_daily-Kept p,
          send_achive-Kept (pos 0) p,
          Kept-trans id (send_daily-Kept p) (send_achive-Kept remain q),
          Kept-refl id p,
        )

    pub check_and_send-Kept : (p : Player) → Kept id p (check_and_send_daily_task e p)
    unfolding check_and_send_daily_task
    check_and_send-Kept p =
        let (q, remain) = chk_player_daily_task e p in
        ground (arith, chk-Kept p, Kept-trans id (chk-Kept p) (send_task-Kept daily q))

    incby-lookup :
        (i v : ℤ) (p : Player) → i ≢ id → lookup id (incby_value i v p).tasks ≡ lookup id p.tasks
    unfolding incby_value
    incby-lookup i v p other =
        lookup-insert i id (record { value = get_value p i +₃₂ v; state = get_state p i }) p.tasks
        ∙ ground (arith, other, =?-iff i id)

    pub single-Kept :
        (t : TaskItem) (v : ℤ) (p : Player)
        → t.task_id ≢ id
        → Kept id p (single_task_update t v p).0
    unfolding single_task_update
    single-Kept t v p other =
        same-Kept id p (single_task_update t v p).0
          (ground
            (arith, incby-lookup t.task_id v p other, add_task-lookup e id t.task_id v p other))
          (ap (λ (x : Player). x.finished_tasks) (single-OnlyTasks t v p).same)

    pub whole-Kept : (t : TaskItem) (p : Player) → Kept id p (whole_daily_task_update e t p)
    unfolding whole_daily_task_update
    whole-Kept t p = elim (Option-cases e.all_daily_task) [
      | inl no_task ↦ rw (whole_daily_task_update, no_task) (Kept-refl id p)
      | inr (w, is_w) ↦
          let (q, r) = single_task_update w (pos 1) p in
          let one = single-Kept w (pos 1) p (steady.not_all w is_w) in
          rw (whole_daily_task_update, is_w)
            (ground
              (arith, one, Kept-refl id p, notify-Kept w.task_id r.cur_val r.cur_state p q one))
    ]
