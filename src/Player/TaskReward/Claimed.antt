-- ===== src/Player/TaskReward/Claimed.antt =====
-- src/hall_server/player_task.go: task_get_reward and has_reward take no reward back.
use ih_server.Base.{
  ℤ, pos, ◌<ℤ◌, ◌<?◌, ◌=?◌, =?-iff, =?-refl, [], ◌∷◌, none, some, Option-cases, Bool-cases, true,
  inl, inr, if◌then◌else◌, lookup, insert, delete, has_index, lookup-insert, lookup-delete, ◌≡◌,
  ◌≢◌, refl, Dict, arith, ◌&&◌,
}
use ih_server.Player.Env.{Env, TaskItem}
use ih_server.Player.State.{Player, TaskData, success, task_reward, send}
use ih_server.Player.Task.{reward, achive, get_value, get_state, set_state}
use ih_server.Player.Task.Update.{notify_task_value}
use ih_server.Player.Resource.ById.{add_resources}
use ih_server.Player.TaskReward.{
  check_notify_next_task, finish, task_get_reward, has_reward_in, task_has_reward,
}
use ih_server.Player.TaskReward.Others.{set_state-lookup}
use ih_server.Player.TaskReward.Kept.{
  IsClaimed, Kept, Lasting, Kept-refl, Kept-trans, same-Kept, send-Kept, notify-Kept,
  check_and_send-Kept,
}
use ih_server.Player.TaskReward.Progress.{add_resources-Kept}

set_state-IsClaimed :
    (id : ℤ) (p : Player) → has_index id p.tasks ≡ true → IsClaimed id (set_state id reward p)
unfolding set_state
set_state-IsClaimed id p there = elim (Option-cases (lookup id p.tasks)) [
  | inl n ↦ absurd (ground (arith, there, n))
  | inr (d, n) ↦
      rw (n, set_state)
        (inl
          (ground (arith, lookup-insert id id (record d { state = reward }) p.tasks, =?-refl id)))
]

set_state-finished : (i s : ℤ) (p : Player) → (set_state i s p).finished_tasks ≡ p.finished_tasks
unfolding set_state
set_state-finished i s p = elim (Option-cases (lookup i p.tasks)) [
  | inl n ↦ rw (n, set_state) refl
  | inr (d, n) ↦ rw (n, set_state) refl
]

next-same :
    (e : Env) (t : TaskItem) (p : Player)
    → ((check_notify_next_task e t p).tasks ≡ p.tasks)
      × ((check_notify_next_task e t p).finished_tasks ≡ p.finished_tasks)
unfolding check_notify_next_task notify_task_value send
next-same e t p = elim (Option-cases (e.task_map t.next)) [
  | inl n ↦ (ground arith, ground arith)
  | inr (x, n) ↦ (ground arith, ground arith)
]

-- The player with the task among the finished ones.
abbrev moved_on : ℤ → Player → Player
moved_on id p = record p {
  tasks = delete id p.tasks;
  finished_tasks =
      if has_index id p.finished_tasks then p.finished_tasks else insert id tt p.finished_tasks;
}

moved_on-IsClaimed : (id : ℤ) (p : Player) → IsClaimed id (moved_on id p)
moved_on-IsClaimed id p = inr (
  ground (arith, lookup-delete id id p.tasks, =?-refl id),
  ground (arith, lookup-insert id id tt p.finished_tasks, =?-refl id),
)

finish-IsClaimed :
    (e : Env) (t : TaskItem) (id : ℤ) (p : Player) → IsClaimed id p → IsClaimed id (finish e t id p)
unfolding finish
finish-IsClaimed e t id p h =
    let (tasks, finished) = next-same e t (moved_on id p) in
    let moved : IsClaimed id (check_notify_next_task e t (moved_on id p)) =
      elim (moved_on-IsClaimed id p) [
        | inl taken ↦ inl (rw tasks taken)
        | inr (gone, done) ↦ inr (rw tasks gone, rw finished done)
      ] in
    elim (Bool-cases (t.task_type =? achive && pos 0 <? t.next)) [
      | inl ends ↦ rw (ends, finish) moved
      | inr stays ↦ rw (stays, finish) h
    ]

-- Another task that is finished leaves this one.
finish-Kept : (e : Env) (t : TaskItem) (i id : ℤ) (p : Player) → i ≢ id → Kept id p (finish e t i p)
unfolding finish
finish-Kept e t i id p other =
    let (tasks, finished) = next-same e t (moved_on i p) in
    let same : lookup id (moved_on i p).tasks ≡ lookup id p.tasks =
      ground (arith, lookup-delete i id p.tasks, other, =?-iff i id) in
    let more : has_index id (moved_on i p).finished_tasks ≡ has_index id p.finished_tasks =
      ground (arith, lookup-insert i id tt p.finished_tasks, other, =?-iff i id) in
    let moved : Kept id p (check_notify_next_task e t (moved_on i p)) = record {
      present = λ h. rw tasks (rw same h);
      claimed = λ h. elim h [
        | inl taken ↦ inl (rw tasks (rw same taken))
        | inr (gone, done) ↦ inr (rw tasks (rw same gone), rw finished (rw more done))
      ];
    } in
    elim (Bool-cases (t.task_type =? achive && pos 0 <? t.next)) [
      | inl ends ↦ rw (ends, finish) moved
      | inr stays ↦ rw (stays, finish) (Kept-refl id p)
    ]

module _ (e : Env) (id : ℤ) (steady : Lasting e id) where
  pub other-Kept : (i : ℤ) (p : Player) → i ≢ id → Kept id p (task_get_reward e i p).0
  unfolding task_get_reward
  other-Kept i p other = elim (Option-cases (e.task_map i)) [
    | inl n ↦
        let stays : (task_get_reward e i p).0 ≡ p = ground (arith, n) in rw stays (Kept-refl id p)
    | inr (t, n) ↦
        let paid = add_resources e t.rewards p in
        let q = set_state i reward paid in
        let r = send (task_reward i) (notify_task_value i (get_value p i) reward q) in
        let one = Kept-trans id (add_resources-Kept e id steady t.rewards p) (
          same-Kept id paid q (set_state-lookup e id i reward paid other)
            (set_state-finished i reward paid)) in
        let two =
          Kept-trans id (notify-Kept e id i (get_value p i) reward p q one)
            (Kept-trans id (send-Kept e id (task_reward i) _) (finish-Kept e t i id r other)) in
        let all = Kept-trans id two (check_and_send-Kept e id steady (finish e t i r)) in
        ground (arith, n, all, Kept-refl id p)
  ]

  pub rewarded-IsClaimed :
      (t : TaskItem) (p : Player)
      → e.task_map id ≡ some t
      → pos 0 <ℤ t.complete_num
      → (task_get_reward e id p).1 ≡ success
      → IsClaimed id (task_get_reward e id p).0
  unfolding task_get_reward
  rewarded-IsClaimed t p n goal h =
      let paid = add_resources e t.rewards p in
      let q = set_state id reward paid in
      let m = notify_task_value id (get_value p id) reward q in
      let r = send (task_reward id) m in
      elim (Bool-cases (get_state p id =? reward)) [
        | inl taken ↦ absurd (ground arith)
        | inr fresh ↦ elim (Bool-cases (get_value p id <? t.complete_num)) [
          | inl short ↦ absurd (ground arith)
          | inr full ↦
              let there : has_index id p.tasks ≡ true = ground (arith, full, goal) in
              let told =
                Kept-trans id (notify-Kept e id id (get_value p id) reward q q (Kept-refl id q))
                  (send-Kept e id (task_reward id) m) in
              let set =
                set_state-IsClaimed id paid
                  ((add_resources-Kept e id steady t.rewards p).present there) in
              let done = finish-IsClaimed e t id r (told.claimed set) in
              rw (n, task_get_reward, fresh, full)
                ((check_and_send-Kept e id steady (finish e t id r)).claimed done)
        ]
      ]

-- has_reward leaves a rewarded task alone, and adds none.
mended-lookup :
    (e : Env) (all : Dict TaskData) (ty id : ℤ) (m : Dict TaskData)
    → (lookup id m ≡ none → lookup id (has_reward_in e all ty m).0 ≡ none)
      × ((d : TaskData)
          → lookup id m ≡ some d
          → d.state ≡ reward
          → lookup id (has_reward_in e all ty m).0 ≡ some d)
unfolding has_reward_in lookup
mended-lookup e all ty id [] = (λ h. refl, λ d h. absurd (ground (arith, h)))
mended-lookup e all ty id ((i, x) ∷ m) =
    let (gone, kept) = mended-lookup e all ty id m in
    (λ h. ground (arith, h, gone), λ d h is_reward. ground (arith, h, kept d, is_reward))

pub look-IsClaimed :
    (e : Env) (id ty : ℤ) (p : Player) → IsClaimed id p → IsClaimed id (task_has_reward e ty p).0
unfolding task_has_reward
look-IsClaimed e id ty p h =
    let (gone, kept) = mended-lookup e p.tasks ty id p.tasks in
    elim h [
      | inr (no_task, done) ↦ inr (gone no_task, done)
      | inl taken ↦ elim (Option-cases (lookup id p.tasks)) [
        | inl no_task ↦ absurd (ground (arith, taken, no_task))
        | inr (d, there) ↦
            let is_reward : d.state ≡ reward = ground (arith, taken, there) in
            inl (rw (kept d there is_reward) is_reward)
      ]
    ]

pub refused_again :
    (f : Env) (id : ℤ) (t : TaskItem) (q : Player)
    → f.task_map id ≡ some t
    → pos 0 <ℤ t.complete_num
    → IsClaimed id q
    → (task_get_reward f id q).1 ≢ success × ((task_get_reward f id q).0 ≡ q)
unfolding task_get_reward
refused_again f id t q at n (inl s) = ground (arith, =?-iff (get_state q id) reward)
refused_again f id t q at n (inr (s, d)) = rw (s, task_get_reward) (ground (arith, at))
