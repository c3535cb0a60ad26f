-- ===== src/Player/TaskReward/Once.antt =====
-- src/hall_server/player_task.go: the reward of an achievement is paid once.
use ih_server.Base.{
  ℤ, pos, ◌<ℤ◌, ◌=?◌, =?-iff, =?-refl, List, [], ◌∷◌, some, Bool-cases, Bool, inl, inr, ◌≡◌, ◌≢◌,
  arith,
}
use ih_server.Player.Env.{Env, TaskItem}
use ih_server.Player.State.{Player, success}
use ih_server.Player.Task.{send_task}
use ih_server.Player.Task.Update.{task_update}
use ih_server.Player.TaskReward.{task_get_reward, task_has_reward}
use ih_server.Player.TaskReward.Kept.{IsClaimed, Lasting, send_task-Kept}
use ih_server.Player.TaskReward.Progress.{task_update-Kept}
use ih_server.Player.TaskReward.Claimed.{
  other-Kept, rewarded-IsClaimed, look-IsClaimed, refused_again,
}

-- A request or an event of a task, under the clock and the tables of its time.
pub data TaskCall : Type 0 where
  ask : Env → ℤ → TaskCall
  progress : Env → ℤ → Bool → ℤ → ℤ → TaskCall
  claim : Env → ℤ → TaskCall
  look_for : Env → ℤ → TaskCall

unfoldable pub task_call : TaskCall → Player → Player
task_call (ask e ty) p = send_task e ty p
task_call (progress e ty b param v) p = task_update e ty b param v p
task_call (claim e i) p = (task_get_reward e i p).0
task_call (look_for e ty) p = (task_has_reward e ty p).0

unfoldable pub task_run : List TaskCall → Player → Player
task_run [] p = p
task_run (c ∷ cs) p = task_run cs (task_call c p)

abbrev tables : TaskCall → Env
tables (ask e ty) = e
tables (progress e ty b param v) = e
tables (claim e i) = e
tables (look_for e ty) = e

-- The tables of every call have this row of the task, and no daily task of its id.
abbrev pub AllLasting : ℤ → TaskItem → List TaskCall → Type 0
AllLasting id t [] = Unit {0}
AllLasting id t (c ∷ cs) =
    Lasting (tables c) id × ((tables c).task_map id ≡ some t) × AllLasting id t cs

claim-IsClaimed :
    (e : Env) (id : ℤ) (t : TaskItem) (i : ℤ) (p : Player)
    → pos 0 <ℤ t.complete_num
    → Lasting e id
    → e.task_map id ≡ some t
    → IsClaimed id p
    → IsClaimed id (task_get_reward e i p).0
claim-IsClaimed e id t i p goal l at h = elim (Bool-cases (i =? id)) [
  | inr other ↦
      let neq : i ≢ id = λ same. absurd (ground (arith, other, same, =?-refl id)) in
      (other-Kept e id l i p neq).claimed h
  | inl same ↦
      let stays = (refused_again e id t p at goal h).1 in rw ((=?-iff i id).0 same) (rw stays h)
]

run-IsClaimed :
    (id : ℤ) (t : TaskItem) (cs : List TaskCall) (p : Player)
    → pos 0 <ℤ t.complete_num
    → AllLasting id t cs
    → IsClaimed id p
    → IsClaimed id (task_run cs p)
unfolding task_run task_call
run-IsClaimed id t [] p goal ok h = h
run-IsClaimed id t (ask e ty ∷ cs) p goal (l, at, ok) h =
    run-IsClaimed id t cs _ goal ok ((send_task-Kept e id l ty p).claimed h)
run-IsClaimed id t (progress e ty b param v ∷ cs) p goal (l, at, ok) h =
    run-IsClaimed id t cs _ goal ok ((task_update-Kept e id l ty b param v p).claimed h)
run-IsClaimed id t (claim e i ∷ cs) p goal (l, at, ok) h =
    run-IsClaimed id t cs _ goal ok (claim-IsClaimed e id t i p goal l at h)
run-IsClaimed id t (look_for e ty ∷ cs) p goal (l, at, ok) h =
    run-IsClaimed id t cs _ goal ok (look-IsClaimed e id ty p h)

-- The reward of a task is given once: after a request that succeeds and any sequence of requests for
-- the task list and for rewards, of looks for rewards and of progress, each under a clock and tables of its own, a
-- further request for it is refused and changes nothing. The tables all have the same row of the task,
-- with a positive goal, and name it neither as a daily task nor as the one of all daily tasks.
pub task_rewarded_once :
    (e f : Env) (id : ℤ) (t : TaskItem) (cs : List TaskCall) (p : Player)
    → Lasting e id
    → e.task_map id ≡ some t
    → AllLasting id t cs
    → f.task_map id ≡ some t
    → pos 0 <ℤ t.complete_num
    → (task_get_reward e id p).1 ≡ success
    → let q = task_run cs (task_get_reward e id p).0 in
      ((task_get_reward f id q).1 ≢ success) × ((task_get_reward f id q).0 ≡ q)
task_rewarded_once e f id t cs p l row ok at goal h =
    refused_again f id t _ at goal
      (run-IsClaimed id t cs _ goal ok (rewarded-IsClaimed e id l t p row goal h))
