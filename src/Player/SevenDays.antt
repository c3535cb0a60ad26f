-- ===== src/Player/SevenDays.antt =====
-- src/hall_server/player_seven_days.go: an award on each of a player's first seven days.
pub mod Once
use ih_server.Base.{
  ℕ, ℤ, pos, negsuc, ◌+₃₂◌, ◌-₃₂◌, quot, ◌<?◌, ◌≤?◌, ◌=?◌, List, [], ◌∷◌, Option, none, some, Bool,
  true, false, if◌then◌else◌, get_elem?, set, take, replicate, length,
}
use ih_server.Player.Env.{Env, Slice}
use ih_server.Player.State.{
  Player, SevenDays, Ret, success, failure, seven_days_finished, seven_days_awarded,
  seven_days_data as seven_days_response, seven_days_award as seven_days_award_response, send,
  pairs, sum_rewards,
}
use ih_server.Player.Resource.ById.{add_resources}
use ih_server.Player.Sign.{reward_pairs}

-- SEVEN_DAYS * 24 * 3600
abbrev pub seven_days_secs : ℤ
seven_days_secs = pos 604800

-- _get_start_secs_for_seven_days
unfoldable pub start_secs : Env → ℤ → ℤ
start_secs e create = create -₃₂ e.clock_seconds create

-- An element of a slice at an int32 index; `none` is a panic.
abbrev pub index : List ℤ → ℤ → Option ℤ
index l (pos i) = get_elem? l i
index l (negsuc i) = none

abbrev set_index : List ℤ → ℤ → ℤ → List ℤ
set_index l (pos i) v = set l i v
set_index l (negsuc i) v = l

abbrev pub diff_secs : Env → Player → ℤ
diff_secs e p = e.now -₃₂ start_secs e p.create_unix

abbrev is_open : Option ℤ → Option Bool
is_open none = none
is_open (some state) = some (state ≤? pos 0)

-- dbPlayerSevenDaysColumn.has_reward; `none` is a panic
unfoldable pub has_reward : Env → Player → Option Bool
has_reward e p = if seven_days_secs ≤? diff_secs e p then some false else elim p.seven_days.awards [
  | [] ↦ some true
  | s ∷ ss ↦ is_open (index (s ∷ ss) (quot (diff_secs e p) 86400))
]

-- The states of the awards, seven zeros at first.
abbrev pub award_states : List ℤ → List ℤ
award_states [] = replicate 7 (pos 0)
award_states (s ∷ ss) = s ∷ ss

-- What check_seven_days finds: the seven days are over, or the day, its state and the seconds left.
pub data Day : Type 0 where
  over : Day
  day : ℤ → ℤ → ℤ → Day

abbrev with_state : Player → ℤ → ℤ → Option ℤ → Option (Player × Day)
with_state p d r none = none
with_state p d r (some state) = some (p, day d state r)

-- check_seven_days; `none` is a panic
unfoldable pub check_seven_days : Env → Bool → Player → Option (Player × Day)
check_seven_days e get_remain p =
    let diff = diff_secs e p in
    let states = award_states p.seven_days.awards in
    let days = quot diff 86400 +₃₂ pos 1 in
    let remain = start_secs e p.create_unix +₃₂ seven_days_secs -₃₂ e.now in
    if seven_days_secs ≤? diff
    then some (p, over)
    else with_state (record p { seven_days = record { awards = states; days = days } }) days
        (if get_remain then (if remain <? pos 0 then pos 0 else remain) else pos 0)
        (index states (quot diff 86400))

-- award_states[:days]; a bound past the slice panics
abbrev first : List ℤ → ℤ → Option (List ℤ)
first l (pos n) = if pos (length l) <? pos n then none else some (take n l)
first l (negsuc n) = none

-- seven_days_data
unfoldable pub seven_days_data : Env → Player → Option (Player × Ret)
seven_days_data e p = elim (check_seven_days e true p) [
  | none ↦ none
  | some (q, over) ↦ some (send (seven_days_response [] q.create_unix (pos 0)) q, success)
  | some (q, day d s r) ↦ elim (first q.seven_days.awards d) [
    | none ↦ none
    | some l ↦ some (send (seven_days_response l q.create_unix r) q, success)
  ]
]

-- The last part of seven_days_award, from the row of the day.
unfoldable pub give_day : Env → ℤ → Option Slice → Player → Player × Ret
give_day e d none p = (p, failure)
give_day e d (some reward) p = (
  send (seven_days_award_response d (sum_rewards (reward_pairs reward) []))
      (add_resources e reward p),
  success,
)

-- seven_days_award marks the day before it looks for the row.
pub mark_day : ℤ → Player → Player
mark_day d p = record p {
  seven_days = record {
    awards = set_index p.seven_days.awards (d -₃₂ pos 1) (pos 1);
    days = d -₃₂ pos 1;
  };
}

unfoldable pub seven_days_award : Env → Player → Option (Player × Ret)
seven_days_award e p = elim (check_seven_days e false p) [
  | none ↦ none
  | some (q, over) ↦ some (q, seven_days_finished)
  | some (q, day d state r) ↦
      if pos 0 <? state
      then some (q, seven_days_awarded)
      else some (give_day e d (e.seven_days_table d) (mark_day d q))
]
