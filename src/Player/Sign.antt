-- ===== src/Player/Sign.antt =====
-- src/hall_server/player_sign.go: the daily sign and its awards.
pub mod Taken
pub mod Sequence
use ih_server.Base.{
  ℤ, pos, ◌+₃₂◌, ◌<?◌, ◌≤?◌, ◌=?◌, List, [], none, some, Bool, true, false, not, if◌then◌else◌,
}
use ih_server.Player.Env.{Env, Slice}
use ih_server.Player.State.{
  Player, Sign, Ret, success, failure, sign_already_award, sign_must_award_in_sequence,
  sign_all_awarded, sign_table_data_not_found, sign_data, sign_award as sign_award_response, send,
  pairs, sum_rewards,
}
use ih_server.Player.Task.{remain_seconds_to_next_day_time}
use ih_server.Player.Resource.ById.{add_resources}

-- dbPlayerSignColumn.has_reward
unfoldable pub has_reward : Player → Bool
has_reward p = p.sign.award_index <? p.sign.signed_index

unfoldable pub sign_at : Env → ℤ → Player → Player
sign_at e index p = record p {
  sign = record (p.sign) { signed_index = index; last_signed_time = e.now };
}

-- What check_signed returns: 0, 1 or an error.
pub data Signed : Type 0 where
  unchanged signed : Signed
  error : Ret → Signed

-- check_signed. An error code is negative, so that it stores no time.
unfoldable pub check_signed : Env → Player → Player × Signed
unfolding sign_at
check_signed e p =
    if p.sign.last_signed_time =? pos 0
    then (if e.sign_array_0
        then (sign_at e (pos 1) p, signed)
        else (p, error sign_table_data_not_found))
    else if not (e.date e.now =? e.date p.sign.last_signed_time)
    then (sign_at e (p.sign.signed_index +₃₂ pos 1) p, signed)
    else (p, unchanged)

-- get_sign_data
pub get_sign_data : Env → Player → Player × Ret
get_sign_data e p =
    let q = (check_signed e p).0 in
    let s = q.sign in
    (
      send
          (sign_data s.curr_group s.award_index s.signed_index
            (remain_seconds_to_next_day_time e.now e.sign_reset_today s.last_signed_time))
          q,
      success,
    )

abbrev pub reward_pairs : Slice → List (ℤ × ℤ)
reward_pairs none = []
reward_pairs (some l) = pairs l

-- sign_award
pub sign_award : Env → ℤ → Player → Player × Ret
sign_award e id p =
    let award = p.sign.award_index in
    if id ≤? award
    then (p, sign_already_award)
    else if not (award +₃₂ pos 1 =? id)
    then (p, sign_must_award_in_sequence)
    else if p.sign.signed_index ≤? award
    then (p, sign_all_awarded)
    else elim (e.sign_table id) [
      | none ↦ (p, failure)
      | some reward ↦
          let q = add_resources e reward p in
          (
            send (sign_award_response id (sum_rewards (reward_pairs reward) []))
                (record q { sign = record (q.sign) { award_index = id } }),
            success,
          )
    ]
