-- ===== src/Tests/Daily.antt =====
-- Signs, tasks, the gold hand and the seven days at concrete inputs.
use ih_server.Base.{
  ◌+◌, ℤ, pos, quot, ◌+ℤ◌, ◌-ℤ◌, ◌+₃₂◌, ◌-₃₂◌, wrap32, +ℤ_parts, false, ◌≤ℤ◌, List, [], ◌∷◌, Option,
  some, lookup, length, replicate, ◌≡◌, ◌≢◌, ◌⊎◌, inl, inr, refl, arith,
}
use ih_server.Player.State.{Player, Ret, success, seven_days_awarded}
use ih_server.Player.Resource.ById.{get_resource}
use ih_server.Player.Resource.Reward.{sum_of}
use ih_server.Player.Sign.{check_signed, sign_at, unchanged, sign_award}
use ih_server.Player.Sign.Taken.{Given, Payable, Refused}
use ih_server.Player.Sign.Sequence.{
  InSequence, awards, sign_award-Given, SignCall, look, award, sign_run, SignOk, sign_run-SignOk,
  sign_once_a_day,
}
use ih_server.Player.TaskReward.{task_get_reward}
use ih_server.Player.TaskReward.Kept.{Lasting}
use ih_server.Player.TaskReward.Once.{
  TaskCall, ask, progress, claim, look_for, task_run, task_rewarded_once,
}
use ih_server.Player.GoldHand.{touch_gold, touch}
use ih_server.Player.SevenDays.{seven_days_award, check_seven_days, start_secs, give_day, mark_day}
use ih_server.Player.SevenDays.Once.{seven_days_once}
use ih_server.Tests.World.{world, hero, climb_task, hand}

abbrev signed_hero : Player
signed_hero = (check_signed world hero).0

signed_small :
    (j : ℤ) → (pos 0 ≤ℤ get_resource signed_hero j) × (get_resource signed_hero j ≤ℤ pos 100)
unfolding check_signed sign_at get_resource lookup
signed_small j = (ground arith, ground arith)

award_small : (j : ℤ) → sum_of j ((pos 1, pos 15) ∷ []) ≤ℤ pos 15
unfolding ◌+ℤ◌
award_small j = ground arith

award-Payable : Payable world (pos 1) signed_hero
award-Payable l row =
    let same : some (pos 1 ∷ pos 15 ∷ []) ≡ l = ground (arith, row) in
    rw (← same) (
      (inl refl, omega arith, tt),
      λ j s. (
        (signed_small j).0,
        omega (
          arith,
          (signed_small j).1,
          award_small j,
          +ℤ_parts (get_resource signed_hero j) (sum_of j ((pos 1, pos 15) ∷ [])),
        ),
      ),
    )

sign_award-Given_example :
    let (q, r) = sign_award world (pos 1) signed_hero in
    ((r ≡ success) × Given world (pos 1) signed_hero q)
    ⊎ ((r ≢ success) × (q ≡ signed_hero) × Refused world (pos 1) signed_hero)
sign_award-Given_example = sign_award-Given world (pos 1) signed_hero award-Payable

hero-SignOk : SignOk 0 hero
hero-SignOk = record {
  nonneg = omega arith;
  behind = omega arith;
  bounded = omega arith;
  started = inr refl;
}

abbrev calls : List SignCall
calls = look world ∷ award world (pos 1) ∷ award world (pos 2) ∷ []

sign_run-SignOk_example :
    SignOk (0 + length calls) (sign_run calls hero)
    × InSequence (pos 0) (awards calls hero) (sign_run calls hero).sign.award_index
sign_run-SignOk_example =
    sign_run-SignOk 0 calls hero (omega arith) (omega arith, (tt, (tt, tt))) hero-SignOk

sign_once_a_day_example :
    check_signed world (check_signed world hero).0 ≡ ((check_signed world hero).0, unchanged)
unfolding check_signed sign_at
sign_once_a_day_example = sign_once_a_day world world hero (ground arith) (ground arith) refl

climb-Lasting : Lasting world (pos 7)
climb-Lasting = record { not_daily = (ground arith, tt); not_all = λ w h. ground (arith, h) }

abbrev later : List TaskCall
later =
    ask world (pos 0)
    ∷ progress world (pos 109) false (pos 0) (pos 1)
    ∷ look_for world (pos 2)
    ∷ claim world (pos 7)
    ∷ []

task_rewarded_once_example :
    let q = task_run later (task_get_reward world (pos 7) hero).0 in
    ((task_get_reward world (pos 7) q).1 ≢ success) × ((task_get_reward world (pos 7) q).0 ≡ q)
unfolding task_get_reward lookup
task_rewarded_once_example =
    task_rewarded_once world world (pos 7) climb_task later hero climb-Lasting refl
      ((
        climb-Lasting,
        refl,
        (climb-Lasting, refl, (climb-Lasting, refl, (climb-Lasting, refl, tt))),
      ))
      refl (omega arith) refl

abbrev touched : Option (Player × Ret)
touched = touch_gold world (pos 2) hero

abbrev after_touch : Player
after_touch = touch world hand (pos 2) (pos 20) (pos 5) 1 (pos 1) (pos 1 ∷ pos 1 ∷ pos 0 ∷ []) hero

abbrev first_day : Player
first_day = record hero { seven_days = record { awards = replicate 7 (pos 0); days = pos 1 } }

abbrev after_award : Player
after_award =
    (give_day world (pos 1) (world.seven_days_table (pos 1)) (mark_day (pos 1) first_day)).0

award_given : seven_days_award world hero ≡ some (after_award, success)
unfolding seven_days_award check_seven_days start_secs give_day quot ◌+₃₂◌ ◌-₃₂◌ ◌+ℤ◌ ◌-ℤ◌ wrap32
award_given = refl

seven_days_once_example :
    (d : ℤ) × (seven_days_award world after_award
      ≡ some (
        record after_award { seven_days = record (after_award.seven_days) { days = d } },
        seven_days_awarded,
      ))
seven_days_once_example = seven_days_once world hero after_award success award_given (inl refl)
