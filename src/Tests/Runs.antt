-- ===== src/Tests/Runs.antt =====
-- Runs of the handlers that no theorem is about yet.
use ih_server.Base.{
  pos, [], ◌∷◌, ◌+₃₂◌, ◌-₃₂◌, ◌*₃₂◌, ◌+ℤ◌, ◌-ℤ◌, ◌*ℤ◌, wrap32, neg32, quot, none, some, true, false,
  lookup, insert, ◌≡◌, refl,
}
use ih_server.Player.State.{
  success, item_num_not_enough, seven_days_data as seven_days_response, artifact_list, send,
  sum_rewards,
}
use ih_server.Player.Task.{doing, complete, achive, add_task, remain_seconds_to_next_day_time}
use ih_server.Player.Task.Update.{is_task_complete, event_matches}
use ih_server.Player.TaskReward.{
  add_tasks, first_gen_achieve_tasks, is_due, has_reward_in, task_has_reward,
}
use ih_server.Player.Resource.{del_item, note_change, vip_level_up}
use ih_server.Player.Resource.ById.{get_resource, add_reward, sell_item}
use ih_server.Player.Sign.{has_reward as sign_has_reward}
use ih_server.Player.GoldHand.{numbered, check_reset, get_left_nums, has_free_gold_hand}
use ih_server.Player.SevenDays.{has_reward, start_secs, check_seven_days, seven_days_data}
use ih_server.Player.Talent.{has_prev}
use ih_server.Player.Tower.{get_tower_fight_id, save_fight}
use ih_server.Player.Artifact.{known_artifacts, artifact_data}
use ih_server.Tests.World.{world, hero, climb_task, talent}

sold :
    (sell_item world (pos 100) (pos 2) false hero).0.items ≡ (pos 100, pos 1) ∷ (pos 50, pos 2) ∷ []
unfolding sell_item add_reward del_item get_resource lookup insert note_change ◌+₃₂◌ ◌-₃₂◌ ◌+ℤ◌ ◌-ℤ◌
    wrap32 neg32
sold = refl

not_sold : sell_item world (pos 100) (pos 4) false hero ≡ (hero, item_num_not_enough)
unfolding sell_item lookup
not_sold = refl

vip_levels : vip_level_up 3 (λ l. none) (pos 10) (pos 2) ≡ pos 2
unfolding vip_level_up
vip_levels = refl

sums : sum_rewards ((pos 1, pos 2) ∷ (pos 1, pos 3) ∷ []) [] ≡ (pos 1, pos 5) ∷ []
unfolding sum_rewards lookup insert ◌+₃₂◌ ◌+ℤ◌ wrap32
sums = refl

next_refresh : remain_seconds_to_next_day_time (pos 50) (some (pos 60)) (pos 40) ≡ pos 10
unfolding remain_seconds_to_next_day_time ◌-ℤ◌ wrap32
next_refresh = refl

complete_task :
    (is_task_complete hero climb_task ≡ true) × (event_matches true (pos 0) climb_task ≡ true)
unfolding is_task_complete event_matches lookup
complete_task = (refl, refl)

achieves :
    (first_gen_achieve_tasks world hero).tasks
    ≡ (pos 7, record { value = pos 0; state = doing }) ∷ []
unfolding first_gen_achieve_tasks add_tasks add_task lookup insert
achieves = refl

reward_due :
    task_has_reward world achive hero
    ≡ (record hero { tasks = (pos 7, record { value = pos 2; state = complete }) ∷ [] }, true)
unfolding task_has_reward has_reward_in is_due lookup
reward_due = refl

no_sign_due : sign_has_reward hero ≡ false
unfolding sign_has_reward
no_sign_due = refl

no_free_touch : (has_free_gold_hand world hero).1 ≡ some false
unfolding has_free_gold_hand check_reset get_left_nums ◌-₃₂◌ ◌-ℤ◌ wrap32
no_free_touch = refl

numbers : numbered (pos 1) (pos 4 ∷ pos 5 ∷ []) ≡ (pos 1, pos 4) ∷ (pos 2, pos 5) ∷ []
unfolding numbered ◌+₃₂◌ ◌+ℤ◌ wrap32
numbers = refl

day_open : has_reward world hero ≡ some true
unfolding has_reward start_secs ◌-₃₂◌ ◌-ℤ◌ wrap32
day_open = refl

learnable : has_prev talent hero ≡ true
unfolding has_prev
learnable = refl

saves : save_fight (pos 2) (pos 9) ((pos 21, pos 8) ∷ []) ≡ (pos 21, pos 8) ∷ (pos 22, pos 9) ∷ []
unfolding save_fight get_tower_fight_id lookup insert ◌+₃₂◌ ◌+ℤ◌ ◌*₃₂◌ ◌*ℤ◌ wrap32
saves = refl

kept_artifacts : artifact_data world hero ≡ (send (artifact_list hero.artifacts) hero, success)
unfolding artifact_data known_artifacts
kept_artifacts = refl

days_shown :
    seven_days_data world hero
    ≡ some (
      send (seven_days_response (pos 0 ∷ []) (pos 99000) (pos 603800)) (record hero {
        seven_days = record {
          awards = pos 0 ∷ pos 0 ∷ pos 0 ∷ pos 0 ∷ pos 0 ∷ pos 0 ∷ pos 0 ∷ [];
          days = pos 1;
        };
      }),
      success,
    )
unfolding seven_days_data check_seven_days start_secs quot ◌+₃₂◌ ◌-₃₂◌ ◌+ℤ◌ ◌-ℤ◌ wrap32
days_shown = refl
