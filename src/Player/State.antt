-- ===== src/Player/State.antt =====
-- The player's state, and the calls by which a handler reaches other parts of the server.
use ih_server.Base.{
  ℤ, pos, ◌+₃₂◌, lookup, insert, List, [], ◌∷◌, ◌++◌, Option, none, some, Bool, Dict,
}

-- What a handler returns: 1, -1, or an error code of the client's protocol.
pub data Ret : Type 0 where
  success failure : Ret
  item_table_id_not_found item_num_not_enough : Ret
  task_already_rewarded task_not_found task_not_complete : Ret
  goldhand_data_not_found goldhand_refresh_is_coolingdown diamond_not_enough : Ret
  talent_not_found talent_up_need_prev_talent talent_up_not_enough_resource : Ret
  sign_already_award sign_must_award_in_sequence sign_all_awarded sign_table_data_not_found : Ret
  seven_days_finished seven_days_awarded : Ret
  level_not_enough tower_already_fighted tower_not_found tower_already_highest : Ret
  tower_cant_fight tower_not_enough_stamina : Ret
  artifact_already_unlocked artifact_table_unlock_data_not_found : Ret
  artifact_cant_unlock_with_condition artifact_table_data_not_found : Ret
  artifact_has_not_unlock artifact_level_is_max artifact_must_rankup_to_levelup : Ret
  artifact_rank_is_max artifact_no_need_to_reset : Ret
  fight_error : ℤ → Ret

-- dbPlayerTaskData
pub record TaskData : Type 0 where
  pub value : ℤ
  pub state : ℤ

-- An entry of a task list that is sent.
pub record TaskInfo : Type 0 where
  pub id : ℤ
  pub value : ℤ
  pub state : ℤ

-- dbPlayerArtifactData
pub record Artifact : Type 0 where
  pub rank : ℤ
  pub level : ℤ

-- The messages that the modelled handlers send, and the calls that leave the modelled parts.
pub data Effect : Type 0 where
  items_update : Dict ℤ → Dict ℤ → Effect
  item_sell : ℤ → ℤ → Effect
  task_value_notify : ℤ → ℤ → ℤ → Effect
  task_data : ℤ → List TaskInfo → ℤ → Effect
  task_reward : ℤ → Effect
  gold_hand_data : ℤ → Dict ℤ → Effect
  touch_gold : ℤ → ℤ → ℤ → ℤ → Effect
  talent_up : ℤ → ℤ → Effect
  talent_reset : ℤ → Dict ℤ → ℤ → Effect
  sign_data : ℤ → ℤ → ℤ → ℤ → Effect
  sign_award : ℤ → Dict ℤ → Effect
  seven_days_data : List ℤ → ℤ → ℤ → Effect
  seven_days_award : ℤ → Dict ℤ → Effect
  tower_data : ℤ → ℤ → ℤ → Effect
  tower_battle_result : ℤ → Bool → Effect
  stage_reward : List (ℤ × ℤ) → ℤ → ℤ → Effect
  tower_rank : ℤ → ℤ → Effect
  artifact_update : ℤ → ℤ → ℤ → Effect
  artifact_unlock artifact_reset : ℤ → Effect
  artifact_list : Dict Artifact → Effect
  artifact_levelup artifact_rankup : ℤ → ℤ → Effect
  activitys_update : ℤ → ℤ → Effect
  save_uid_player_info : ℤ → Effect

pub record GoldHand : Type 0 where
  pub last_refresh_time : ℤ
  pub left_num : List ℤ

pub record Sign : Type 0 where
  pub curr_group : ℤ
  pub award_index : ℤ
  pub signed_index : ℤ
  pub last_signed_time : ℤ

pub record SevenDays : Type 0 where
  pub awards : List ℤ
  pub days : ℤ

pub record Tower : Type 0 where
  pub curr_id : ℤ
  pub last_get_new_key_time : ℤ
  pub pass_tower_time : ℤ

pub record Player : Type 0 where
  pub gold : ℤ
  pub diamond : ℤ
  pub exp : ℤ
  pub lvl : ℤ
  -- the row's own copy of the level, db.SetLevel
  pub row_level : ℤ
  pub vip_lvl : ℤ
  pub create_unix : ℤ
  -- dbPlayerItemColumn: the count of each item
  pub items : Dict ℤ
  -- `none` is the nil map
  pub items_changed_info : Option (Dict ℤ)
  pub b_base_prop_chg : Bool
  pub tasks : Dict TaskData
  pub finished_tasks : Dict (Unit {0})
  pub task_refresh_time : ℤ
  pub talents : Dict ℤ
  pub artifacts : Dict Artifact
  pub gold_hand : GoldHand
  pub sign : Sign
  pub seven_days : SevenDays
  pub tower : Tower
  -- what was sent and called, in order
  pub effects : List Effect

-- Send, and the calls that are recorded.
unfoldable pub send : Effect → Player → Player
send e p = record p { effects = p.effects ++ e ∷ [] }

-- The first value of a two-valued Get of a map: zero where the key is missing.
abbrev pub value_or_zero : Option ℤ → ℤ
value_or_zero none = pos 0
value_or_zero (some v) = v

-- A slice of pairs, (a[0], a[1]), (a[2], a[3]), ..., as the loops over len(a) / 2 read it.
abbrev pub pairs : List ℤ → List (ℤ × ℤ)
pairs [] = []
pairs (a ∷ []) = []
pairs (a ∷ b ∷ r) = (a, b) ∷ pairs r

-- The sums by which a handler reports a reward: rewards[id] += num.
unfoldable pub sum_rewards : List (ℤ × ℤ) → Dict ℤ → Dict ℤ
sum_rewards [] m = m
sum_rewards ((id, num) ∷ l) m = sum_rewards l (insert id (value_or_zero (lookup id m) +₃₂ num) m)
