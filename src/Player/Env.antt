-- ===== src/Player/Env.antt =====
-- What the handlers of a player read and do not write: the clock, the game tables of
-- src/table_config, as the maps that their Get methods look up, and values of global_config.
use ih_server.Base.{ℕ, ℤ, List, Option, Bool}

-- A slice of int32s that may be nil.
abbrev pub Slice : Type 0
Slice = Option (List ℤ)

-- XmlItemItem, the columns that the handlers use.
pub record ItemData : Type 0 where
  pub item_type : ℤ
  pub equip_type : ℤ
  pub quality : ℤ
  pub sell_reward : Slice

-- XmlTaskItem
pub record TaskItem : Type 0 where
  pub task_id : ℤ
  pub task_type : ℤ
  pub event_id : ℤ
  pub event_param : ℤ
  pub complete_num : ℤ
  pub prev : ℤ
  pub next : ℤ
  pub rewards : Slice

-- XmlVipItem
pub record VipData : Type 0 where
  pub exp : ℤ
  pub honor_point_bonus : ℤ
  pub gold_finger_bonus : ℤ

-- XmlGoldHandItem, its three columns of rewards and costs side by side.
pub record GoldHandData : Type 0 where
  pub refresh_cd : ℤ
  pub gold_reward : ℤ × ℤ × ℤ
  pub gem_cost : ℤ × ℤ × ℤ

-- XmlTalentItem
pub record TalentData : Type 0 where
  pub can_learn : ℤ
  pub prev_skill_cond : ℤ
  pub pre_skill_lev_cond : ℤ
  pub upgrade_cost : List ℤ
  pub tag : ℤ

-- XmlTowerItem; `next` is the Id and the StageId of the item that Next points to.
pub record TowerData : Type 0 where
  pub stage_id : ℤ
  pub next : Option (ℤ × ℤ)

-- XmlArtifactItem and XmlArtifactUnlockItem
pub record ArtifactData : Type 0 where
  pub max_level : ℤ
  pub level_up_res_cost : Slice
  pub rank_up_res_cost : Slice
  pub decompose_res : Slice

pub record ArtifactUnlock : Type 0 where
  pub unlock_level : ℤ
  pub unlock_vip_level : ℤ
  pub unlock_res_cost : Slice

pub record Env : Type 0 where
  -- time.Now().Unix(), which an int32 holds until 2038, so that the casts to int32 do not show
  pub now : ℤ
  -- the date of an instant, and the seconds since its midnight that its clock shows, in the time
  -- zone of the server
  pub date : ℤ → ℤ
  pub clock_seconds : ℤ → ℤ
  -- the results of _get_today_config_time for the daily refresh and for SIGN_RESET_TIME, `none`
  -- where that fails
  pub daily_refresh_today : Option ℤ
  pub sign_reset_today : Option ℤ
  -- int32(float32(count) * (float32(bonus) / 10000))
  pub scale_float32 : ℤ → ℤ → ℤ
  pub item_table : ℤ → Option ItemData
  -- PlayerLevelUpExp of a level
  pub levelup_table : ℤ → Option ℤ
  pub vip_table : ℤ → Option VipData
  pub vip_table_len : ℤ
  pub task_map : ℤ → Option TaskItem
  pub finish_tasks : ℤ → List TaskItem
  pub daily_tasks : List TaskItem
  pub achieve_tasks : List TaskItem
  pub all_daily_task : Option TaskItem
  pub goldhand_table : ℤ → Option GoldHandData
  pub talent_table : ℤ → ℤ → Option TalentData
  pub talent_reset_cost_diamond : ℤ
  -- whether sign_table_mgr.Array has a first entry that is not nil; an empty one would panic
  pub sign_array_0 : Bool
  -- Reward of a sign and of a day
  pub sign_table : ℤ → Option Slice
  pub seven_days_table : ℤ → Option Slice
  pub tower_table : ℤ → Option TowerData
  pub tower_enter_level : ℤ
  pub tower_key_id : ℤ
  pub tower_key_max : ℤ
  -- TowerKeyGetInterval, which is positive, less one
  pub tower_key_interval_pred : ℕ
  -- RewardList of a stage
  pub stage_table : ℤ → Option Slice
  pub artifact_table : ℤ → ℤ → ℤ → Option ArtifactData
  pub artifact_max_rank : ℤ → ℤ
  pub artifact_unlock_table : ℤ → Option ArtifactUnlock
