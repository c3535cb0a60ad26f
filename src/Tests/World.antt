-- ===== src/Tests/World.antt =====
-- A small game table and a player, at which the tests run.
use ih_server.Base.{pos, [], ◌∷◌, none, some, true, false, if◌then◌else◌, ◌=?◌, ◌&&◌}
use ih_server.Player.Env.{
  Env, ItemData, TaskItem, GoldHandData, TalentData, TowerData, ArtifactData,
}
use ih_server.Player.State.{Player}

abbrev pub plain_item : ItemData
plain_item = record { item_type = pos 1; equip_type = pos 0; quality = pos 1; sell_reward = none }

-- An achievement with no successor, and a daily task.
abbrev pub climb_task : TaskItem
climb_task = record {
  task_id = pos 7;
  task_type = pos 2;
  event_id = pos 109;
  event_param = pos 0;
  complete_num = pos 2;
  prev = pos 0;
  next = pos 0;
  rewards = some (pos 1 ∷ pos 30 ∷ []);
}

abbrev daily_task : TaskItem
daily_task = record {
  task_id = pos 8;
  task_type = pos 1;
  event_id = pos 110;
  event_param = pos 0;
  complete_num = pos 1;
  prev = pos 0;
  next = pos 0;
  rewards = none;
}

abbrev pub hand : GoldHandData
hand = record {
  refresh_cd = pos 100;
  gold_reward = (pos 10, pos 20, pos 30);
  gem_cost = (pos 0, pos 5, pos 8);
}

abbrev pub talent : TalentData
talent = record {
  can_learn = pos 1;
  prev_skill_cond = pos 0;
  pre_skill_lev_cond = pos 0;
  upgrade_cost = pos 1 ∷ pos 40 ∷ [];
  tag = pos 1;
}

abbrev relic : ArtifactData
relic = record {
  max_level = pos 3;
  level_up_res_cost = some (pos 1 ∷ pos 5 ∷ []);
  rank_up_res_cost = none;
  decompose_res = none;
}

abbrev first_tower : TowerData
first_tower = record { stage_id = pos 11; next = some (pos 2, pos 12) }

abbrev pub world : Env
world = record {
  now = pos 100000;
  date = λ t. if t =? pos 100000 then pos 1 else pos 2;
  clock_seconds = λ t. pos 0;
  daily_refresh_today = some (pos 90000);
  sign_reset_today = some (pos 86400);
  scale_float32 = λ a b. pos 0;
  item_table = λ id.
      if id =? pos 100 then some plain_item else if id =? pos 50 then some plain_item else none;
  levelup_table =
      λ l. if l =? pos 1 then some (pos 10) else if l =? pos 2 then some (pos 20) else none;
  vip_table = λ l. none;
  vip_table_len = pos 0;
  task_map = λ id. if id =? pos 7 then some climb_task else none;
  finish_tasks = λ ty. if ty =? pos 109 then climb_task ∷ [] else [];
  daily_tasks = daily_task ∷ [];
  achieve_tasks = climb_task ∷ [];
  all_daily_task = none;
  goldhand_table = λ l. if l =? pos 1 then some hand else none;
  talent_table = λ id l. if (id =? pos 4) && (l =? pos 1) then some talent else none;
  talent_reset_cost_diamond = pos 10;
  sign_array_0 = true;
  sign_table = λ id. if id =? pos 1 then some (some (pos 1 ∷ pos 15 ∷ [])) else none;
  seven_days_table = λ d. if d =? pos 1 then some (some (pos 3 ∷ pos 5 ∷ [])) else none;
  tower_table = λ id. if id =? pos 1 then some first_tower else none;
  tower_enter_level = pos 1;
  tower_key_id = pos 50;
  tower_key_max = pos 5;
  tower_key_interval_pred = 99;
  stage_table = λ id. if id =? pos 12 then some (some (pos 1 ∷ pos 7 ∷ [])) else none;
  artifact_table = λ id r l. if id =? pos 6 then some relic else none;
  artifact_max_rank = λ id. pos 2;
  artifact_unlock_table = λ id. none;
}

abbrev pub hero : Player
hero = record {
  gold = pos 100;
  diamond = pos 50;
  exp = pos 3;
  lvl = pos 1;
  row_level = pos 1;
  vip_lvl = pos 0;
  create_unix = pos 99000;
  items = (pos 100, pos 3) ∷ (pos 50, pos 2) ∷ [];
  items_changed_info = none;
  b_base_prop_chg = false;
  tasks = (pos 7, record { value = pos 2; state = pos 0 }) ∷ [];
  finished_tasks = [];
  task_refresh_time = pos 95000;
  talents = [];
  artifacts = (pos 6, record { rank = pos 1; level = pos 1 }) ∷ [];
  gold_hand = record { last_refresh_time = pos 99990; left_num = pos 1 ∷ pos 1 ∷ pos 0 ∷ [] };
  sign = record {
    curr_group = pos 0;
    award_index = pos 0;
    signed_index = pos 0;
    last_signed_time = pos 0;
  };
  seven_days = record { awards = []; days = pos 0 };
  tower = record { curr_id = pos 1; last_get_new_key_time = pos 99750; pass_tower_time = pos 0 };
  effects = [];
}
