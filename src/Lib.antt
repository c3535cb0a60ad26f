-- ===== src/Lib.antt =====
-- The hall server of ih_server (src/hall_server), a game server in Go: what its handlers do to a
-- player, which clients it knows and when it logs them out, with the rankings and the item pool of
-- libs/utils and the server list of src/share_data. A handler reads a message, checks the player's row
-- and the game tables, changes the row, and sends messages; a player is served by one goroutine at a
-- time, so that a handler is a function from a player to a player and a result.
--
-- The files, and the code that each is about:
--   Base: Go's int32 (integers that wrap at 2 ^ 32), slices as lists under native indices, maps as
--     association lists, with the laws of their operations.
--   Player/Env: what handlers read: the clock, the rows of src/table_config, and values of
--     global_config. Player/State: the part of the player's row (src/hall_server/a_db_tables.go) that
--     they change, their results, and the messages that they send, in order, as a list of effects.
--   Player/Task, Task/Update and TaskReward: src/hall_server/player_task.go, and
--     GetRemainSeconds2NextDayTime of libs/utils/time_func.go. TaskReward/Others, Kept, Progress and
--     Claimed lead to the theorem of TaskReward/Once; Task/Frame says what tasks leave alone.
--   Player/Resource and Resource/ById: src/hall_server/player_item.go (gold, diamonds, experience,
--     items, prices, sales), and check_and_send_items_change of src/hall_server/player.go. Money, Exp,
--     Vip, Items, Changes, Sync, Price and Reward (over Reward/Same and Reward/Single) hold the
--     theorems; Frame says what rewards leave alone in this model.
--   Player/Sign: src/hall_server/player_sign.go; theorems in Sign/Taken and
--     Sign/Sequence.
--   Player/GoldHand: src/hall_server/player_goldhand.go; theorems in GoldHand/Touch.
--   Player/SevenDays: src/hall_server/player_seven_days.go; theorems in SevenDays/Once.
--   Player/Tower: src/hall_server/player_tower.go, and send_stage_reward of
--     src/hall_server/player_campaign.go; theorems in Tower/Keys and Tower/Fight.
--   Player/Talent: src/hall_server/player_talent.go; theorems in Talent/Learn and Talent/Reset.
--   Player/Artifact: src/hall_server/player_artifact.go; theorems in Artifact/Growth.
--   Player/Equip: equip and unequip of src/hall_server/player_item.go, with the slots of the roles.
--     Equip/Worn, Bag, Kept and Run hold the theorems.
--   Player/Drop: drop_item of src/hall_server/player_draw_card.go, over the table of
--     src/table_config/table_drop.go; theorems in Drop/Load, Range and Chosen.
--   RankList: ShortRankList of libs/utils/short_ranklist.go, which the rankings of the server use; its
--     loops are in Shift and Scan, its invariant in Consistent, Rearrange, Place, Update and Order, and
--     sequences of operations in Run.
--   ServerList: src/share_data/server_list.go; theorems in ServerList/Weights, Choice, Reread and Cross.
--   LoginToken: src/hall_server/login_token.go; theorems in LoginToken/Linked, Steps and Bind.
--   ItemPool: SimpleItemPool of libs/utils/simple_item_pool.go; theorems in ItemPool/Stack, Custody and
--     Traded.
--   ConnTimer: the wheel of src/hall_server/conn_timer_wheel.go, with the timer lists of
--     src/hall_server/conn_timer_mgr.go. Its lists are a store, and slots and players point into it.
--     Nodes, Inv, Insert, Expire, Visit, Sweep, Ahead, Tick, Silence and Rounds lead to Logout.
--   Mail: src/hall_server/player_mail.go: the box, the mails to all players in Mail/System, and Mail/Send
--     and Mail/Handlers for what players send and ask for. Mail/Oldest, Box, Claim, Unpaid, Negative,
--     Delivered, OneMore and Resent hold the theorems.
--   Tests: a small game table, runs of the handlers, and the theorems at concrete inputs.
-- A definition bears the name of the function that it models, in this library's spelling, and the
-- comment above it names the Go function where the two differ. The handlers meet in Player/Resource:
-- each pays and charges by add_resource, whose effects on tasks come back through TaskUpdate.
--
-- Panics: a handler that can read out of range or dereference nil returns an Option, and `none` is
-- the panic. The loop of add_exp runs on fuel, one more than the experience, which is enough since a
-- level costs at least one point; the loop of add_vip_exp on one more than the rows of its table,
-- which is enough where the levels of the rows go up to their number; the loop of the wheel over its
-- slots on as many as there are slots, which is enough since it stops at one of them. The loop of
-- drop_item is over TotalCount, which Load sets to the number of rows, and that of CheckSystemMail over
-- the number of its ids. Every other loop is over a list.
--
-- Not modelled: the battle, a parameter of the tower; the scaling of honor in float32, a function of
-- the environment; the time zone and the parsing of times of day, fields of the environment; what
-- activitys_update and SaveUidPlayerInfo do beyond being called; the making of roles, the cards and
-- the guilds, which are parameters of drops and mails; the decoding of messages, locks, logging and
-- the reading of tables from files. The order in which Go visits a map is that of the list.
pub mod Base
pub mod Player
pub mod RankList
pub mod ServerList
pub mod LoginToken
pub mod ItemPool
pub mod ConnTimer
pub mod Mail
pub mod Tests
