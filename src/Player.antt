-- ===== src/Player.antt =====
-- The player: the part of src/hall_server/player.go's Player and of its database row that the
-- modelled handlers read and write, and the tables and the clock that they consult.
pub mod Env
pub mod State
pub mod Task
pub mod Resource
pub mod Sign
pub mod TaskReward
pub mod GoldHand
pub mod SevenDays
pub mod Tower
pub mod Talent
pub mod Artifact
pub mod Equip
pub mod Drop
