-- ===== src/Tests.antt =====
-- Runs of the modelled handlers at a small game table, and the theorems at concrete inputs.
mod World
mod Wallet
mod Daily
mod Growth
mod Ranking
mod Runs
mod Servers
mod Tokens
mod Pool
mod Timers
mod Mails
mod Equipment
mod Drops
