-- ===== src/Bot.antt =====
-- The game bots of bot/.
pub mod Nicks
pub mod Texts
pub mod Words
pub mod Roulette
pub mod Quiz
pub mod Antiflood
pub mod Mafia
mod Examples
