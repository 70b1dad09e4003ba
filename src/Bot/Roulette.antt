-- ===== src/Bot/Roulette.antt =====
-- bot/bot-roulette: the roulette. The globals of game.cpp and roulette.cpp are one record, a pointer to
-- a user is an address in its heap. Amounts are doubles: what the bot computes with them is the record
-- Money, which each definition takes. The file FSTAWKI, which repeats the stakes for a restart, is left out.
pub mod State
pub mod Wheel
pub mod Round
pub mod Bets
pub mod Reply
pub mod Command
