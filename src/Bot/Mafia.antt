-- ===== src/Bot/Mafia.antt =====
-- bot/bot-mafia-new: the Mafia game. The state is that of the globals of user.cpp, game.cpp and
-- day.cpp, and a pointer to a c_user is the user's id. What is only printed (action, privmsg,
-- sock.response) is left out; `now` is what time(NULL) returns in one run of a handler.
pub mod State
pub mod Roles
pub mod MainMaf
pub mod Night
pub mod Finish
pub mod Votes
pub mod Day
pub mod Users
pub mod Vote2
pub mod Game
pub mod Command
pub mod Runs
