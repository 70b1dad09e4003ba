-- ===== src/Chat.antt =====
-- The chat server of chatserver/.
pub mod UserState
pub mod Notes
pub mod Words
pub mod Levels
pub mod Credits
mod Examples
