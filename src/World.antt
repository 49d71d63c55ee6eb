-- ===== src/World.antt =====
-- The world server: server/world.
pub mod CloseList
pub mod Chat
pub mod Mail
pub mod SystemMsg
