-- ===== src/Login.antt =====
-- The login server, server/login.
pub mod Config
pub mod Gateway
pub mod World
pub mod Zone
pub mod Queue
pub mod Handler
mod Samples
