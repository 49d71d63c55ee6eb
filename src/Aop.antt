-- ===== src/Aop.antt =====
-- Small libraries of the servers: aop.
pub mod Bitmap
pub mod ModuleRouter
pub mod Time
pub mod Sample
