-- ===== src/Engine.antt =====
-- src/engine/: what a session decides.
pub mod Choker
pub mod Session
pub mod Resume
