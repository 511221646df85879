-- ===== src/Auth.antt =====
-- server/src/superboss/modules/auth.
pub mod Passwords
pub mod Service
pub mod Routes
