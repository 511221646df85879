-- ===== src/Users.antt =====
-- server/src/superboss/modules/users.
pub mod Service
