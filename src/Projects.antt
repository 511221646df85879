-- ===== src/Projects.antt =====
-- server/src/superboss/modules/projects.
pub mod Service
