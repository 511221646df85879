-- ===== src/Imports.antt =====
-- server/src/superboss/modules/imports.
pub mod Jobs
pub mod Evaluation
pub mod Service
pub mod Reading
pub mod Schemas
pub mod Create
pub mod Uploads
