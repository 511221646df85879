-- ===== src/Files.antt =====
-- server/src/superboss/modules/files.
pub mod Names
pub mod Vault
pub mod Scan
pub mod Upload
pub mod Complete
pub mod Stale
pub mod ClamAv
