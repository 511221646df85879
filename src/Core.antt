-- ===== src/Core.antt =====
-- server/src/superboss/core and the rows of the database that the services share.
pub mod Errors
pub mod Exec
pub mod Platform
pub mod Actors
pub mod Security
pub mod Directory
