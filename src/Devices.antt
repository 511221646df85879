-- ===== src/Devices.antt =====
-- server/src/superboss/modules/devices.
pub mod Tables
pub mod Tokens
pub mod Service
pub mod Pairing
pub mod Access
