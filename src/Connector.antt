-- ===== src/Connector.antt =====
-- integrations/kimi-superboss/connector: the command that submits results from a workstation.
pub mod Checks
pub mod Cli
pub mod Client
pub mod Manifest
pub mod Outbox
pub mod Store
pub mod Agreement
pub mod Updater
