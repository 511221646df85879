-- ===== src/Devices/Tables.antt =====
-- devices/models.py, with the rows of users, projects, sessions and audit events that the device
-- service reads and writes.
use super_boss.Base.{ℕ, Bool, true, false, Option, List, Uuid, Time, Digest, ◌==◌}
use super_boss.Base.Rows.{find_by, save}
use super_boss.Base.Texts.{Text}
use super_boss.Core.Actors.{Scope}
use super_boss.Core.Directory.{User, Project, AuthSession, AuditLog, ProjectStatus, session_key}

pub record DevicePairingCode : Type 0 where
  pub id : Uuid
  pub owner_id : Uuid
  pub code_hash : Digest
  pub expires_at : Time
  pub used_at : Option Time
  pub created_at : Time

pub record DevicePairingProject : Type 0 where
  pub pairing_code_id : Uuid
  pub project_id : Uuid

pub record DeviceConnection : Type 0 where
  pub id : Uuid
  pub owner_id : Uuid
  pub name : Text
  pub paired_at : Time
  pub last_used_at : Option Time
  pub revoked_at : Option Time

pub record DeviceProjectGrant : Type 0 where
  pub device_id : Uuid
  pub project_id : Uuid

pub record DeviceScopeGrant : Type 0 where
  pub device_id : Uuid
  pub scope : Scope

pub record DeviceTables : Type 0 where
  pub users : List User
  pub projects : List Project
  pub pairing_codes : List DevicePairingCode
  pub pairing_projects : List DevicePairingProject
  pub devices : List DeviceConnection
  pub project_grants : List DeviceProjectGrant
  pub scope_grants : List DeviceScopeGrant
  pub sessions : List AuthSession
  pub audit : List AuditLog

abbrev pub is_open : ProjectStatus → Bool
is_open ProjectStatus.active = true
is_open ProjectStatus.archived = false

abbrev pub pairing_key : DevicePairingCode → ℕ
pairing_key c = c.id

abbrev pub device_key : DeviceConnection → ℕ
device_key d = d.id

abbrev pub get_owner : Uuid → DeviceTables → Option User
get_owner id t = find_by (λ u. u.id == id) t.users

abbrev pub get_device : Uuid → DeviceTables → Option DeviceConnection
get_device id t = find_by (λ d. d.id == id) t.devices

abbrev pub put_device : DeviceConnection → DeviceTables → DeviceTables
put_device d t = record t { devices = save device_key d t.devices }

abbrev pub put_session : AuthSession → DeviceTables → DeviceTables
put_session s t = record t { sessions = save session_key s t.sessions }
