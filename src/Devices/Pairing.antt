-- ===== src/Devices/Pairing.antt =====
-- devices/service.py: a pairing code is redeemed for a device. Its projects, its grants and its
-- first session are written with it, or nothing is.
pub mod Once
use super_boss.Base.{
  ℕ, ◌+◌, ◌*◌, Bool, true, false, Option, none, some, List, [], ◌∷◌, ◌++◌, map, String, Uuid, Time,
  Digest, not, ◌&&◌, ◌||◌, ◌==◌, ltb, leb, is_some, opt_eq, str_eq, if◌then◌else◌, minutes, days,
  whole_second, second,
}
use super_boss.Base.Lists.{any, all, contains, keep, length}
use super_boss.Base.Rows.{find_by, save, update_where}
use super_boss.Base.Texts.{Text, codes, join}
use super_boss.Core.Errors.{
  Error, invalid_device_grant, invalid_device_credential, credential_rejected,
}
use super_boss.Core.Exec.{
  Exec, Result, ok, err, pure, raise, lift, or_raise, modify, raise_if, transaction, ◌>>=◌, ◌>>◌,
}
use super_boss.Core.Platform.{Platform, Payload, int, lookup}
use super_boss.Core.Actors.{Actor, ActorKind, Role, is_owner, Scope, has_scope}
use super_boss.Core.Directory.{
  AuditLog, Meta, text, number, null, AuthSession, SessionKind, is_user_session, User, Project,
  is_active,
}
use super_boss.Audit.{write_audit}
use super_boss.Devices.Tables.{
  DevicePairingCode, DevicePairingProject, DeviceConnection, DeviceProjectGrant, DeviceScopeGrant,
  DeviceTables, is_open, pairing_key, get_owner, get_device, put_device, put_session,
}
use super_boss.Devices.Tokens.{
  issue_device_access_token, decode_device_access_token, uuid_claim, device_scopes, seconds_of,
  DeviceClaims,
}
use super_boss.Devices.Service.{
  DeviceTools, DeviceTokenPair, DeviceDraw, is_active_owner, revoked, normalize_device_name,
  event_key, audit_event, write_event, denied, rejected, credential_hash, new_session,
}

module _ {Token : Type 0} (p : Platform Token) (tools : DeviceTools) where
  abbrev redeemable : Time → DevicePairingCode → Bool
  redeemable now pairing = not (is_some pairing.used_at) && ltb now pairing.expires_at

  abbrev pub by_code : Option Digest → DeviceTables → Option DevicePairingCode
  by_code none t = none
  by_code (some h) t = find_by (λ c. c.code_hash == h) t.pairing_codes

  -- the projects of a pairing code
  abbrev paired_projects : Uuid → DeviceTables → List Project
  paired_projects pairing_id t =
      keep
        (λ (x : Project).
          any (λ j. j.pairing_code_id == pairing_id && j.project_id == x.id) t.pairing_projects)
        t.projects

  abbrev pairs_nothing : List Project → Bool
  pairs_nothing [] = true
  pairs_nothing (x ∷ rest) = any (λ (y : Project). not (is_open y.status)) (x ∷ rest)

  -- the device with its grants
  abbrev add_device : DeviceConnection → List Project → DeviceTables → DeviceTables
  add_device device projects t = record t {
    devices = t.devices ++ device ∷ [];
    project_grants =
        t.project_grants
        ++ map (λ (x : Project). record { device_id = device.id; project_id = x.id }) projects;
    scope_grants =
        t.scope_grants ++ map (λ s. record { device_id = device.id; scope = s }) device_scopes;
  }

  abbrev pub use_code : DevicePairingCode → Time → DeviceTables → DeviceTables
  use_code pairing now t = record t {
    pairing_codes = save pairing_key (record pairing { used_at = some now }) t.pairing_codes;
  }

  -- `pair` of a code that is good
  abbrev redeem :
      DevicePairingCode
      → List Project
      → Text
      → (device_id request_id : Uuid) → Time
      → DeviceDraw
      → Exec DeviceTables (DeviceTokenPair Token)
  redeem pairing projects name device_id request_id now draw = do
    modify (use_code pairing now)
    let device : DeviceConnection = record {
      id = device_id;
      owner_id = pairing.owner_id;
      name = name;
      paired_at = now;
      last_used_at = none;
      revoked_at = none;
    }
    modify (add_device device projects)
    token_pair ← new_session p tools device now draw
    write_event tools (
        audit_event tools ActorKind.device (some device_id) null "device.pair" "device"
          (some device_id) "SUCCESS" request_id
          (("state", text "ACTIVE") ∷ ("project_count", number (length projects)) ∷ [])
          (some (event_key tools p.uuid_text "device-pair" pairing.id)))
    pure token_pair

  unfoldable pub redeem_code :
      Text
      → Text
      → (device_id request_id : Uuid) → Time
      → DeviceDraw
      → Exec DeviceTables (DeviceTokenPair Token)
  redeem_code raw_code name device_id request_id now draw = do
    pairing ←
        (λ t. or_raise (by_code (credential_hash p tools raw_code) t) (credential_rejected none) t)
    raise_if (not (redeemable now pairing)) (credential_rejected (some pairing.id))
    (λ t.
        raise_if (not (is_active_owner (get_owner pairing.owner_id t)))
          (credential_rejected (some pairing.id)) t)
    (λ t.
        raise_if (pairs_nothing (paired_projects pairing.id t))
          (credential_rejected (some pairing.id)) t)
    (λ t. redeem pairing (paired_projects pairing.id t) name device_id request_id now draw t)

  abbrev pair_named :
      Text
      → (device_id request_id : Uuid) → Time
      → DeviceDraw
      → Result Text
      → Exec DeviceTables (DeviceTokenPair Token)
  pair_named raw_code device_id request_id now draw (err e) t =
      (err e, denied tools "device.pair" request_id none "INVALID_REQUEST" t)
  pair_named raw_code device_id request_id now draw (ok name) t =
      rejected tools "device.pair" request_id
        (transaction (redeem_code raw_code name device_id request_id now draw) t)

  -- `device_id` is the key that the new row draws.
  unfoldable pub pair :
      Text
      → Text
      → (device_id request_id : Uuid) → Time
      → DeviceDraw
      → Exec DeviceTables (DeviceTokenPair Token)
  pair raw_code device_name device_id request_id now draw =
      pair_named raw_code device_id request_id now draw (normalize_device_name tools device_name)
