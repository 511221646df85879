-- ===== src/Devices/Service.antt =====
-- devices/service.py: DeviceService on the committed tables. A method's transaction rolls back
-- where it raises, and a rejected credential is recorded in a transaction of its own.
pub mod Effects
use super_boss.Base.{
  ℕ, ◌+◌, ◌*◌, Bool, true, false, Option, none, some, List, [], ◌∷◌, ◌++◌, map, String, Uuid, Time,
  Digest, not, ◌&&◌, ◌||◌, ◌==◌, ltb, leb, is_some, opt_eq, str_eq, if◌then◌else◌, minutes, days,
  whole_second, second,
}
use super_boss.Base.Lists.{any, all, contains, keep, length}
use super_boss.Base.Rows.{find_by, save, update_where}
use super_boss.Base.Strip.{strip}
use super_boss.Base.Texts.{Text, codes, join}
use super_boss.Core.Errors.{
  Error, invalid_device_grant, invalid_device_credential, credential_rejected,
}
use super_boss.Core.Exec.{
  Exec, Result, ok, err, pure, raise, lift, or_raise, modify, raise_if, transaction, ◌>>=◌, ◌>>◌,
}
use super_boss.Core.Platform.{Platform, Payload, int, lookup}
use super_boss.Core.Actors.{Actor, ActorKind, Role, is_owner, Scope, has_scope}
use super_boss.Core.Directory.{
  AuditLog, Meta, text, number, null, AuthSession, SessionKind, is_user_session, User, Project,
  is_active,
}
use super_boss.Audit.{write_audit}
use super_boss.Devices.Tables.{
  DevicePairingCode, DevicePairingProject, DeviceConnection, DeviceProjectGrant, DeviceScopeGrant,
  DeviceTables, is_open, pairing_key, get_owner, get_device, put_device, put_session,
}
use super_boss.Devices.Tokens.{
  issue_device_access_token, decode_device_access_token, uuid_claim, device_scopes, seconds_of,
  DeviceClaims,
}

-- What the service takes from outside besides the platform: `uuid5(NAMESPACE_URL, text)`, NFKC
-- and the Unicode categories that begin with C.
pub record DeviceTools : Type 0 where
  pub jwt_secret : String
  pub uuid5 : Text → Uuid
  pub nfkc : Text → Text
  pub is_other : ℕ → Bool

pub record DeviceTokenPair (Token : Type 0) : Type 0 where
  pub device_id : Uuid
  pub access_token : Token
  pub refresh_token : Text
  pub expires_at : Time
  pub refresh_expires_at : Time

-- what a new session draws: the opaque token and two `uuid4()`
pub record DeviceDraw : Type 0 where
  pub refresh : Text
  pub session_id : Uuid
  pub access_jti : Uuid

abbrev is_padding : ℕ → Bool
is_padding c = any (◌==◌ c) (32 ∷ 9 ∷ 13 ∷ 10 ∷ 160 ∷ [])

abbrev pub is_active_owner : Option User → Bool
is_active_owner none = false
is_active_owner (some u) = is_owner (some u.role) && is_active u.status

abbrev pub revoked : DeviceConnection → Bool
revoked d = is_some d.revoked_at

module _ (tools : DeviceTools) where
  -- `normalize_device_name`
  unfoldable pub normalize_device_name : Text → Result Text
  normalize_device_name value =
      let normalized = strip is_padding (tools.nfkc value) in
      if not (leb 1 (length normalized) && leb (length normalized) 128)
        || any tools.is_other normalized
      then err invalid_device_grant
      else ok normalized

  -- `_event_key`
  unfoldable pub event_key : (uuid_text : Uuid → String) → String → Uuid → Uuid
  event_key uuid_text kind object_id =
      tools.uuid5
        (join (codes ":") (codes "superboss" ∷ codes kind ∷ codes (uuid_text object_id) ∷ []))

  -- `_audit`; the role of an actor is none or OWNER
  unfoldable pub audit_event :
      ActorKind
      → Option Uuid
      → Meta
      → String
      → String
      → Option Uuid
      → String
      → Uuid
      → List (String × Meta)
      → Option Uuid
      → AuditLog
  audit_event actor_kind actor_id actor_role action object_type object_id outcome request_id
        metadata key =
      record {
        actor_kind = actor_kind;
        actor_id = actor_id;
        action = action;
        object_type = object_type;
        object_id = object_id;
        project_id = none;
        outcome = outcome;
        metadata = metadata ++ ("actor_role", actor_role) ∷ [];
        request_id = some request_id;
        event_key = key;
      }

  abbrev with_audit : Result (List AuditLog) → Exec DeviceTables (Unit {0})
  with_audit (err e) t = (err e, t)
  with_audit (ok rows) t = (ok tt, record t { audit = rows })

  unfoldable pub write_event : AuditLog → Exec DeviceTables (Unit {0})
  write_event row t = with_audit (write_audit row t.audit) t

  -- `_denied`
  unfoldable pub denied : String → Uuid → Option Uuid → String → DeviceTables → DeviceTables
  denied action request_id object_id reason t =
      (write_event
        (audit_event ActorKind.system none null action "device" object_id "DENIED" request_id
          (("reason", text reason) ∷ []) none)
        t).1

  -- `except _CredentialRejected`
  abbrev pub rejected :
      {A : Type 0} → String → Uuid → Result A × DeviceTables → Result A × DeviceTables
  rejected action request_id (err (credential_rejected object_id), t) =
      (err invalid_device_credential, denied action request_id object_id "INVALID_CREDENTIAL" t)
  rejected action request_id r = r

module _ {Token : Type 0} (p : Platform Token) (tools : DeviceTools) where
  -- `_credential_hash`; a surrogate does not encode
  unfoldable pub credential_hash : Text → Option Digest
  credential_hash raw =
      if leb 32 (length raw)
        && leb (length raw) 512
        && not (any (λ c. leb 55296 c && leb c 57343) raw)
      then some (p.sha256 raw)
      else none

  -- `_new_session`
  unfoldable pub new_session :
      DeviceConnection → (now : Time) → DeviceDraw → Exec DeviceTables (DeviceTokenPair Token)
  new_session device now draw = do
    let issued_at = whole_second now
    (access_token, access_expires_at) ← lift (
        issue_device_access_token p tools.jwt_secret device.id device.owner_id draw.session_id
          draw.access_jti issued_at)
    modify (λ t. record t {
      sessions =
          t.sessions
          ++ record {
            id = draw.session_id;
            kind = SessionKind.device;
            user_id = none;
            device_id = some device.id;
            access_jti = p.uuid_text draw.access_jti;
            refresh_token_hash = p.sha256 draw.refresh;
            access_expires_at = access_expires_at;
            refresh_expires_at = issued_at + days 14;
            refresh_used_at = none;
            revoked_at = none;
            created_at = issued_at;
          }
            ∷ [];
    })
    pure (record {
      device_id = device.id;
      access_token = access_token;
      refresh_token = draw.refresh;
      expires_at = access_expires_at;
      refresh_expires_at = issued_at + days 14;
    })

  -- the owner must be an active OWNER
  unfoldable pub require_active_owner : Uuid → Exec DeviceTables (Unit {0})
  require_active_owner owner_id t =
      (if is_active_owner (get_owner owner_id t) then ok tt else err invalid_device_grant, t)

  abbrev own_device : Uuid → Option DeviceConnection → Option DeviceConnection
  own_device owner_id none = none
  own_device owner_id (some d) = if d.owner_id == owner_id then some d else none

  -- `revoke` of a device that was found
  abbrev revoke_found : Uuid → Uuid → Time → DeviceConnection → Exec DeviceTables (Unit {0})
  revoke_found owner_id request_id now device = if revoked device then pure tt else do
    modify (put_device (record device { revoked_at = some now }))
    modify (λ t. record t {
      sessions =
          update_where (λ s. opt_eq s.device_id (some device.id) && not (is_some s.revoked_at))
            (λ s. record s { revoked_at = some now }) t.sessions;
    })
    write_event tools (
        audit_event tools ActorKind.user (some owner_id) (text "OWNER") "device.revoke" "device"
          (some device.id) "SUCCESS" request_id (("state", text "REVOKED") ∷ [])
          (some (event_key tools p.uuid_text "device-revoke" device.id)))

  abbrev revoke_steps :
      (owner_id device_id : Uuid)
      → (request_id : Uuid) → (now : Time) → Exec DeviceTables (Unit {0})
  revoke_steps owner_id device_id request_id now = do
    require_active_owner owner_id
    device ← (λ t. or_raise (own_device owner_id (get_device device_id t)) invalid_device_grant t)
    revoke_found owner_id request_id now device

  unfoldable pub revoke :
      (owner_id device_id : Uuid)
      → (request_id : Uuid) → (now : Time) → Exec DeviceTables (Unit {0})
  revoke owner_id device_id request_id now =
      transaction (revoke_steps owner_id device_id request_id now)
