-- ===== src/Devices/Access.antt =====
-- devices/service.py: a device token is checked against the live rows, and a refresh token is
-- rotated.
pub mod Revoked
use super_boss.Base.{
  ℕ, ◌+◌, ◌*◌, Bool, true, false, Option, none, some, List, [], ◌∷◌, ◌++◌, map, String, Uuid, Time,
  Digest, not, ◌&&◌, ◌||◌, ◌==◌, ltb, leb, is_some, opt_eq, str_eq, if◌then◌else◌, minutes, days,
  whole_second, second,
}
use super_boss.Base.Lists.{any, all, contains, keep, length}
use super_boss.Base.Rows.{find_by, save, update_where}
use super_boss.Base.Texts.{Text, codes, join}
use super_boss.Core.Errors.{
  Error, invalid_device_grant, invalid_device_credential, credential_rejected,
}
use super_boss.Core.Exec.{
  Exec, Result, ok, err, pure, raise, lift, or_raise, modify, raise_if, transaction, ◌>>=◌, ◌>>◌,
}
use super_boss.Core.Platform.{Platform, Payload, int, lookup}
use super_boss.Core.Actors.{Actor, ActorKind, Role, is_owner, Scope, has_scope}
use super_boss.Core.Directory.{
  AuditLog, Meta, text, number, null, AuthSession, SessionKind, is_user_session, User, Project,
  is_active,
}
use super_boss.Audit.{write_audit}
use super_boss.Devices.Tables.{
  DevicePairingCode, DevicePairingProject, DeviceConnection, DeviceProjectGrant, DeviceScopeGrant,
  DeviceTables, is_open, pairing_key, get_owner, get_device, put_device, put_session,
}
use super_boss.Devices.Tokens.{
  issue_device_access_token, decode_device_access_token, uuid_claim, device_scopes, seconds_of,
  DeviceClaims,
}
use super_boss.Devices.Service.{
  DeviceTools, DeviceTokenPair, DeviceDraw, is_active_owner, revoked, normalize_device_name,
  event_key, audit_event, write_event, denied, rejected, credential_hash, new_session,
}

module _ {Token : Type 0} (p : Platform Token) (tools : DeviceTools) where
  -- `authenticate_access_token` from the claims on
  abbrev claims_of :
      Option Uuid
      → Option Uuid
      → Option Uuid
      → Option Uuid
      → Option Time
      → Option Time
      → Option DeviceClaims
  claims_of (some d) (some o) (some s) (some j) (some i) (some e) = some (record {
    device_id = d;
    owner_id = o;
    session_id = s;
    access_jti = j;
    issued_at = i;
    expires_at = e;
  })
  claims_of _ _ _ _ _ _ = none

  abbrev read_payload : Result Payload → Option DeviceClaims
  read_payload (err e) = none
  read_payload (ok c) =
      claims_of (uuid_claim p "device_id" c) (uuid_claim p "owner_id" c)
        (uuid_claim p "session_id" c) (uuid_claim p "jti" c) (seconds_of (lookup "iat" c))
        (seconds_of (lookup "exp" c))

  unfoldable pub read_device_claims : Time → Token → Option DeviceClaims
  read_device_claims now token =
      read_payload (decode_device_access_token p tools.jwt_secret now token)

  abbrev device_refused : DeviceClaims → DeviceConnection → Bool
  device_refused c d = not (d.owner_id == c.owner_id) || revoked d

  abbrev session_refused : DeviceClaims → Time → AuthSession → Bool
  session_refused c now s =
      is_user_session s.kind
      || (not (opt_eq s.device_id (some c.device_id))
          || (not (str_eq s.access_jti (p.uuid_text c.access_jti))
              || (is_some s.revoked_at
                  || (not (s.created_at == c.issued_at)
                      || (not (s.access_expires_at == c.expires_at)
                          || (leb s.access_expires_at now
                              || (ltb now c.issued_at || leb c.expires_at now)))))))

  -- the grants in active projects
  abbrev live_projects : Uuid → DeviceTables → List Uuid
  live_projects device_id t =
      map (λ (g : DeviceProjectGrant). g.project_id)
        (keep
          (λ g.
            g.device_id == device_id
            && any (λ (x : Project). x.id == g.project_id && is_open x.status) t.projects)
          t.project_grants)

  abbrev live_scopes : Uuid → DeviceTables → List Scope
  live_scopes device_id t =
      map (λ (g : DeviceScopeGrant). g.scope)
        (keep (λ g. g.device_id == device_id && has_scope g.scope device_scopes) t.scope_grants)

  abbrev last_used : DeviceConnection → Time → Option Time
  last_used d now = elim d.last_used_at [
    | none ↦ some now
    | some at ↦ if ltb at now then some now else some at
  ]

  unfoldable pub authenticate_device_token : Token → (now : Time) → Exec DeviceTables Actor
  authenticate_device_token token now = do
    c ← or_raise (read_device_claims now token) invalid_device_credential
    (λ t. raise_if (not (is_active_owner (get_owner c.owner_id t))) invalid_device_credential t)
    device ← (λ t. or_raise (get_device c.device_id t) invalid_device_credential t)
    raise_if (device_refused c device) invalid_device_credential
    device_session ←
        (λ t. or_raise (find_by (λ s. s.id == c.session_id) t.sessions) invalid_device_credential t)
    raise_if (session_refused c now device_session) invalid_device_credential
    modify (put_device (record device { last_used_at = last_used device now }))
    (λ t. (
      ok (record {
        kind = ActorKind.device;
        subject_id = device.id;
        role = none;
        project_ids = live_projects device.id t;
        scopes = live_scopes device.id t;
      }),
      t,
    ))

  abbrev of_hash : Option Digest → DeviceTables → Option AuthSession
  of_hash none t = none
  of_hash (some h) t = find_by (λ s. s.refresh_token_hash == h) t.sessions

  abbrev session_device : AuthSession → DeviceTables → Option DeviceConnection
  session_device s t = elim s.device_id [ none ↦ none | some id ↦ get_device id t ]

  -- the conditions under which a refresh is rejected once its device is found
  abbrev pub refresh_refused : Time → DeviceConnection → AuthSession → Bool
  refresh_refused now device current =
      revoked device
      || (is_user_session current.kind
          || (not (opt_eq current.device_id (some device.id))
              || (is_some current.refresh_used_at
                  || (is_some current.revoked_at || leb current.refresh_expires_at now))))

  abbrev rotate :
      AuthSession
      → DeviceConnection
      → Uuid
      → Time
      → DeviceDraw
      → Exec DeviceTables (DeviceTokenPair Token)
  rotate current device request_id now draw = do
    modify (put_session (record current { refresh_used_at = some now; revoked_at = some now }))
    token_pair ← new_session p tools device now draw
    write_event tools (
        audit_event tools ActorKind.device (some device.id) null "device.refresh" "device"
          (some device.id) "SUCCESS" request_id (("state", text "ACTIVE") ∷ [])
          (some (event_key tools p.uuid_text "device-refresh" current.id)))
    pure token_pair

  -- the transaction of `refresh`; the rows that it locks are those that it located
  refresh_located :
      Text → (request_id : Uuid) → Time → DeviceDraw → Exec DeviceTables (DeviceTokenPair Token)
  refresh_located raw_refresh request_id now draw = do
    current ← (λ t.
        or_raise (of_hash (credential_hash p tools raw_refresh) t) (credential_rejected none) t)
    device ← (λ t. or_raise (session_device current t) (credential_rejected current.device_id) t)
    (λ t.
        raise_if (not (is_active_owner (get_owner device.owner_id t)))
          (credential_rejected current.device_id) t)
    raise_if (refresh_refused now device current) (credential_rejected current.device_id)
    rotate current device request_id now draw

  pub refresh :
      Text → (request_id : Uuid) → Time → DeviceDraw → Exec DeviceTables (DeviceTokenPair Token)
  refresh raw_refresh request_id now draw t =
      rejected tools "device.refresh" request_id
        (transaction (refresh_located raw_refresh request_id now draw) t)
