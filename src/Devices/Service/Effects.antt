-- ===== src/Devices/Service/Effects.antt =====
-- What the shared steps of the device service leave alone, and what a revocation leaves behind.
use super_boss.Base.{
  ◌≡◌, refl, inl, inr, true, Option, none, some, List, Uuid, Time, Bool-cases, Option-cases,
  whole_second, ◌==◌,
}
use super_boss.Base.Rows.{find_by-save, find_by-holds}
use super_boss.Core.Exec.{Result, ok, err, is_ok, Result-cases, transaction_done}
use super_boss.Core.Platform.{Platform}
use super_boss.Core.Directory.{AuditLog}
use super_boss.Audit.{write_audit}
use super_boss.Devices.Tables.{DeviceConnection, DeviceTables, get_device, get_owner, device_key}
use super_boss.Devices.Tokens.{issue_device_access_token}
use super_boss.Devices.Service.{
  DeviceTools, DeviceDraw, write_event, with_audit, new_session, revoke, revoke_steps, revoke_found,
  revoked, own_device, require_active_owner, is_active_owner,
}

-- An audit row changes no other table.
pub write_event-codes :
    (tools : DeviceTools) (row : AuditLog) (t : DeviceTables)
    → (write_event tools row t).1.pairing_codes ≡ t.pairing_codes
unfolding write_event
write_event-codes tools row t = go (write_audit row t.audit)
  where
    go : (r : Result (List AuditLog)) → (with_audit tools r t).1.pairing_codes ≡ t.pairing_codes
    go (ok rows) = refl
    go (err e) = refl

write_event-devices :
    (tools : DeviceTools) (row : AuditLog) (t : DeviceTables)
    → (write_event tools row t).1.devices ≡ t.devices
unfolding write_event
write_event-devices tools row t = go (write_audit row t.audit)
  where
    go : (r : Result (List AuditLog)) → (with_audit tools r t).1.devices ≡ t.devices
    go (ok rows) = refl
    go (err e) = refl

module _ {Token : Type 0} (p : Platform Token) (tools : DeviceTools) where
  pub new_session-codes :
      (device : DeviceConnection) (now : Time) (draw : DeviceDraw) (t : DeviceTables)
      → (new_session p tools device now draw t).1.pairing_codes ≡ t.pairing_codes
  unfolding new_session
  new_session-codes device now draw t =
      elim (Result-cases (
        issue_device_access_token p tools.jwt_secret device.id device.owner_id draw.session_id
          draw.access_jti (whole_second now))) [
            | inl (pair, e) ↦ rw e refl
            | inr (x, e) ↦ rw e refl
          ]

  abbrev Revoked : Uuid → DeviceTables → Type 0
  Revoked device_id t =
      (d : DeviceConnection) × (get_device device_id t ≡ some d) × (revoked d ≡ true)

  revoke_found-Revoked :
      (owner_id device_id request_id : Uuid) (now : Time) (t : DeviceTables) (d : DeviceConnection)
      → get_device device_id t ≡ some d
      → Revoked device_id (revoke_found p tools owner_id request_id now d t).1
  revoke_found-Revoked owner_id device_id request_id now t d found = elim (Bool-cases (revoked d)) [
    | inl e ↦ rw e (d, found, e)
    | inr e ↦ rw e (
      record d { revoked_at = some now },
      rw (write_event-devices tools _ _) (
          find_by-save device_key (λ x. x.id == device_id) d (record d { revoked_at = some now })
            t.devices found refl (find_by-holds (λ x. x.id == device_id) d t.devices found)),
      refl,
    )
  ]

  own :
      (owner_id : Uuid) (o : Option DeviceConnection) (d : DeviceConnection)
      → own_device p tools owner_id o ≡ some d
      → o ≡ some d
  own owner_id none d e = cc
  own owner_id (some x) d e = elim (Bool-cases (x.owner_id == owner_id)) [
    | inl s ↦ rw s at e
    | inr s ↦ absurd (cc (rw s at e))
  ]

  steps-Revoked :
      (owner_id device_id request_id : Uuid) (now : Time) (t : DeviceTables)
      → is_ok (revoke_steps p tools owner_id device_id request_id now t).0 ≡ true
      → Revoked device_id (revoke_steps p tools owner_id device_id request_id now t).1
  unfolding require_active_owner
  steps-Revoked owner_id device_id request_id now t done =
      elim (Bool-cases (is_active_owner (get_owner owner_id t))) [
        | inr a ↦ absurd (cc (rw a at done))
        | inl a ↦ elim (Option-cases (own_device p tools owner_id (get_device device_id t))) [
          | inl o ↦ absurd (cc (rw (a, o) at done))
          | inr (d, o) ↦
              rw (a, o)
                (revoke_found-Revoked owner_id device_id request_id now t d
                  (own owner_id (get_device device_id t) d o))
        ]
      ]

  -- A revocation that succeeded leaves the device revoked.
  pub revoke-Revoked :
      (owner_id device_id request_id : Uuid) (now : Time) (t : DeviceTables)
      → is_ok (revoke p tools owner_id device_id request_id now t).0 ≡ true
      → (d : DeviceConnection) × (get_device device_id
            (revoke p tools owner_id device_id request_id now t).1
          ≡ some d)
        × (revoked d ≡ true)
  unfolding revoke
  revoke-Revoked owner_id device_id request_id now t done =
      let same = transaction_done (revoke_steps p tools owner_id device_id request_id now) t done in
      rw same (steps-Revoked owner_id device_id request_id now t (rw same at done))
