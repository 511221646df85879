-- ===== src/Devices/Access/Revoked.antt =====
-- A revoked device is refused, whatever token it shows.
use mathlib.Core.Path.{subst}
use super_boss.Base.{
  ℕ, ◌≡◌, ◌≢◌, sym, ap, ◌∙◌, inl, inr, Bool, true, false, some, arith, Uuid, Time, Bool-cases,
  Option-cases, ◌||◌, ◌==◌, ==_iff,
}
use super_boss.Base.Rows.{find_by, find_by-holds}
use super_boss.Core.Exec.{Result, ok, err, is_ok}
use super_boss.Core.Platform.{Platform}
use super_boss.Core.Actors.{Actor}
use super_boss.Core.Directory.{AuthSession}
use super_boss.Devices.Tables.{DeviceConnection, DeviceTables, get_device, get_owner}
use super_boss.Devices.Service.{DeviceTools, revoke, revoked, is_active_owner}
use super_boss.Devices.Service.Effects.{revoke-Revoked}
use super_boss.Devices.Access.{
  authenticate_device_token, read_device_claims, device_refused, session_refused,
}

or_false : (a b : Bool) → (a || b) ≡ false → b ≡ false
or_false a b e = ground arith

module _ {Token : Type 0} (p : Platform Token) (tools : DeviceTools) where
  -- The actor of a token is a device that is not revoked.
  pub authenticated :
      (token : Token) (now : Time) (t : DeviceTables) (a : Actor)
      → (authenticate_device_token p tools token now t).0 ≡ ok a
      → (d : DeviceConnection) × (get_device a.subject_id t ≡ some d) × (revoked d ≡ false)
  unfolding authenticate_device_token
  authenticated token now t a done = elim (Option-cases (read_device_claims p tools now token)) [
    | inl r ↦ absurd (cc (rw r at done))
    | inr (c, r) ↦ elim (Bool-cases (is_active_owner (get_owner c.owner_id t))) [
      | inr o ↦ absurd (cc (rw (r, o) at done))
      | inl o ↦ elim (Option-cases (get_device c.device_id t)) [
        | inl f ↦ absurd (cc (rw (r, o, f) at done))
        | inr (d, f) ↦ elim (Bool-cases (device_refused p tools c d)) [
          | inl x ↦ absurd (cc (rw (r, o, f, x) at done))
          | inr x ↦
              elim (Option-cases (find_by (λ (s : AuthSession). s.id == c.session_id) t.sessions)) [
                | inl s ↦ absurd (cc (rw (r, o, f, x, s) at done))
                | inr (session, s) ↦ elim (Bool-cases (session_refused p tools c now session)) [
                  | inl y ↦ absurd (cc (rw (r, o, f, x, s, y) at done))
                  | inr y ↦
                      let named : c.device_id ≡ d.id = sym (
                        (==_iff d.id c.device_id).0
                          (find_by-holds (λ g. g.id == c.device_id) d t.devices f)) in
                      let subject : d.id ≡ a.subject_id =
                        ok_subject d.id a (rw (r, o, f, x, s, y) at done) in
                      (
                        d,
                        subst (λ id. get_device id t ≡ some d) (named ∙ subject) f,
                        or_false _ (revoked d) x,
                      )
                ]
              ]
        ]
      ]
    ]
  ]
    where
      subject_of : ℕ → Result Actor → ℕ
      subject_of n (ok b) = b.subject_id
      subject_of n (err e) = n

      ok_subject : (n : ℕ) (b : Actor) {r : Result Actor} → r ≡ ok b → subject_of n r ≡ b.subject_id
      ok_subject n b e = ap (subject_of n) e

  -- In the tables that a revocation by the owner leaves, no token authenticates as the device.
  pub revoked_refused :
      (owner_id device_id request_id : Uuid) (now later : Time) (token : Token) (t : DeviceTables)
      (a : Actor)
      → is_ok (revoke p tools owner_id device_id request_id now t).0 ≡ true
      → (authenticate_device_token p tools token later
          (revoke p tools owner_id device_id request_id now t).1).0
        ≡ ok a
      → a.subject_id ≢ device_id
  revoked_refused owner_id device_id request_id now later token t a done in_use same =
      let t' = (revoke p tools owner_id device_id request_id now t).1 in
      let (d, found, gone) = revoke-Revoked p tools owner_id device_id request_id now t done in
      let (x, found', live) = authenticated token later t' a in_use in
      let here : get_device device_id t' ≡ some x =
        subst (λ id. get_device id t' ≡ some x) same found' in
      let one : d ≡ x = cc in absurd (cc one)
