-- ===== src/Devices/Pairing/Once.antt =====
-- A pairing code is used once.
use super_boss.Base.{
  ◌≡◌, refl, ap, ◌∙◌, inl, inr, true, false, some, List, String, Uuid, Time, Digest, Bool-cases,
  Option-cases, is_some, ◌==◌,
}
use super_boss.Base.Rows.{find_by-save, find_by-holds}
use super_boss.Base.Texts.{Text}
use super_boss.Core.Errors.{credential_rejected}
use super_boss.Core.Exec.{
  Result, ok, err, is_ok, and_then, rolled_back, Result-cases, transaction_done, state-pure,
  transaction, ◌>>◌, pure,
}
use super_boss.Core.Platform.{Platform}
use super_boss.Core.Directory.{AuditLog, Project}
use super_boss.Devices.Tables.{DevicePairingCode, DeviceTables, get_owner, pairing_key}
use super_boss.Devices.Service.{
  DeviceTools, DeviceTokenPair, DeviceDraw, is_active_owner, rejected, credential_hash,
  normalize_device_name, write_event,
}
use super_boss.Devices.Service.Effects.{write_event-codes, new_session-codes}
use super_boss.Devices.Pairing.{
  by_code, use_code, redeemable, paired_projects, pairs_nothing, redeem, redeem_code, pair,
}

module _ {Token : Type 0} (p : Platform Token) (tools : DeviceTools) where
  with_event :
      (f : DeviceTokenPair Token → AuditLog) (codes : List DevicePairingCode)
      (r : Result (DeviceTokenPair Token) × DeviceTables)
      → r.1.pairing_codes ≡ codes
      → (and_then (λ x. write_event tools (f x) >> pure x) r).1.pairing_codes ≡ codes
  with_event f codes (err e, s) h = h
  with_event f codes (ok x, s) h =
      ap (λ (t : DeviceTables). t.pairing_codes)
        (state-pure (λ (u : Unit {0}). x) (write_event tools (f x)) s)
      ∙ write_event-codes tools (f x) s
      ∙ h

  redeem-codes :
      (code : DevicePairingCode) (projects : List Project) (name : Text)
      (device_id request_id : Uuid) (now : Time) (draw : DeviceDraw) (t : DeviceTables)
      → (redeem p tools code projects name device_id request_id now draw t).1.pairing_codes
        ≡ (use_code p tools code now t).pairing_codes
  redeem-codes code projects name device_id request_id now draw t =
      with_event _ _ _ (new_session-codes p tools _ now draw _)

  abbrev Used : Digest → DeviceTables → Type 0
  Used h t =
      (c : DevicePairingCode) × (by_code p tools (some h) t ≡ some c) × (is_some c.used_at ≡ true)

  redeemed :
      (raw name : Text) (device_id request_id : Uuid) (now : Time) (draw : DeviceDraw)
      (t : DeviceTables)
      → is_ok (redeem_code p tools raw name device_id request_id now draw t).0 ≡ true
      → (h : Digest) × (credential_hash p tools raw ≡ some h)
        × Used h (redeem_code p tools raw name device_id request_id now draw t).1
  unfolding redeem_code
  redeemed raw name device_id request_id now draw t done =
      elim (Option-cases (credential_hash p tools raw)) [
        | inl e ↦ absurd (cc (rw e at done))
        | inr (h, e) ↦ elim (Option-cases (by_code p tools (some h) t)) [
          | inl f ↦ absurd (cc (rw (e, f) at done))
          | inr (c, f) ↦ elim (Bool-cases (redeemable p tools now c)) [
            | inr r ↦ absurd (cc (rw (e, f, r) at done))
            | inl r ↦ elim (Bool-cases (is_active_owner (get_owner c.owner_id t))) [
              | inr o ↦ absurd (cc (rw (e, f, r, o) at done))
              | inl o ↦ elim (Bool-cases (pairs_nothing p tools (paired_projects p tools c.id t))) [
                | inl n ↦ absurd (cc (rw (e, f, r, o, n) at done))
                | inr n ↦
                    rw (e, f, r, o, n)
                      (
                        h,
                        refl,
                        (
                          record c { used_at = some now },
                          rw
                              (redeem-codes c (paired_projects p tools c.id t) name device_id
                                request_id now draw t)
                              (find_by-save pairing_key (λ x. x.code_hash == h) c
                                (record c { used_at = some now }) t.pairing_codes f refl
                                (find_by-holds (λ x. x.code_hash == h) c t.pairing_codes f)),
                          refl,
                        ),
                      )
              ]
            ]
          ]
        ]
      ]

  Used-refused :
      (raw name : Text) (device_id request_id : Uuid) (now : Time) (draw : DeviceDraw)
      (t : DeviceTables) (h : Digest)
      → credential_hash p tools raw ≡ some h
      → Used h t
      → is_ok (redeem_code p tools raw name device_id request_id now draw t).0 ≡ false
  unfolding redeem_code
  Used-refused raw name device_id request_id now draw t h e (c, f, u) = rw (e, f, u) refl

  rejected_ok :
      (action : String) (request_id : Uuid) (r : Result (DeviceTokenPair Token) × DeviceTables)
      → is_ok (rejected tools action request_id r).0 ≡ true
      → (is_ok r.0 ≡ true) × (rejected tools action request_id r ≡ r)
  rejected_ok action request_id (ok x, s) h = (refl, refl)
  rejected_ok action request_id (err (credential_rejected o), s) h = cc
  rejected_ok action request_id (err e, s) h = cc

  failed :
      (action : String) (request_id : Uuid) (t : DeviceTables)
      (r : Result (DeviceTokenPair Token) × DeviceTables)
      → is_ok r.0 ≡ false
      → is_ok (rejected tools action request_id (rolled_back t r)).0 ≡ false
  failed action request_id t (ok x, s) h = cc
  failed action request_id t (err (credential_rejected o), s) h = refl
  failed action request_id t (err e, s) h = refl

  pair-Used :
      (raw name : Text) (device_id request_id : Uuid) (now : Time) (draw : DeviceDraw)
      (t : DeviceTables)
      → is_ok (pair p tools raw name device_id request_id now draw t).0 ≡ true
      → (h : Digest) × (credential_hash p tools raw ≡ some h)
        × Used h (pair p tools raw name device_id request_id now draw t).1
  unfolding pair
  pair-Used raw name device_id request_id now draw t done =
      elim (Result-cases (normalize_device_name tools name)) [
        | inr (x, e) ↦ absurd (cc (rw e at done))
        | inl (n, e) ↦
            let steps = redeem_code p tools raw n device_id request_id now draw in
            let (good, same) =
              rejected_ok "device.pair" request_id (transaction steps t) (rw e at done) in
            let body = transaction_done steps t good in
            rw (e, same, body) (redeemed raw n device_id request_id now draw t (rw body at good))
      ]

  -- In the tables that a pairing leaves, the same code pairs no other device: an attempt with it
  -- fails, at whatever time and under whatever name.
  pub paired_once :
      (raw name name' : Text) (device_id device_id' request_id request_id' : Uuid)
      (now later : Time) (draw draw' : DeviceDraw) (t : DeviceTables)
      → is_ok (pair p tools raw name device_id request_id now draw t).0 ≡ true
      → is_ok
          (pair p tools raw name' device_id' request_id' later draw'
            (pair p tools raw name device_id request_id now draw t).1).0
        ≡ false
  unfolding pair
  paired_once raw name name' device_id device_id' request_id request_id' now later draw draw' t
        done =
      let t' = (pair p tools raw name device_id request_id now draw t).1 in
      let (h, e, used) = pair-Used raw name device_id request_id now draw t done in
      elim (Result-cases (normalize_device_name tools name')) [
        | inr (x, n) ↦ rw n refl
        | inl (n', n) ↦ rw n (
            failed "device.pair" request_id' t'
              (redeem_code p tools raw n' device_id' request_id' later draw' t')
              (Used-refused raw n' device_id' request_id' later draw' t' h e used))
      ]
