-- ===== src/Auth/Service/Admission.antt =====
-- Who may log in: the outcome of `login` of auth/service.py in terms of the account.
use super_boss.Base.{
  ℕ, ◌≡◌, refl, ap, ◌∙◌, sym, ◌↔◌, inl, inr, true, false, some, arith, String, Time, Digest, str_eq,
  Bool-cases, Option-cases,
}
use super_boss.Base.Rows.{find_by}
use super_boss.Base.Texts.{Text}
use super_boss.Core.Exec.{ok, is_ok}
use super_boss.Core.Platform.{Platform, IsPlatform}
use super_boss.Core.Directory.{Directory, User, is_active}
use super_boss.Auth.Passwords.{verify_password, hash_of_valid}
use super_boss.Auth.Service.{
  Draw, Settings, is_locked, lift_lock, login, login_unlocked, rehashed, count_success,
}
use super_boss.Auth.Service.Issue.{IsTimely, complete_login_ok}

-- The account of that name is not locked and active, and the password is its own.
abbrev pub MayLogIn : {Token : Type 0} → Platform Token → String → Text → Time → Directory → Type 0
MayLogIn p username password now d =
    (u : User) × (find_by (λ x. str_eq x.username username) d.users ≡ some u)
    × (is_locked u now ≡ false)
    × ((verify_password p u.password_hash password).valid ≡ true)
    × (is_active u.status ≡ true)

lift_lock-hash : (u : User) → (lift_lock u).password_hash ≡ u.password_hash
lift_lock-hash u = ground arith

lift_lock-status : (u : User) → (lift_lock u).status ≡ u.status
lift_lock-status u = ground arith

module _ {Token : Type 0} (p : Platform Token) (settings : Settings) (password : Text)
    (now salt : ℕ) (draw : Draw) where
  rehashed_ok :
      (u : User)
      → (verify_password p u.password_hash password).valid ≡ true
      → (h : Digest) × (rehashed p settings u
            (verify_password p u.password_hash password)
            salt
            password
          ≡ ok h)
  unfolding rehashed
  rehashed_ok u valid =
      elim (Bool-cases (verify_password p u.password_hash password).needs_rehash) [
        | inl e ↦
            (p.argon_hash salt password, rw e (hash_of_valid p u.password_hash salt password valid))
        | inr e ↦ (u.password_hash, rw e refl)
      ]

  unlocked_ok :
      IsPlatform p
      → IsTimely draw
      → str_eq settings.jwt_secret "" ≡ false
      → (u : User) (d : Directory) → (verify_password p u.password_hash password).valid ≡ true
      → is_active u.status ≡ true
      → is_ok (login_unlocked p settings u password now salt draw d).0 ≡ true
  unfolding login_unlocked
  unlocked_ok laws timely secret u d valid on =
      let (h, e) = rehashed_ok u valid in
      rw (e, valid, on)
        (complete_login_ok p settings laws (count_success u h now) draw d timely secret)

  unlocked_needs :
      (u : User) (d : Directory)
      → is_ok (login_unlocked p settings u password now salt draw d).0 ≡ true
      → ((verify_password p u.password_hash password).valid ≡ true) × (is_active u.status ≡ true)
  unfolding login_unlocked
  unlocked_needs u d h = ground arith

  -- Where the settings have a secret that is not empty, and the times at which the tokens are built
  -- and read back fit (`IsTimely`), a login succeeds exactly when the account of that name exists, is
  -- not locked, is active, and the password verifies against its hash.
  pub login_iff :
      IsPlatform p
      → IsTimely draw
      → str_eq settings.jwt_secret "" ≡ false
      → (username : String) (d : Directory)
      → (is_ok (login p settings username password now salt draw d).0 ≡ true)
        ↔ MayLogIn p username password now d
  unfolding login
  login_iff laws timely secret username d = (needs, passes)
    where
      passes :
          MayLogIn p username password now d
          → is_ok (login p settings username password now salt draw d).0 ≡ true
      passes (u, found, free, valid, on) =
          rw (found, free)
            (unlocked_ok laws timely secret (lift_lock u) d
              (ap (λ h. (verify_password p h password).valid) (lift_lock-hash u) ∙ valid)
              (ap is_active (lift_lock-status u) ∙ on))

      needs :
          is_ok (login p settings username password now salt draw d).0 ≡ true
          → MayLogIn p username password now d
      needs h = elim (Option-cases (find_by (λ x. str_eq x.username username) d.users)) [
        | inl e ↦ absurd (cc (rw e at h))
        | inr (u, e) ↦ elim (Bool-cases (is_locked u now)) [
          | inl l ↦ absurd (cc (rw (e, l) at h))
          | inr l ↦
              let (valid, on) = unlocked_needs (lift_lock u) d (rw (e, l) at h) in
              (
                u,
                e,
                l,
                ap (λ x. (verify_password p x password).valid) (sym (lift_lock-hash u)) ∙ valid,
                ap is_active (sym (lift_lock-status u)) ∙ on,
              )
        ]
      ]
