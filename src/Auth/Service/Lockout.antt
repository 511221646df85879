-- ===== src/Auth/Service/Lockout.antt =====
-- Failed logins: the counter, the lock that the fifth failure sets, and who may log in.
use super_boss.Base.{
  ℕ, ◌+◌, ◌≤◌, ◌<◌, ◌≡◌, refl, ap, ◌∙◌, inl, inr, Bool, true, false, none, some, List, [], ◌∷◌,
  arith, String, Uuid, Time, Digest, str_eq, is_some, Bool-cases, Option-cases, not, ◌||◌,
}
use super_boss.Base.Lists.{All, length}
use super_boss.Base.Rows.{find_by, find_by-save, find_by-holds, All-save}
use super_boss.Base.Texts.{Text}
use super_boss.Core.Errors.{login_failure, invalid_credentials, locked}
use super_boss.Core.Exec.{Result, err, Result-cases}
use super_boss.Core.Platform.{Platform}
use super_boss.Core.Directory.{Directory, User, is_active, user_key, put_user}
use super_boss.Auth.Passwords.{verify_password}
use super_boss.Auth.Service.{
  Draw, Settings, CompletedLogin, max_login_failures, login_lock_duration, is_locked, lift_lock,
  count_failure, count_success, login, login_unlocked, rehashed,
}
use super_boss.Auth.Service.Issue.{complete_login-users}

-- The counter never passes its limit, and an account that reached the limit has a lock.
pub record IsCounted (u : User) : Type 0 where
  pub bounded : u.failed_login_count ≤ max_login_failures
  pub limited : u.failed_login_count ≡ max_login_failures → is_some u.locked_until ≡ true

pub lift_lock-IsCounted : (u : User) → IsCounted u → IsCounted (lift_lock u)
lift_lock-IsCounted u h = ground (arith, h.bounded)

pub count_failure-IsCounted : (u : User) (now : Time) → IsCounted (count_failure u now)
unfolding count_failure
count_failure-IsCounted u now = ground arith

count_success-IsCounted : (u : User) (h : Digest) (now : Time) → IsCounted (count_success u h now)
unfolding count_success
count_success-IsCounted u h now = ground arith

is_locked_early :
    (u : User) (now : Time) {until : Time}
    → u.locked_until ≡ some until
    → now < until
    → is_locked u now ≡ true
is_locked_early u now lock early = ground arith

is_locked_free : (u : User) (now : Time) → u.locked_until ≡ none → is_locked u now ≡ false
is_locked_free u now free = rw free

lift_lock_free : (u : User) → u.locked_until ≡ none → lift_lock u ≡ u
lift_lock_free u free = ground arith

abbrev by_name : String → User → Bool
by_name username u = str_eq u.username username

module _ {Token : Type 0} (p : Platform Token) (settings : Settings) where
  -- the accounts after a login, whatever its outcome
  login_unlocked-IsCounted :
      (u : User) (password : Text) (now salt : ℕ) (draw : Draw) (d : Directory)
      → All IsCounted d.users
      → All IsCounted (login_unlocked p settings u password now salt draw d).1.users
  unfolding login_unlocked
  login_unlocked-IsCounted u password now salt draw d h =
      elim (Bool-cases
        (not (verify_password p u.password_hash password).valid || not (is_active u.status))) [
          | inl refused ↦ rw refused (
              All-save IsCounted user_key (count_failure u now) d.users
                (count_failure-IsCounted u now) h)
          | inr passed ↦
              elim (Result-cases (
                rehashed p settings u (verify_password p u.password_hash password) salt password)) [
                  | inl (hash, e) ↦
                      rw (passed, e)
                        (rw (complete_login-users p settings (count_success u hash now) draw d) (
                          All-save IsCounted user_key (count_success u hash now) d.users
                            (count_success-IsCounted u hash now) h))
                  | inr (x, e) ↦ rw (passed, e) h
                ]
        ]

  -- While an account is locked, no password logs in, and the attempt changes nothing.
  pub locked_refuses :
      (username : String) (password : Text) (now salt : ℕ) (draw : Draw) (d : Directory) (u : User)
      {until : Time}
      → find_by (by_name username) d.users ≡ some u
      → u.locked_until ≡ some until
      → now < until
      → login p settings username password now salt draw d
        ≡ (err (login_failure (some u.id) locked), d)
  unfolding login
  locked_refuses username password now salt draw d u found lock early =
      rw (found, is_locked_early u now lock early)

  -- one failed attempt of an account that is not locked
  failure_counts :
      (username : String) (password : Text) (now salt : ℕ) (draw : Draw) (d : Directory) (u : User)
      → find_by (by_name username) d.users ≡ some u
      → u.locked_until ≡ none
      → (verify_password p u.password_hash password).valid ≡ false
      → login p settings username password now salt draw d
        ≡ (err (login_failure (some u.id) invalid_credentials), put_user (count_failure u now) d)
  unfolding login login_unlocked
  failure_counts username password now salt draw d u found free wrong =
      rw (found, is_locked_free u now free, lift_lock_free u free, wrong)

  -- Every login, whatever its outcome, keeps the counters of all accounts in bounds.
  pub login-IsCounted :
      (username : String) (password : Text) (now salt : ℕ) (draw : Draw) (d : Directory)
      → All IsCounted d.users
      → All IsCounted (login p settings username password now salt draw d).1.users
  unfolding login
  login-IsCounted username password now salt draw d h =
      elim (Option-cases (find_by (by_name username) d.users)) [
        | inl e ↦ rw e h
        | inr (u, e) ↦ elim (Bool-cases (is_locked u now)) [
          | inl l ↦ rw (e, l) h
          | inr l ↦ rw (e, l) (login_unlocked-IsCounted (lift_lock u) password now salt draw d h)
        ]
      ]

pub record Attempt : Type 0 where
  pub password : Text
  pub now : Time
  pub salt : ℕ
  pub draw : Draw

module _ {Token : Type 0} (p : Platform Token) (settings : Settings) (username : String) where
  abbrev pub login_state : Attempt → Directory → Directory
  login_state a d = (login p settings username a.password a.now a.salt a.draw d).1

  -- the tables after a sequence of attempts
  abbrev pub attempt_all : List Attempt → Directory → Directory
  attempt_all [] d = d
  attempt_all (a ∷ rest) d = attempt_all rest (login_state a d)

  abbrev pub last_time : Attempt → List Attempt → Time
  last_time a [] = a.now
  last_time a (b ∷ rest) = last_time b rest

  abbrev Wrong : Digest → Attempt → Type 0
  Wrong h a = (verify_password p h a.password).valid ≡ false

  after_failure :
      (a : Attempt) (d : Directory) (u : User)
      → find_by (by_name username) d.users ≡ some u
      → u.locked_until ≡ none
      → Wrong u.password_hash a
      → find_by (by_name username) (login_state a d).users ≡ some (count_failure u a.now)
  unfolding count_failure
  after_failure a d u found free wrong =
      ap (λ (r : Result (CompletedLogin Token) × Directory). find_by (by_name username) r.1.users)
        (failure_counts p settings username a.password a.now a.salt a.draw d u found free wrong)
      ∙ (find_by-save user_key (by_name username) u (count_failure u a.now) d.users found refl
          (find_by-holds (by_name username) u d.users found))

  count_failure_step :
      (u : User) (now : Time)
      → u.failed_login_count + 1 < 5
      → u.locked_until ≡ none
      → ((count_failure u now).locked_until ≡ none)
        × ((count_failure u now).failed_login_count ≡ u.failed_login_count + 1)
  unfolding count_failure
  count_failure_step u now few free = (ground arith, omega arith)

  count_failure_last :
      (u : User) (now : Time)
      → u.failed_login_count + 1 ≡ 5
      → (count_failure u now).locked_until ≡ some (now + login_lock_duration)
  unfolding count_failure
  count_failure_last u now last = ground arith

  -- After the remaining wrong attempts the account is locked.
  failures_lock :
      (a : Attempt) (rest : List Attempt) (d : Directory) (u : User)
      → u.failed_login_count + length (a ∷ rest) ≡ 5
      → find_by (by_name username) d.users ≡ some u
      → u.locked_until ≡ none
      → All (Wrong u.password_hash) (a ∷ rest)
      → (v : User) × (find_by (by_name username) (attempt_all (a ∷ rest) d).users ≡ some v)
        × (v.id ≡ u.id)
        × (v.locked_until ≡ some (last_time a rest + login_lock_duration))
  unfolding count_failure
  failures_lock a [] d u n found free wrong = (
    count_failure u a.now,
    after_failure a d u found free wrong.0,
    refl,
    count_failure_last u a.now (omega arith),
  )
  failures_lock a (b ∷ rest) d u n found free wrong =
      let (stays, count) = count_failure_step u a.now (omega arith) free in
      failures_lock b rest (login_state a d) (count_failure u a.now) (omega (arith, count))
        (after_failure a d u found free wrong.0) stays wrong.1

  -- Five wrong passwords in a row lock a fresh account: from then on, and for fifteen minutes
  -- after the fifth, every login is refused as locked and changes nothing, the right password
  -- included.
  pub five_failures_lock :
      (a : Attempt) (rest : List Attempt) (d : Directory) (u : User)
      → length rest ≡ 4
      → find_by (by_name username) d.users ≡ some u
      → u.locked_until ≡ none
      → u.failed_login_count ≡ 0
      → All (Wrong u.password_hash) (a ∷ rest)
      → (password : Text) (now salt : ℕ) (draw : Draw)
      → now < last_time a rest + login_lock_duration
      → let d' = attempt_all (a ∷ rest) d in
        login p settings username password now salt draw d'
        ≡ (err (login_failure (some u.id) locked), d')
  five_failures_lock a rest d u n found free zero_count wrong password now salt draw early =
      let (v, found', same, lock) = failures_lock a rest d u (omega arith) found free wrong in
      locked_refuses p settings username password now salt draw _ v found' lock early
      ∙ ap (λ (i : Uuid). (err (login_failure (some i) locked), attempt_all (a ∷ rest) d)) same
