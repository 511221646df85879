-- ===== src/Tests/Auth.antt =====
-- The theorems about authentication at one account, `alice`, whose password is known.
use super_boss.Base.{
  ◌⊎◌, Digest, ℕ, ◌+◌, ◌≡◌, refl, true, false, none, some, List, [], ◌∷◌, arith, seconds, ◌↔◌,
}
use super_boss.Base.Lists.{All}
use super_boss.Base.Texts.{Text, codes}
use super_boss.Core.Errors.{login_failure, locked, invalid_session, unauthenticated}
use super_boss.Core.Exec.{ok, err, is_ok}
use super_boss.Core.Actors.{staff}
use super_boss.Core.Security.{issue_access_token, decode_access_token}
use super_boss.Core.Directory.{Directory, User, UserStatus}
use super_boss.Auth.Passwords.{
  validate_password, validate_password_iff, IsAcceptable, hash_password, verify_password,
  verify-hash, encoded_size,
}
use super_boss.Auth.Service.{
  Draw, Settings, issue_session, login, change_password, authenticate_access_token,
  rotate_refresh_token, pending_session, replace_password, changed_user, revoke_all_for_user,
  read_session_id,
}
use super_boss.Auth.Service.Issue.{IsTimely, issued_pair, issued_authenticates}
use super_boss.Auth.Service.Lockout.{
  IsCounted, Attempt, attempt_all, five_failures_lock, login-IsCounted,
}
use super_boss.Auth.Service.Admission.{MayLogIn, login_iff}
use super_boss.Auth.Service.Revocation.{Ended, change_ends_sessions, change_refuses_tokens}
use super_boss.Auth.Routes.{logs_in, refresh_route, serve_all}
use super_boss.Auth.Routes.Replay.{replay_refused}
use super_boss.Tests.Toy.{toy, toy-IsPlatform, digest}

abbrev right_password : Text
right_password = codes "correct horse battery"

abbrev wrong_password : Text
wrong_password = codes "incorrect horse"

abbrev settings : Settings
settings = record { jwt_secret = "key" }

abbrev alice : User
alice = record {
  id = 1;
  username = "alice";
  display_name = "Alice";
  password_hash = digest right_password;
  must_change_password = false;
  password_changed_at = 0;
  failed_login_count = 0;
  locked_until = none;
  role = staff;
  status = UserStatus.active;
  last_login_at = none;
}

abbrev tables : Directory
tables = record { users = alice ∷ []; sessions = []; projects = []; members = []; audit = [] }

abbrev draw_of : ℕ → Draw
draw_of n = record {
  refresh = n ∷ [];
  session_id = 100 + n;
  jti = 200 + n;
  now = seconds 50;
  issued = seconds 50;
  checked = seconds 50 + 7;
}

draw-IsTimely : IsTimely (draw_of 1)
draw-IsTimely = omega arith

abbrev attempt : ℕ → Attempt
attempt t = record { password = wrong_password; now = seconds t; salt = 0; draw = draw_of t }

abbrev later_attempts : List Attempt
later_attempts = attempt 2 ∷ attempt 3 ∷ attempt 4 ∷ attempt 5 ∷ []

abbrev Wrong : Attempt → Type 0
Wrong a = (verify_password toy alice.password_hash a.password).valid ≡ false

attempts-Wrong : All Wrong (attempt 1 ∷ later_attempts)
unfolding verify_password validate_password encoded_size
attempts-Wrong = (refl, (refl, (refl, (refl, (refl, tt)))))

five_failures_lock_example :
    let d' = attempt_all toy settings "alice" (attempt 1 ∷ later_attempts) tables in
    login toy settings "alice" right_password (seconds 600) 0 (draw_of 9) d'
    ≡ (err (login_failure (some 1) locked), d')
five_failures_lock_example =
    five_failures_lock toy settings "alice" (attempt 1) later_attempts tables alice refl refl refl
      refl attempts-Wrong right_password (seconds 600) 0 (draw_of 9) (omega arith)

tables-IsCounted : All IsCounted tables.users
tables-IsCounted = (record { bounded = omega arith; limited = λ e. absurd (omega arith) }, tt)

login-IsCounted_example :
    All IsCounted
      (login toy settings "alice" wrong_password (seconds 7) 0 (draw_of 1) tables).1.users
login-IsCounted_example =
    login-IsCounted toy settings "alice" wrong_password (seconds 7) 0 (draw_of 1) tables
      tables-IsCounted

login_iff_example :
    (is_ok (login toy settings "alice" right_password (seconds 7) 0 (draw_of 1) tables).0 ≡ true)
    ↔ MayLogIn toy "alice" right_password (seconds 7) tables
login_iff_example =
    login_iff toy settings right_password (seconds 7) 0 (draw_of 1) toy-IsPlatform draw-IsTimely
      refl "alice" tables

issued_authenticates_example :
    let (r, d') = issue_session toy settings alice (draw_of 1) tables in
    (r ≡ ok (issued_pair toy settings alice (draw_of 1)))
    × (authenticate_access_token toy settings
          (issued_pair toy settings alice (draw_of 1)).access_token
          (seconds 60)
          (seconds 61)
          d'
        ≡ (ok alice, d'))
issued_authenticates_example =
    issued_authenticates toy settings toy-IsPlatform alice (draw_of 1) tables (seconds 60)
      (seconds 61) refl refl refl refl draw-IsTimely (omega arith) (omega arith) (omega arith)

-- the tables once `alice` has the session of the first draw
abbrev with_session : Directory
with_session = (issue_session toy settings alice (draw_of 1) tables).1

replay_refused_example :
    let d' =
      serve_all toy settings
        (logs_in "alice" right_password (seconds 70) 0 (draw_of 3) 8 ∷ [])
        (refresh_route toy settings (1 ∷ []) (seconds 60) (draw_of 2) with_session).1 in
    refresh_route toy settings (1 ∷ []) (seconds 80) (draw_of 4) d' ≡ (err unauthenticated, d')
unfolding refresh_route rotate_refresh_token issue_session pending_session issue_access_token
    decode_access_token
replay_refused_example =
    replay_refused toy settings (1 ∷ []) (seconds 60) (draw_of 2) with_session
      (logs_in "alice" right_password (seconds 70) 0 (draw_of 3) 8 ∷ []) (seconds 80) (draw_of 4)
      (tt, tt) (omega arith) (omega arith, tt) refl

new_password : Text
new_password = codes "battery staple horse"

change_ends_sessions_example :
    All
      (Ended 1 102)
      (change_password toy settings 1 right_password new_password
        (seconds 60)
        0
        (draw_of 2)
        with_session).1.sessions
unfolding new_password change_password replace_password changed_user revoke_all_for_user
    issue_session pending_session issue_access_token decode_access_token verify_password
    hash_password validate_password encoded_size
change_ends_sessions_example =
    change_ends_sessions toy settings 1 right_password new_password (seconds 60) 0 (draw_of 2)
      with_session refl

change_refuses_tokens_example :
    let d' =
      (change_password toy settings 1 right_password new_password
        (seconds 60)
        0
        (draw_of 2)
        with_session).1 in
    authenticate_access_token toy settings
      (issued_pair toy settings alice (draw_of 1)).access_token
      (seconds 61)
      (seconds 61)
      d'
    ≡ (err invalid_session, d')
unfolding new_password change_password replace_password changed_user revoke_all_for_user
    issue_session pending_session issue_access_token decode_access_token read_session_id
    verify_password hash_password validate_password encoded_size
change_refuses_tokens_example =
    change_refuses_tokens toy settings 1 right_password new_password (seconds 60) 0 (draw_of 2)
      with_session refl (issued_pair toy settings alice (draw_of 1)).access_token (seconds 61)
      (seconds 61) refl refl (omega arith)

validate_password_iff_example :
    (validate_password right_password ≡ ok tt) ↔ IsAcceptable right_password
validate_password_iff_example = validate_password_iff right_password

verify-hash_example :
    (IsAcceptable right_password
      × (h : Digest) × (hash_password toy 0 right_password ≡ ok h)
      × ((verify_password toy h right_password).valid ≡ true))
    ⊎ ((IsAcceptable right_password → ⊥)
        × (is_ok (hash_password toy 0 right_password) ≡ false)
        × ((h : Digest) → (verify_password toy h right_password).valid ≡ false))
verify-hash_example = verify-hash toy toy-IsPlatform 0 right_password
