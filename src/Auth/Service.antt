-- ===== src/Auth/Service.antt =====
-- server/src/superboss/modules/auth/service.py: the methods of AuthService on a unit of work.
-- `utcnow()`, `uuid4()`, the opaque token and the salt are drawn from outside, so they are
-- arguments. The row of an ORM object that a method changed is written where it is flushed.
pub mod Issue
pub mod Lockout
pub mod Admission
pub mod Sessions
pub mod Rotation
pub mod Revocation
use super_boss.Base.{
  ℕ, ◌+◌, ◌≡◌, Bool, true, false, Option, none, some, List, [], ◌∷◌, String, Uuid, Time, Digest,
  not, ◌&&◌, ◌||◌, ltb, leb, ◌==◌, is_some, opt_eq, str_eq, min, if◌then◌else◌, minutes, days,
}
use super_boss.Base.Rows.{find_by, update_where}
use super_boss.Base.Texts.{Text}
use super_boss.Core.Errors.{
  Error, token_error, invalid_session, login_failure, invalid_credentials, locked,
  password_reuse_forbidden,
}
use super_boss.Core.Exec.{
  Result, ok, err, Exec, pure, raise, gets, lift, or_raise, modify, raise_if, ◌>>=◌, ◌>>◌,
}
use super_boss.Core.Platform.{Platform, Payload}
use super_boss.Core.Actors.{Role}
use super_boss.Core.Security.{issue_access_token, decode_access_token, text_claim, role_value}
use super_boss.Core.Directory.{
  Directory, User, AuthSession, SessionKind, is_active, is_user_session, get_user, get_session,
  put_user, put_session, add_session,
}
use super_boss.Auth.Passwords.{PasswordVerification, hash_password, verify_password}

abbrev pub max_login_failures : ℕ
max_login_failures = 5

abbrev pub login_lock_duration : Time
login_lock_duration = minutes 15

-- auth/schemas.py
pub record SessionPair (Token : Type 0) : Type 0 where
  pub access_token : Token
  pub refresh_token : Text
  pub access_expires_at : Time
  pub refresh_expires_at : Time

pub record CompletedLogin (Token : Type 0) : Type 0 where
  pub pair : SessionPair Token
  pub user : User

-- What `issue_session` draws: the opaque refresh token, two `uuid4()` and three readings of the
-- clock (its own, that of `issue_access_token` and that of PyJWT).
pub record Draw : Type 0 where
  pub refresh : Text
  pub session_id : Uuid
  pub jti : Uuid
  pub now : Time
  pub issued : Time
  pub checked : Time

pub record Settings : Type 0 where
  pub jwt_secret : String

-- `user.locked_until is not None and user.locked_until > now`
abbrev pub is_locked : User → Time → Bool
is_locked u now = elim u.locked_until [ none ↦ false | some t ↦ ltb now t ]

-- An expired lock is lifted, and the count starts again.
abbrev pub lift_lock : User → User
lift_lock u =
    if is_some u.locked_until then record u { locked_until = none; failed_login_count = 0 } else u

-- The counters after a failed attempt.
pub count_failure : User → Time → User
count_failure u now =
    let count = min (u.failed_login_count + 1) max_login_failures in
    record u {
      failed_login_count = count;
      locked_until =
          if leb max_login_failures count then some (now + login_lock_duration) else u.locked_until;
    }

-- The row after a login.
pub count_success : User → Digest → Time → User
count_success u password_hash now = record u {
  password_hash = password_hash;
  failed_login_count = 0;
  locked_until = none;
  last_login_at = some now;
}

-- The row after a password change.
unfoldable pub changed_user : User → Digest → Time → User
changed_user user password_hash now = record user {
  password_hash = password_hash;
  password_changed_at = now;
  must_change_password = false;
  failed_login_count = 0;
  locked_until = none;
}

-- `str(claims[key])`
abbrev pub claim_text : String → Payload → String
claim_text k claims = elim (text_claim k claims) [ none ↦ "" | some s ↦ s ]

-- `UPDATE sessions SET revoked_at WHERE user_id AND revoked_at IS NULL`
unfoldable pub revoke_all_for_user : Uuid → Time → Directory → Directory
revoke_all_for_user user_id at d = record d {
  sessions =
      update_where (λ s. opt_eq s.user_id (some user_id) && not (is_some s.revoked_at))
        (λ s. record s { revoked_at = some at }) d.sessions;
}

-- the conditions under which a refresh token is refused
abbrev pub is_spent : AuthSession → (now : Time) → Bool
is_spent s now =
    not (is_user_session s.kind)
    || (is_some s.revoked_at || (is_some s.refresh_used_at || leb s.refresh_expires_at now))

abbrev pub subject : AuthSession → Directory → Option User
subject s d = elim s.user_id [ none ↦ none | some id ↦ get_user id d ]

abbrev pub session_named : Payload → Option Uuid → Option (Uuid × Payload)
session_named claims none = none
session_named claims (some id) = some (id, claims)

abbrev pub session_refuses : AuthSession → Uuid → Payload → (now : Time) → Bool
session_refuses s user_id claims now =
    not (is_user_session s.kind)
    || (is_some s.revoked_at
        || (leb s.access_expires_at now
            || (not (str_eq s.access_jti (claim_text "jti" claims))
                || not (opt_eq s.user_id (some user_id)))))

abbrev pub session_claimed :
    {Token : Type 0} → Platform Token → Result Payload → Option (Uuid × Payload)
session_claimed p (err e) = none
session_claimed p (ok claims) = session_named claims (p.parse_uuid (claim_text "session_id" claims))

abbrev pub by_refresh_hash : {Token : Type 0} → Platform Token → Text → AuthSession → Bool
by_refresh_hash p raw s = s.refresh_token_hash == p.sha256 raw

-- `record.revoked_at = now` on the object that was found
abbrev pub revoke_record : Option AuthSession → Time → Directory → Directory
revoke_record none now d = d
revoke_record (some s) now d = record d {
  sessions = update_where (λ x. x.id == s.id) (λ x. record x { revoked_at = some now }) d.sessions;
}

module _ {Token : Type 0} (p : Platform Token) (settings : Settings) where
  -- the row that is flushed before the token is issued
  unfoldable pub pending_session : Uuid → Draw → AuthSession
  pending_session user_id draw = record {
    id = draw.session_id;
    kind = SessionKind.user;
    user_id = some user_id;
    device_id = none;
    access_jti = "pending";
    refresh_token_hash = p.sha256 draw.refresh;
    access_expires_at = draw.now;
    refresh_expires_at = draw.now + days 14;
    refresh_used_at = none;
    revoked_at = none;
    created_at = draw.now;
  }

  unfoldable pub issue_session : User → Draw → Exec Directory (SessionPair Token)
  issue_session user draw = do
    let row = pending_session user.id draw
    modify (add_session row)
    (access_token, access_expires_at) ← lift (
        issue_access_token p settings.jwt_secret user.id user.role draw.session_id draw.jti
          draw.issued)
    claims ← lift (decode_access_token p settings.jwt_secret draw.checked access_token)
    modify (
        put_session (record row {
          access_jti = claim_text "jti" claims;
          access_expires_at = access_expires_at;
        }))
    pure (record {
      access_token = access_token;
      refresh_token = draw.refresh;
      access_expires_at = access_expires_at;
      refresh_expires_at = draw.now + days 14;
    })

  rehashed : User → PasswordVerification → (salt : ℕ) → Text → Result Digest
  rehashed user v salt password =
      if v.needs_rehash then hash_password p salt password else ok user.password_hash

  -- The changed row is flushed and a session is issued.
  pub complete_login : User → Draw → Exec Directory (CompletedLogin Token)
  complete_login user draw = do
    modify (put_user user)
    pair ← issue_session user draw
    pure (record { pair = pair; user = user })

  -- `login` once the user is found, is not locked, and an expired lock is lifted
  pub login_unlocked :
      User → Text → (now : Time) → (salt : ℕ) → Draw → Exec Directory (CompletedLogin Token)
  login_unlocked user password now salt draw =
      let v = verify_password p user.password_hash password in
      if not v.valid || not (is_active user.status)
      then (do
        modify (put_user (count_failure user now))
        raise (login_failure (some user.id) invalid_credentials))
      else do
        password_hash ← lift (rehashed user v salt password)
        complete_login (count_success user password_hash now) draw

  pub login :
      String → Text → (now : Time) → (salt : ℕ) → Draw → Exec Directory (CompletedLogin Token)
  login username password now salt draw = do
    user ← (λ d.
        or_raise (find_by (λ u. str_eq u.username username) d.users)
          (login_failure none invalid_credentials) d)
    raise_if (is_locked user now) (login_failure (some user.id) locked)
    login_unlocked (lift_lock user) password now salt draw

  -- The changed row is flushed, the open sessions are revoked and a new one is issued.
  unfoldable pub replace_password : User → Time → Draw → Exec Directory (CompletedLogin Token)
  replace_password user now draw = do
    modify (put_user user)
    modify (revoke_all_for_user user.id now)
    pair ← issue_session user draw
    pure (record { pair = pair; user = user })

  unfoldable pub change_password :
      Uuid → Text → Text → (now : Time) → (salt : ℕ) → Draw → Exec Directory (CompletedLogin Token)
  change_password user_id current_password new_password now salt draw = do
    user ← (λ d. or_raise (get_user user_id d) (login_failure none invalid_credentials) d)
    raise_if (not (is_active user.status)) (login_failure none invalid_credentials)
    raise_if (not (verify_password p user.password_hash current_password).valid)
        (login_failure (some user.id) invalid_credentials)
    raise_if (verify_password p user.password_hash new_password).valid password_reuse_forbidden
    password_hash ← lift (hash_password p salt new_password)
    replace_password (changed_user user password_hash now) now draw

  unfoldable pub rotate_refresh_token :
      Text → (now : Time) → Draw → Exec Directory (SessionPair Token)
  rotate_refresh_token raw now draw = do
    current ← (λ d. or_raise (find_by (by_refresh_hash p raw) d.sessions) invalid_session d)
    raise_if (is_spent current now) invalid_session
    modify (put_session (record current { refresh_used_at = some now; revoked_at = some now }))
    user ← (λ d. or_raise (subject current d) invalid_session d)
    raise_if (not (is_active user.status)) invalid_session
    issue_session user draw

  -- What `authenticate_access_token` and `logout` read from a token; `none` is TokenError or
  -- ValueError.
  unfoldable pub read_session_id : (checked : Time) → Token → Option (Uuid × Payload)
  read_session_id checked token =
      session_claimed p (decode_access_token p settings.jwt_secret checked token)

  pub authenticate_access_token : Token → (checked now : Time) → Exec Directory User
  authenticate_access_token token checked now = do
    (session_id, claims) ← or_raise (read_session_id checked token) invalid_session
    user_id ← or_raise (p.parse_uuid (claim_text "sub" claims)) invalid_session
    auth_session ← (λ d. or_raise (get_session session_id d) invalid_session d)
    raise_if (session_refuses auth_session user_id claims now) invalid_session
    user ← (λ d. or_raise (get_user user_id d) invalid_session d)
    raise_if
        (not (is_active user.status)
          || not (str_eq (role_value user.role) (claim_text "role" claims)))
        invalid_session
    pure user

  -- `logout` ignores an absent and an empty token (for an access token both are `none`), and an
  -- access token that cannot be read.
  abbrev pub refresh_record : Option Text → Directory → Option AuthSession
  refresh_record none d = none
  refresh_record (some []) d = none
  refresh_record (some (c ∷ raw)) d = find_by (by_refresh_hash p (c ∷ raw)) d.sessions

  abbrev pub access_record : Option Token → (checked : Time) → Directory → Option AuthSession
  access_record none checked d = none
  access_record (some token) checked d = elim (read_session_id checked token) [
    | none ↦ none
    | some (id, claims) ↦ get_session id d
  ]

  pub logout : Option Token → Option Text → (checked now : Time) → Exec Directory (Unit {0})
  logout access_token refresh_token checked now d = (
    ok tt,
    revoke_record (access_record access_token checked d) now
        (revoke_record (refresh_record refresh_token d) now d),
  )
