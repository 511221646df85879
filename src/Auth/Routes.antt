-- ===== src/Auth/Routes.antt =====
-- server/src/superboss/modules/auth/router.py: what each request commits. The dependency
-- `get_session` commits when the handler returns and rolls back when it raises; a handler that
-- commits before it raises keeps what it wrote. Cookies are the returned pair.
pub mod Replay
use super_boss.Base.{
  ℕ, Bool, true, false, Option, none, some, List, [], ◌∷◌, ◌++◌, String, Uuid, Time, ◌==◌,
}
use super_boss.Base.Rows.{find_by}
use super_boss.Base.Texts.{Text}
use super_boss.Core.Errors.{
  Error, LoginReason, invalid_credentials, locked, unauthenticated, authentication_failed,
  invalid_session, login_failure,
}
use super_boss.Core.Exec.{Result, ok, err, Exec}
use super_boss.Core.Platform.{Platform}
use super_boss.Core.Actors.{Role, owner, staff, ActorKind, user, system}
use super_boss.Core.Security.{role_value}
use super_boss.Core.Directory.{Directory, User, AuditLog, Meta, text, null, get_user, add_audit}
use super_boss.Auth.Service.{
  Draw, Settings, SessionPair, CompletedLogin, login, rotate_refresh_token,
  authenticate_access_token, change_password, logout,
}

abbrev role_meta : Option Role → Meta
role_meta none = null
role_meta (some r) = text (role_value r)

abbrev reason_meta : LoginReason → Meta
reason_meta invalid_credentials = text "INVALID_CREDENTIALS"
reason_meta locked = text "LOCKED"

-- `_stage_auth_audit`
auth_event :
    ActorKind
    → Uuid
    → Option Role
    → (action : String) → Option Uuid
    → (outcome : String) → (request_id : Uuid) → List (String × Meta)
    → AuditLog
auth_event kind actor_id role action object_id outcome request_id metadata = record {
  actor_kind = kind;
  actor_id = some actor_id;
  action = action;
  object_type = "user";
  object_id = object_id;
  project_id = none;
  outcome = outcome;
  metadata = metadata ++ ("actor_role", role_meta role) ∷ [];
  request_id = some request_id;
  event_key = none;
}

-- the event of a completed login or password change, whose actor is the user
pub success_event : String → User → (request_id : Uuid) → AuditLog
unfolding auth_event
success_event action u request_id =
    auth_event user u.id (some u.role) action (some u.id) "SUCCESS" request_id []

-- `failure.user` is the row that the service read; `_failure_actor` is the system without one.
pub failure_event : String → Option User → LoginReason → (request_id : Uuid) → AuditLog
unfolding auth_event
failure_event action none reason request_id =
    auth_event system 0 none action none "DENIED" request_id (("reason", reason_meta reason) ∷ [])
failure_event action (some u) reason request_id =
    auth_event user u.id (some u.role) action (some u.id) "DENIED" request_id
      (("reason", reason_meta reason) ∷ [])

abbrev failed_user : Option Uuid → Directory → Option User
failed_user none d = none
failed_user (some id) d = get_user id d

module _ {Token : Type 0} (p : Platform Token) (settings : Settings) where
  -- Both handlers end a service call alike: `before` is what a rollback returns to.
  abbrev settle :
      String
      → (request_id : Uuid) → (before : Directory) → Result (CompletedLogin Token) × Directory
      → Result (SessionPair Token) × Directory
  settle action request_id before (ok done, d) =
      (ok done.pair, add_audit (success_event action done.user request_id) d)
  settle action request_id before (err (login_failure who reason), d) = (
    err authentication_failed,
    add_audit (failure_event action (failed_user who d) reason request_id) d,
  )
  settle action request_id before (err invalid_session, d) = (err unauthenticated, before)
  settle action request_id before (err e, d) = (err e, before)

  pub login_route :
      String
      → Text
      → (now : Time) → (salt : ℕ) → Draw
      → (request_id : Uuid) → Exec Directory (SessionPair Token)
  login_route username password now salt draw request_id d =
      settle "auth.login" request_id d (login p settings username password now salt draw d)

  abbrev refreshed :
      (before : Directory)
      → Result (SessionPair Token) × Directory
      → Result (SessionPair Token) × Directory
  refreshed before (ok pair, d) = (ok pair, d)
  refreshed before (err invalid_session, d) = (err unauthenticated, before)
  refreshed before (err e, d) = (err e, before)

  unfoldable pub refresh_route : Text → (now : Time) → Draw → Exec Directory (SessionPair Token)
  refresh_route raw now draw d = refreshed d (rotate_refresh_token p settings raw now draw d)

  abbrev change_as :
      Text
      → Text
      → (now : Time) → (salt : ℕ) → Draw
      → (request_id : Uuid) → (before : Directory) → Result User × Directory
      → Result (SessionPair Token) × Directory
  change_as current new now salt draw request_id before (err invalid_session, d) =
      (err unauthenticated, before)
  change_as current new now salt draw request_id before (err e, d) = (err e, before)
  change_as current new now salt draw request_id before (ok u, d) =
      settle "auth.password.change" request_id before
        (change_password p settings u.id current new now salt draw d)

  pub change_route :
      Option Token
      → Text
      → Text
      → (checked now : Time) → (salt : ℕ) → Draw
      → (request_id : Uuid) → Exec Directory (SessionPair Token)
  change_route none current new checked now salt draw request_id d = (err unauthenticated, d)
  change_route (some token) current new checked now salt draw request_id d =
      change_as current new now salt draw request_id d
        (authenticate_access_token p settings token checked now d)

  pub logout_route : Option Token → Option Text → (checked now : Time) → Exec Directory (Unit {0})
  logout_route access refresh checked now d = logout p settings access refresh checked now d

-- A request to these routes, with what it draws. A request that raises nothing else returns.
pub data Request (Token : Type 0) : Type 0 where
  logs_in : String → Text → (now salt : ℕ) → Draw → (request_id : Uuid) → Request Token
  refreshes : Text → (now : Time) → Draw → Request Token
  changes :
      Option Token
      → Text
      → Text
      → (checked now salt : ℕ) → Draw
      → (request_id : Uuid) → Request Token
  logs_out : Option Token → Option Text → (checked now : Time) → Request Token

module _ {Token : Type 0} (p : Platform Token) (settings : Settings) where
  -- the tables after a request
  pub serve : Request Token → Directory → Directory
  serve (logs_in username password now salt draw request_id) d =
      (login_route p settings username password now salt draw request_id d).1
  serve (refreshes raw now draw) d = (refresh_route p settings raw now draw d).1
  serve (changes token current new checked now salt draw request_id) d =
      (change_route p settings token current new checked now salt draw request_id d).1
  serve (logs_out access refresh checked now) d =
      (logout_route p settings access refresh checked now d).1

  pub serve_all : List (Request Token) → Directory → Directory
  serve_all [] d = d
  serve_all (r ∷ rest) d = serve_all rest (serve r d)
