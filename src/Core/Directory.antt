-- ===== src/Core/Directory.antt =====
-- The identity tables: users/models.py, auth/models.py, projects/models.py and audit/models.py.
-- A unit of work holds them as one value; a row's columns keep their names.
use super_boss.Base.{
  ℕ, Bool, true, false, Option, List, ◌∷◌, [], ◌++◌, String, Uuid, Time, Digest, ◌==◌,
}
use super_boss.Base.Rows.{find_by, save}
use super_boss.Core.Actors.{Role, ActorKind}

pub data UserStatus : Type 0 where
  active disabled : UserStatus

abbrev pub is_active : UserStatus → Bool
is_active active = true
is_active disabled = false

pub record User : Type 0 where
  pub id : Uuid
  pub username : String
  pub display_name : String
  pub password_hash : Digest
  pub must_change_password : Bool
  pub password_changed_at : Time
  pub failed_login_count : ℕ
  pub locked_until : Option Time
  pub role : Role
  pub status : UserStatus
  pub last_login_at : Option Time

pub data SessionKind : Type 0 where
  user device : SessionKind

abbrev pub is_user_session : SessionKind → Bool
is_user_session user = true
is_user_session device = false

pub record AuthSession : Type 0 where
  pub id : Uuid
  pub kind : SessionKind
  pub user_id : Option Uuid
  pub device_id : Option Uuid
  pub access_jti : String
  pub refresh_token_hash : Digest
  pub access_expires_at : Time
  pub refresh_expires_at : Time
  pub refresh_used_at : Option Time
  pub revoked_at : Option Time
  pub created_at : Time

pub data ProjectStatus : Type 0 where
  active archived : ProjectStatus

pub record Project : Type 0 where
  pub id : Uuid
  pub name : String
  pub is_test : Bool
  pub status : ProjectStatus

pub record ProjectMember : Type 0 where
  pub project_id : Uuid
  pub user_id : Uuid

-- a JSON value in the metadata of an audit row
pub data Meta : Type 0 where
  text : String → Meta
  text_list : List String → Meta
  number : ℕ → Meta
  null : Meta

pub record AuditLog : Type 0 where
  pub actor_kind : ActorKind
  pub actor_id : Option Uuid
  pub action : String
  pub object_type : String
  pub object_id : Option Uuid
  pub project_id : Option Uuid
  pub outcome : String
  pub metadata : List (String × Meta)
  pub request_id : Option Uuid
  pub event_key : Option Uuid

pub record Directory : Type 0 where
  pub users : List User
  pub sessions : List AuthSession
  pub projects : List Project
  pub members : List ProjectMember
  pub audit : List AuditLog

abbrev pub user_key : User → ℕ
user_key u = u.id

abbrev pub session_key : AuthSession → ℕ
session_key s = s.id

-- `session.get(User, id)`
abbrev pub get_user : Uuid → Directory → Option User
get_user id d = find_by (λ u. u.id == id) d.users

abbrev pub get_session : Uuid → Directory → Option AuthSession
get_session id d = find_by (λ s. s.id == id) d.sessions

abbrev pub put_user : User → Directory → Directory
put_user u d = record d { users = save user_key u d.users }

abbrev pub put_session : AuthSession → Directory → Directory
put_session s d = record d { sessions = save session_key s d.sessions }

abbrev pub add_session : AuthSession → Directory → Directory
add_session s d = record d { sessions = d.sessions ++ s ∷ [] }

-- `session.add(AuditLog(…))`
abbrev pub add_audit : AuditLog → Directory → Directory
add_audit a d = record d { audit = d.audit ++ a ∷ [] }
