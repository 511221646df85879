-- ===== src/Users/Service.antt =====
-- users/service.py: OwnerUserService. A denial is recorded in a transaction of its own, so that it
-- stays beside the error; what the session wrote does not. Names are ordered by the database.
pub mod Protection
pub mod Disabled
use super_boss.Base.{
  ℕ, Bool, true, false, Option, none, some, List, [], ◌∷◌, ◌++◌, map, String, Uuid, Time, Digest,
  not, ◌&&◌, ◌||◌, ◌==◌, leb, str_eq, opt_eq, is_some, if◌then◌else◌,
}
use super_boss.Base.Lists.{length, any, keep, contains}
use super_boss.Base.Rows.{find_by, update_where}
use super_boss.Base.Texts.{Text}
use super_boss.Core.Errors.{
  Error, forbidden, not_found, conflict, domain, owner_required, user_not_found, owner_protected,
  project_not_found, username_conflict, validation_error,
}
use super_boss.Core.Exec.{Exec, Result, ok, err, pure, raise, lift, gets, modify, ◌>>=◌, ◌>>◌}
use super_boss.Core.Actors.{Actor, Role, staff, owner, is_user, is_owner}
use super_boss.Core.Directory.{
  User, UserStatus, AuthSession, Project, ProjectMember, AuditLog, Meta, text, null, Directory,
  get_user, put_user, add_audit,
}
use super_boss.Core.Platform.{Platform}
use super_boss.Core.Security.{role_value}
use super_boss.Auth.Passwords.{hash_password}

-- `exclude_none` leaves out a field of `None`
pub record StaffUpdate : Type 0 where
  pub display_name : Option String
  pub status : Option UserStatus

pub record StaffCreate : Type 0 where
  pub username : String
  pub display_name : String
  pub project_ids : List Uuid

pub record OwnerUserView : Type 0 where
  pub id : Uuid
  pub username : String
  pub display_name : String
  pub role : Role
  pub status : UserStatus
  pub last_login_at : Option Time
  pub projects : List Project

pub record StaffCredentialResult : Type 0 where
  pub user : OwnerUserView
  pub temporary_password : Text

-- `new_temporary_password`, the salt of its hash, the new identifier and the clock
pub record StaffDraw : Type 0 where
  pub temporary_password : Text
  pub salt : ℕ
  pub id : Uuid
  pub now : Time

-- the actor, its request, whether there is an audit service, and the database's order of names
pub record Request : Type 0 where
  pub actor : Actor
  pub request_id : Uuid
  pub audited : Bool
  pub before : String → String → Bool

abbrev pub is_owner_row : User → Bool
is_owner_row u = is_owner (some u.role)

abbrev role_meta : Option Role → Meta
role_meta none = null
role_meta (some r) = text (role_value r)

abbrev evidence : Request → String → String → Option Uuid → List (String × Meta) → AuditLog
evidence q action outcome user_id metadata = record {
  actor_kind = q.actor.kind;
  actor_id = some q.actor.subject_id;
  action = action;
  object_type = "user";
  object_id = user_id;
  project_id = none;
  outcome = outcome;
  metadata = metadata ++ ("actor_role", role_meta q.actor.role) ∷ [];
  request_id = some q.request_id;
  event_key = none;
}

-- `_record` of a denial
pub record_denial : Request → String → Option Uuid → (reason : String) → Directory → Directory
record_denial q action user_id reason d =
    if q.audited
    then add_audit (evidence q action "DENIED" user_id (("reason", text reason) ∷ [])) d
    else d

-- a recorded denial, then `raise`
abbrev deny :
    {A : Type 0} → Request → String → Option Uuid → (reason : String) → Error → Exec Directory A
deny q action user_id reason e d = (err e, record_denial q action user_id reason d)

-- `_require_owner`
unfoldable pub require_owner_actor : Request → String → Option Uuid → Exec Directory (Unit {0})
require_owner_actor q action user_id d =
    if is_user q.actor.kind && is_owner q.actor.role
    then (ok tt, d)
    else deny q action user_id "OWNER_REQUIRED" (forbidden owner_required) d

abbrev staff_row : Request → String → Uuid → Option User → Exec Directory User
staff_row q action user_id none =
    deny q action (some user_id) "USER_NOT_FOUND" (not_found user_not_found)
staff_row q action user_id (some u) =
    if is_owner_row u
    then deny q action (some user_id) "OWNER_PROTECTED" (conflict owner_protected)
    else pure u

-- `_staff_for_update`
unfoldable pub staff_for_update : Request → String → Uuid → Exec Directory User
staff_for_update q action user_id =
    require_owner_actor q action (some user_id)
    >> (λ d. staff_row q action user_id (get_user user_id d) d)

abbrev pub insert_named : {A : Type 0} → (before : A → A → Bool) → A → List A → List A
insert_named before a [] = a ∷ []
insert_named before a (b ∷ rest) =
    let more = insert_named before a rest in if before b a then b ∷ more else a ∷ b ∷ rest

abbrev pub order_named : {A : Type 0} → (before : A → A → Bool) → List A → List A
order_named before [] = []
order_named before (a ∷ rest) = insert_named before a (order_named before rest)

abbrev project_before : Request → Project → Project → Bool
project_before q a b = q.before a.name b.name || (str_eq a.name b.name && leb a.id b.id)

abbrev is_member : Uuid → Directory → Project → Bool
is_member user_id d p =
    any (λ (m : ProjectMember). m.project_id == p.id && m.user_id == user_id) d.members

-- `_projects_for_user`
pub projects_for_user : Request → Uuid → Directory → List Project
projects_for_user q user_id d =
    order_named (project_before q) (keep (is_member user_id d) d.projects)

-- `_projects_for_update`, in the order of their identifiers
pub projects_for_update : List Uuid → Directory → List Project
projects_for_update project_ids d =
    order_named (λ a b. leb a.id b.id) (keep (λ p. contains p.id project_ids) d.projects)

-- `_replace_project_memberships`
pub replace_project_memberships : Uuid → List Uuid → Directory → Directory
replace_project_memberships user_id project_ids d = record d {
  members =
      keep (λ m. not (m.user_id == user_id)) d.members
      ++ map (λ project_id. record { project_id = project_id; user_id = user_id }) project_ids;
}

abbrev pub of_user : Uuid → AuthSession → Bool
of_user user_id s = opt_eq s.user_id (some user_id)

-- `_revoke_browser_sessions`
pub revoke_browser_sessions : Uuid → Time → Directory → Directory
revoke_browser_sessions user_id now d = record d {
  sessions =
      update_where (λ s. of_user user_id s && not (is_some s.revoked_at))
        (λ s. record s { revoked_at = some now }) d.sessions;
}

abbrev view_with : User → List Project → OwnerUserView
view_with u projects = record {
  id = u.id;
  username = u.username;
  display_name = u.display_name;
  role = u.role;
  status = u.status;
  last_login_at = u.last_login_at;
  projects = projects;
}

-- `_view`
abbrev view : Request → User → Directory → OwnerUserView
view q u d = view_with u (projects_for_user q u.id d)

pub list_users : Request → Exec Directory (List OwnerUserView)
list_users q = do
  require_owner_actor q "user.list" none
  gets (λ d. map (λ u. view q u d) (order_named (λ a b. q.before a.username b.username) d.users))

module _ {Token : Type 0} (p : Platform Token) where
  abbrev new_staff : StaffCreate → StaffDraw → Digest → User
  new_staff command draw password_hash = record {
    id = draw.id;
    username = command.username;
    display_name = command.display_name;
    password_hash = password_hash;
    must_change_password = true;
    password_changed_at = draw.now;
    failed_login_count = 0;
    locked_until = none;
    role = staff;
    status = UserStatus.active;
    last_login_at = none;
  }

  abbrev add_staff : StaffCreate → User → Directory → Directory
  add_staff command u d =
      replace_project_memberships u.id (order_named leb command.project_ids)
        (record d { users = d.users ++ u ∷ [] })

  -- The flush meets the unique constraint on user names.
  abbrev flush_staff :
      Request
      → StaffCreate
      → StaffDraw
      → List Project
      → Result Digest
      → Exec Directory StaffCredentialResult
  flush_staff q command draw projects (err e) d = (err e, d)
  flush_staff q command draw projects (ok password_hash) d =
      let u = new_staff command draw password_hash in
      if any (λ (v : User). str_eq v.username command.username) d.users
      then deny q "user.create" none "USERNAME_CONFLICT" (conflict username_conflict) d
      else (
        ok (record { user = view_with u projects; temporary_password = draw.temporary_password }),
        add_staff command u d,
      )

  abbrev create_in :
      Request → StaffCreate → StaffDraw → List Project → Exec Directory StaffCredentialResult
  create_in q command draw projects =
      if not (length projects == length command.project_ids)
      then deny q "user.create" none "PROJECT_NOT_FOUND" (not_found project_not_found)
      else flush_staff q command draw projects (hash_password p draw.salt draw.temporary_password)

  pub create_staff : Request → StaffCreate → StaffDraw → Exec Directory StaffCredentialResult
  create_staff q command draw =
      require_owner_actor q "user.create" none
      >> (λ d. create_in q command draw (projects_for_update command.project_ids d) d)

  abbrev is_empty_update : StaffUpdate → Bool
  is_empty_update command = not (is_some command.display_name) && not (is_some command.status)

  abbrev renamed : User → Option String → User
  renamed u none = u
  renamed u (some display_name) = record u { display_name = display_name }

  abbrev with_status : User → Option UserStatus → Time → Directory → Directory
  with_status u none now d = put_user u d
  with_status u (some UserStatus.active) now d =
      put_user (record u { status = UserStatus.active }) d
  with_status u (some UserStatus.disabled) now d =
      revoke_browser_sessions u.id now (put_user (record u { status = UserStatus.disabled }) d)

  abbrev status_of : User → Option UserStatus → User
  status_of u none = u
  status_of u (some s) = record u { status = s }

  abbrev updated : Request → StaffUpdate → Time → User → Exec Directory OwnerUserView
  updated q command now u d =
      if is_empty_update command
      then deny q "user.update" (some u.id) "EMPTY_UPDATE" (domain validation_error 422) d
      else let u' = renamed u command.display_name in
        let d' = with_status u' command.status now d in
        (ok (view q (status_of u' command.status) d'), d')

  unfoldable pub update_staff :
      Request → Uuid → StaffUpdate → (now : Time) → Exec Directory OwnerUserView
  update_staff q user_id command now =
      staff_for_update q "user.update" user_id >>= updated q command now

  abbrev replaced_with :
      Request → Uuid → List Uuid → User → List Project → Exec Directory OwnerUserView
  replaced_with q user_id project_ids u projects d =
      if not (length projects == length project_ids)
      then deny q "user.projects.replace" (some user_id) "PROJECT_NOT_FOUND"
          (not_found project_not_found) d
      else (
        ok (view_with u projects),
        replace_project_memberships u.id (order_named leb project_ids) d,
      )

  pub replace_projects : Request → Uuid → List Uuid → Exec Directory OwnerUserView
  replace_projects q user_id project_ids =
      staff_for_update q "user.projects.replace" user_id >>= λ u d.
      replaced_with q user_id project_ids u (projects_for_update project_ids d) d

  abbrev with_password : User → Digest → Time → User
  with_password u password_hash now = record u {
    password_hash = password_hash;
    password_changed_at = now;
    must_change_password = true;
    failed_login_count = 0;
    locked_until = none;
  }

  abbrev reset_to : StaffDraw → User → Result Digest → Exec Directory Text
  reset_to draw u (err e) d = (err e, d)
  reset_to draw u (ok password_hash) d = (
    ok draw.temporary_password,
    revoke_browser_sessions u.id draw.now (put_user (with_password u password_hash draw.now) d),
  )

  pub reset_staff_password : Request → Uuid → StaffDraw → Exec Directory Text
  reset_staff_password q user_id draw = staff_for_update q "user.password.reset" user_id >>= λ u.
      reset_to draw u (hash_password p draw.salt draw.temporary_password)

-- `commit_and_record_success`
pub commit_and_record_success : Request → String → Option Uuid → Directory → Directory
commit_and_record_success q action user_id = add_audit (evidence q action "SUCCESS" user_id [])
