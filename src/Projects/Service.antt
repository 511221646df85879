-- ===== src/Projects/Service.antt =====
-- projects/service.py: ProjectService. A denial is recorded in a transaction of its own.
pub mod Visibility
use super_boss.Base.{
  Bool, true, false, Option, none, some, List, [], ◌∷◌, ◌++◌, String, Uuid, not, ◌&&◌, ◌||◌, ◌==◌,
  str_eq, is_some, if◌then◌else◌,
}
use super_boss.Base.Lists.{any, keep}
use super_boss.Base.Rows.{find_by}
use super_boss.Core.Errors.{Error, not_found, conflict, project_not_found, project_name_conflict}
use super_boss.Core.Exec.{Exec, Result, ok, err}
use super_boss.Core.Actors.{
  Actor, Role, is_owner, require_owner, require_project_actor, require_project_access,
}
use super_boss.Core.Directory.{
  Project, ProjectMember, ProjectStatus, AuditLog, Meta, text, null, Directory, add_audit,
}
use super_boss.Core.Security.{role_value}
use super_boss.Users.Service.{order_named}

pub record ProjectCreate : Type 0 where
  pub name : String
  pub is_test : Bool

-- the actor and its request, whether there is an audit service, and the database's order of names
-- and `lower`
pub record Call : Type 0 where
  pub actor : Actor
  pub request_id : Option Uuid
  pub audited : Bool
  pub before : String → String → Bool
  pub lower : String → String

abbrev role_text : Option Role → Meta
role_text none = null
role_text (some r) = text (role_value r)

abbrev event : Call → String → String → Option Uuid → Uuid → AuditLog
event c action outcome project_id request_id = record {
  actor_kind = c.actor.kind;
  actor_id = some c.actor.subject_id;
  action = action;
  object_type = "project";
  object_id = project_id;
  project_id = project_id;
  outcome = outcome;
  metadata = ("actor_role", role_text c.actor.role) ∷ [];
  request_id = some request_id;
  event_key = none;
}

abbrev recorded : Call → String → String → Option Uuid → Option Uuid → Directory → Directory
recorded c action outcome project_id none d = d
recorded c action outcome project_id (some request_id) d =
    if not c.audited then d else add_audit (event c action outcome project_id request_id) d

-- `_record`
pub record_event : Call → String → (outcome : String) → Option Uuid → Directory → Directory
record_event c action outcome project_id = recorded c action outcome project_id c.request_id

-- `except ForbiddenError`: the denial is recorded, and the error raised again
abbrev denied :
    {A : Type 0}
    → Call
    → String
    → Option Uuid
    → Result (Unit {0})
    → Exec Directory A
    → Exec Directory A
denied c action project_id (err e) m d = (err e, record_event c action "DENIED" project_id d)
denied c action project_id (ok u) m d = m d

abbrev new_project : ProjectCreate → Uuid → Project
new_project command id = record {
  id = id;
  name = command.name;
  is_test = command.is_test;
  status = ProjectStatus.active;
}

-- the unique index on `lower(name)`
abbrev is_taken : Call → String → Directory → Bool
is_taken c name d = any (λ (p : Project). str_eq (c.lower p.name) (c.lower name)) d.projects

abbrev flush_project : Call → Project → Exec Directory Project
flush_project c p d =
    if is_taken c p.name d
    then (err (conflict project_name_conflict), d)
    else (ok p, record d { projects = d.projects ++ p ∷ [] })

-- `create`; `id` is the identifier of the new row
pub create_project : Call → ProjectCreate → (id : Uuid) → Exec Directory Project
create_project c command id =
    denied c "project.create" none (require_owner c.actor)
      (flush_project c (new_project command id))

abbrev is_member : Uuid → Directory → Project → Bool
is_member user_id d p =
    any (λ (m : ProjectMember). m.project_id == p.id && m.user_id == user_id) d.members

abbrev pub visible : Call → Directory → Project → Bool
visible c d p = is_owner c.actor.role || is_member c.actor.subject_id d p

-- `list`
unfoldable pub list_projects : Call → Exec Directory (List Project)
list_projects c =
    denied c "project.list" none (require_project_actor c.actor)
      (λ d. (ok (order_named (λ a b. c.before a.name b.name) (keep (visible c d) d.projects)), d))

abbrev accessible : Call → Uuid → Option Project → Exec Directory Project
accessible c project_id none = λ d. (err (not_found project_not_found), d)
accessible c project_id (some p) =
    denied c "project.read" (some project_id) (require_project_access c.actor project_id)
      (λ d. (ok p, d))

-- `get`
pub get_project : Call → Uuid → Exec Directory Project
get_project c project_id =
    denied c "project.read" (some project_id) (require_project_actor c.actor)
      (λ d. accessible c project_id (find_by (λ (p : Project). p.id == project_id) d.projects) d)

-- `commit_and_record_success`
pub commit_and_record_project : Call → String → Option Uuid → Directory → Directory
commit_and_record_project c action = record_event c action "SUCCESS"
