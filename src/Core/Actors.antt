-- ===== src/Core/Actors.antt =====
-- server/src/superboss/core/actors.py: actors and the project authorization policies.
-- A frozenset is a list that is only asked for membership.
pub mod Access
use super_boss.Base.{
  Bool, true, false, Option, none, some, List, Uuid, not, ◌&&◌, ◌||◌, if◌then◌else◌,
}
use super_boss.Base.Lists.{any, contains}
use super_boss.Core.Errors.{forbidden, project_forbidden, project_create_forbidden}
use super_boss.Core.Exec.{Result, ok, err}

-- users/models.py
pub data Role : Type 0 where
  owner staff : Role

pub data ActorKind : Type 0 where
  user device system : ActorKind

-- the members of DEVICE_ACCESS_SCOPES, which are all that the database admits
pub data Scope : Type 0 where
  imports_create imports_read_own imports_submit imports_upload : Scope

abbrev pub scope_eq : Scope → Scope → Bool
scope_eq imports_create imports_create = true
scope_eq imports_read_own imports_read_own = true
scope_eq imports_submit imports_submit = true
scope_eq imports_upload imports_upload = true
scope_eq _ _ = false

abbrev pub has_scope : Scope → List Scope → Bool
has_scope s scopes = any (scope_eq s) scopes

pub record Actor : Type 0 where
  pub kind : ActorKind
  pub subject_id : Uuid
  pub role : Option Role
  pub project_ids : List Uuid
  pub scopes : List Scope

abbrev pub is_user : ActorKind → Bool
is_user user = true
is_user _ = false

abbrev pub is_device : ActorKind → Bool
is_device device = true
is_device _ = false

-- `actor.role == Role.OWNER`
abbrev pub is_owner : Option Role → Bool
is_owner (some owner) = true
is_owner _ = false

abbrev pub is_staff : Option Role → Bool
is_staff (some staff) = true
is_staff _ = false

abbrev pub no_role : Option Role → Bool
no_role none = true
no_role (some r) = false

unfoldable pub require_owner : Actor → Result (Unit {0})
require_owner actor =
    if not (is_user actor.kind) || not (is_owner actor.role)
    then err (forbidden project_create_forbidden)
    else ok tt

unfoldable pub require_project_access : Actor → Uuid → Result (Unit {0})
require_project_access actor project_id =
    if not (is_user actor.kind)
    then err (forbidden project_forbidden)
    else if is_owner actor.role
    then ok tt
    else if is_staff actor.role && contains project_id actor.project_ids
    then ok tt
    else err (forbidden project_forbidden)

unfoldable pub require_project_actor : Actor → Result (Unit {0})
require_project_actor actor =
    if not (is_user actor.kind) || not (is_owner actor.role || is_staff actor.role)
    then err (forbidden project_forbidden)
    else ok tt

-- The test that the import operations make of a device, by the scope that each needs.
unfoldable pub device_may : Actor → Uuid → Scope → Bool
device_may actor project_id scope =
    is_device actor.kind
    && (no_role actor.role
        && (contains project_id actor.project_ids && has_scope scope actor.scopes))
