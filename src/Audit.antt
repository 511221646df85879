-- ===== src/Audit.antt =====
-- server/src/superboss/modules/audit/service.py: an event is written once for its key.
pub mod Events
pub mod Keys
use super_boss.Base.{
  ℕ, Bool, true, false, Option, none, some, List, [], ◌∷◌, ◌++◌, String, not, ◌&&◌, ◌==◌, str_eq,
  opt_eq, is_some, if◌then◌else◌,
}
use super_boss.Base.Lists.{all, length}
use super_boss.Base.Rows.{find_by}
use super_boss.Core.Errors.{runtime_error}
use super_boss.Core.Exec.{Result, ok, err}
use super_boss.Core.Actors.{ActorKind, user, device, system}
use super_boss.Core.Directory.{AuditLog, Meta, text, text_list, number, null}

abbrev kind_eq : ActorKind → ActorKind → Bool
kind_eq user user = true
kind_eq device device = true
kind_eq system system = true
kind_eq _ _ = false

abbrev list_eq : List String → List String → Bool
list_eq [] [] = true
list_eq (s ∷ ss) (t ∷ ts) = str_eq s t && list_eq ss ts
list_eq _ _ = false

abbrev meta_eq : Meta → Meta → Bool
meta_eq (text s) (text t) = str_eq s t
meta_eq (text_list s) (text_list t) = list_eq s t
meta_eq (number m) (number n) = m == n
meta_eq null null = true
meta_eq _ _ = false

abbrev has_entry : String → Meta → List (String × Meta) → Bool
has_entry k v [] = false
has_entry k v ((j, w) ∷ rest) = if str_eq j k then meta_eq w v else has_entry k v rest

abbrev all_in : List (String × Meta) → List (String × Meta) → Bool
all_in [] other = true
all_in ((k, v) ∷ rest) other = has_entry k v other && all_in rest other

-- equality of two dicts
abbrev metadata_eq : List (String × Meta) → List (String × Meta) → Bool
metadata_eq a b = length a == length b && all_in a b

-- `_same_event`
unfoldable pub same_event : AuditLog → AuditLog → Bool
same_event existing row =
    kind_eq existing.actor_kind row.actor_kind
    && (opt_eq existing.actor_id row.actor_id
        && (str_eq existing.action row.action
            && (str_eq existing.object_type row.object_type
                && (opt_eq existing.object_id row.object_id
                    && (opt_eq existing.project_id row.project_id
                        && (str_eq existing.outcome row.outcome
                            && (opt_eq existing.request_id row.request_id
                                && metadata_eq existing.metadata row.metadata)))))))

abbrev reused : AuditLog → List AuditLog → Option AuditLog → Result (List AuditLog)
reused row rows none = ok (rows ++ row ∷ [])
reused row rows (some existing) =
    if not (same_event existing row) then err runtime_error else ok rows

abbrev pub has_key : Option ℕ → AuditLog → Bool
has_key key row = opt_eq row.event_key key

-- `write_audit`: the rows after it
unfoldable pub write_audit : AuditLog → List AuditLog → Result (List AuditLog)
write_audit row rows =
    if not (is_some row.event_key)
    then ok (rows ++ row ∷ [])
    else reused row rows (find_by (has_key row.event_key) rows)
