-- ===== src/Imports/Reading.antt =====
-- imports/service.py: the upload behind an attachment, and the reading of a job, which reconciles
-- its files first. What other transactions commit in between is an argument.
use super_boss.Base.{
  Bool, Option, none, some, List, [], ◌∷◌, map, String, Uuid, Time, not, ◌&&◌, ◌==◌, leb,
  if◌then◌else◌,
}
use super_boss.Base.Lists.{contains, keep}
use super_boss.Base.Rows.{find_by}
use super_boss.Core.Errors.{
  forbidden, not_found, runtime_error, import_upload_forbidden, import_attachment_not_found,
  import_read_forbidden, import_job_not_found,
}
use super_boss.Core.Exec.{Exec, Result, ok, err, pure, modify, ◌>>=◌, ◌>>◌}
use super_boss.Core.Actors.{Actor, imports_upload, imports_read_own}
use super_boss.Files.Vault.{File, FileState}
use super_boss.Imports.Jobs.{
  ImportJob, ImportAttachment, ImportTables, AttachmentKind, get_job, job_attachments,
}
use super_boss.Imports.Evaluation.{ImportTools}
use super_boss.Imports.Service.{deny_job, deny_attachment, device_has, own_job, reconcile_file}

-- `_AttachmentUploadTarget`
pub record AttachmentUploadTarget : Type 0 where
  pub project_id : Uuid
  pub upload_id : Uuid

pub record ImportAttachmentView : Type 0 where
  pub id : Uuid
  pub file_id : Uuid
  pub upload_id : Uuid
  pub kind : AttachmentKind
  pub file_state : FileState

-- `ImportJobView`; the columns that it copies are those of its row.
pub record ImportJobView : Type 0 where
  pub job : ImportJob
  pub attachments : List ImportAttachmentView

abbrev matching_attachment : ImportJob → Uuid → ImportAttachment → Bool
matching_attachment job attachment_id a =
    a.id == attachment_id && (a.job_id == job.id && a.project_id == job.project_id)

abbrev matching_file : ImportAttachment → File → Bool
matching_file a f = f.id == a.file_id && (f.project_id == a.project_id && f.id == a.upload_id)

abbrev with_file : ImportTables → ImportJob → Option ImportAttachment → Option (ImportJob × Uuid)
with_file t job none = none
with_file t job (some a) = elim (find_by (matching_file a) t.files) [
  | none ↦ none
  | some f ↦ some (job, a.upload_id)
]

abbrev with_attachment : ImportTables → Uuid → Option ImportJob → Option (ImportJob × Uuid)
with_attachment t attachment_id none = none
with_attachment t attachment_id (some job) =
    with_file t job (find_by (matching_attachment job attachment_id) t.attachments)

-- the join of a job, an attachment of it and that attachment's file
unfoldable pub joined : ImportTables → (job_id attachment_id : Uuid) → Option (ImportJob × Uuid)
joined t job_id attachment_id = with_attachment t attachment_id (get_job job_id t)

abbrev pub own_row : Actor → Option (ImportJob × Uuid) → Option (ImportJob × Uuid)
own_row actor none = none
own_row actor (some (job, upload_id)) =
    if job.device_id == actor.subject_id then some (job, upload_id) else none

module _ (tools : ImportTools) (actor : Actor) (job_id : Uuid) where
  abbrev upload_target :
      (attachment_id : Uuid)
      → String
      → Uuid
      → Option (ImportJob × Uuid)
      → Exec ImportTables AttachmentUploadTarget
  upload_target attachment_id action request_id none =
      deny_attachment tools actor action job_id attachment_id none request_id
        (not_found import_attachment_not_found)
  upload_target attachment_id action request_id (some (job, upload_id)) =
      if not (contains job.project_id actor.project_ids)
      then deny_attachment tools actor action job_id attachment_id (some job.project_id) request_id
          (forbidden import_upload_forbidden)
      else pure (record { project_id = job.project_id; upload_id = upload_id })

  -- `_resolve_attachment_upload`
  unfoldable pub resolve_attachment_upload :
      (attachment_id : Uuid)
      → (action : String) → (request_id : Uuid) → Exec ImportTables AttachmentUploadTarget
  resolve_attachment_upload attachment_id action request_id t =
      if not (device_has actor imports_upload)
      then deny_attachment tools actor action job_id attachment_id none request_id
          (forbidden import_upload_forbidden) t
      else upload_target attachment_id action request_id
          (own_row actor (joined t job_id attachment_id)) t

abbrev pub viewed :
    ImportAttachment
    → Option File
    → Result (List ImportAttachmentView)
    → Result (List ImportAttachmentView)
viewed a none rest = err runtime_error
viewed a (some f) (err e) = err e
viewed a (some f) (ok views) = ok (
    record {
      id = a.id;
      file_id = a.file_id;
      upload_id = a.upload_id;
      kind = a.kind;
      file_state = f.state;
    }
    ∷ views)

abbrev pub attachment_views :
    ImportTables → List ImportAttachment → Result (List ImportAttachmentView)
attachment_views t [] = ok []
attachment_views t (a ∷ rest) =
    viewed a (find_by (λ (f : File). f.id == a.file_id) t.files) (attachment_views t rest)

abbrev pub with_views : ImportJob → Result (List ImportAttachmentView) → Result ImportJobView
with_views job (err e) = err e
with_views job (ok views) = ok (record { job = job; attachments = views })

-- `_job_view`
unfoldable pub job_view : ImportTables → ImportJob → Result ImportJobView
job_view t job = with_views job (attachment_views t (job_attachments job.id t))

abbrev insert_id : Uuid → List Uuid → List Uuid
insert_id id [] = id ∷ []
insert_id id (x ∷ rest) =
    let more = insert_id id rest in if leb id x then id ∷ x ∷ rest else x ∷ more

abbrev order_ids : List Uuid → List Uuid
order_ids [] = []
order_ids (id ∷ rest) = insert_id id (order_ids rest)

module _ (tools : ImportTools) (actor : Actor) (job_id request_id : Uuid) where
  abbrev may_read : Option ImportJob → Exec ImportTables ImportJob
  may_read none =
      deny_job tools actor "import.read" job_id none request_id (not_found import_job_not_found)
  may_read (some job) =
      if not (contains job.project_id actor.project_ids)
      then deny_job tools actor "import.read" job_id (some job.project_id) request_id
          (forbidden import_read_forbidden)
      else pure job

  reconcile_all : List Uuid → (ImportTables → ImportTables) → Time → ImportTables → ImportTables
  reconcile_all [] meanwhile now t = t
  reconcile_all (id ∷ rest) meanwhile now t =
      reconcile_all rest meanwhile now (reconcile_file tools id meanwhile now t)

  abbrev same_project : Uuid → Option ImportJob → Option ImportJob
  same_project project_id none = none
  same_project project_id (some job) = if job.project_id == project_id then some job else none

  abbrev reread : (project_id : Uuid) → Option ImportJob → Exec ImportTables ImportJobView
  reread project_id none t =
      deny_job tools actor "import.read" job_id (some project_id) request_id
        (not_found import_job_not_found) t
  reread project_id (some job) t =
      if not (contains job.project_id actor.project_ids)
      then deny_job tools actor "import.read" job_id (some project_id) request_id
          (forbidden import_read_forbidden) t
      else (job_view t job, t)

  -- `read`; `meanwhile` is what other transactions commit after each of its own.
  pub read : (meanwhile : ImportTables → ImportTables) → Time → Exec ImportTables ImportJobView
  read meanwhile now t =
      if not (device_has actor imports_read_own)
      then deny_job tools actor "import.read" job_id none request_id
          (forbidden import_read_forbidden) t
      else (do
        job ← (λ s. may_read (own_job actor (get_job job_id s)) s)
        modify (λ s.
            reconcile_all
              (order_ids (map (λ a. a.file_id) (keep (λ a. a.job_id == job.id) s.attachments)))
              meanwhile now s)
        (λ s.
            reread job.project_id (same_project job.project_id (own_job actor (get_job job_id s)))
              s))
          t
