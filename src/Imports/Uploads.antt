-- ===== src/Imports/Uploads.antt =====
-- imports/service.py: what a device does to the attachments of its job, by the file service behind
-- them, and the views that the routes render.
pub mod Access
use super_boss.Base.{
  ℕ, Bool, true, false, Option, none, some, List, [], ◌∷◌, ◌++◌, String, Uuid, Time, not, ◌&&◌,
  ◌||◌, ◌==◌, ltb, leb, if◌then◌else◌,
}
use super_boss.Base.Lists.{take}
use super_boss.Base.Rows.{find_by}
use super_boss.Base.Texts.{Text}
use super_boss.Core.Errors.{
  forbidden, not_found, value_error, owner_required, import_job_not_found,
  import_attachment_not_found,
}
use super_boss.Core.Exec.{Exec, Result, ok, err, ◌>>=◌, ◌>>◌}
use super_boss.Core.Actors.{Actor, is_user, is_owner}
use super_boss.Core.Directory.{AuditLog, text}
use super_boss.Files.Vault.{File, Work, CompletedPart}
use super_boss.Files.Complete.{Signer, presign_part, complete_upload}
use super_boss.Imports.Jobs.{ImportJob, ImportAttachment, ImportTables, get_job}
use super_boss.Imports.Evaluation.{ImportTools}
use super_boss.Imports.Service.{role_meta}
use super_boss.Imports.Reading.{
  AttachmentUploadTarget, ImportAttachmentView, ImportJobView, resolve_attachment_upload, job_view,
}
use super_boss.Imports.Create.{ImportWork, tables_of}

-- a method of the import service on the committed tables, which its audit rows change
abbrev put_tables : ImportTables → ImportWork → ImportWork
put_tables t w = record w {
  jobs = t.jobs;
  attachments = t.attachments;
  files = record w.files {
    durable = record w.files.durable { files = t.files; audit = t.audit };
    pending = record w.files.durable { files = t.files; audit = t.audit };
  };
}

abbrev pub on_tables : {A : Type 0} → Exec ImportTables A → Exec ImportWork A
on_tables m w = let done = m (tables_of w) in (done.0, put_tables done.1 w)

abbrev pub on_files : {A : Type 0} → Exec Work A → Exec ImportWork A
on_files m w =
    let done = m (record w.files { pending = w.files.durable }) in
    (done.0, record w { files = done.1 })

module _ (tools : ImportTools) (actor : Actor) (job_id attachment_id request_id : Uuid) where
  -- `presign_part`
  pub presign_import_part : Signer → (part_number : ℕ) → Exec ImportWork Text
  presign_import_part signer part_number =
      on_tables (
        resolve_attachment_upload tools actor job_id attachment_id "import.attachment.part_url"
          request_id)
      >>= λ target. on_files (presign_part signer actor target.upload_id part_number true)

  -- `complete_attachment`; `answer` is the size that the storage reports.
  unfoldable pub complete_import_attachment :
      List CompletedPart → Time → (answer : Option ℕ) → Exec ImportWork File
  complete_import_attachment parts now answer =
      on_tables (
        resolve_attachment_upload tools actor job_id attachment_id "import.attachment.complete"
          request_id)
      >>= λ target.
          on_files (complete_upload actor target.upload_id parts (some request_id) true now answer)

abbrev viewed_job : ImportTables → Option ImportJob → Result ImportJobView
viewed_job t none = err (not_found import_job_not_found)
viewed_job t (some job) = job_view t job

pub view_job : Uuid → ImportTables → Result ImportJobView
view_job job_id t = viewed_job t (get_job job_id t)

abbrev viewed_with : ImportAttachment → Option File → Result ImportAttachmentView
viewed_with a none = err (not_found import_attachment_not_found)
viewed_with a (some f) = ok (record {
  id = a.id;
  file_id = a.file_id;
  upload_id = a.upload_id;
  kind = a.kind;
  file_state = f.state;
})

abbrev viewed_attachment : ImportTables → Option ImportAttachment → Result ImportAttachmentView
viewed_attachment t none = err (not_found import_attachment_not_found)
viewed_attachment t (some a) =
    viewed_with a
      (find_by (λ (f : File). f.id == a.file_id && f.project_id == a.project_id) t.files)

pub view_attachment : (job_id attachment_id : Uuid) → ImportTables → Result ImportAttachmentView
view_attachment job_id attachment_id t =
    viewed_attachment t (
      find_by (λ (a : ImportAttachment). a.job_id == job_id && a.id == attachment_id) t.attachments)

-- `created_at.desc(), id.desc()`
abbrev newer : ImportJob → ImportJob → Bool
newer a b = ltb b.created_at a.created_at || (a.created_at == b.created_at && leb b.id a.id)

abbrev insert_newest : ImportJob → List ImportJob → List ImportJob
insert_newest a [] = a ∷ []
insert_newest a (b ∷ rest) =
    let more = insert_newest a rest in if newer a b then a ∷ b ∷ rest else b ∷ more

abbrev pub newest_first : List ImportJob → List ImportJob
newest_first [] = []
newest_first (a ∷ rest) = insert_newest a (newest_first rest)

abbrev put_view : Result ImportJobView → Result (List ImportJobView) → Result (List ImportJobView)
put_view (err e) rest = err e
put_view (ok v) (err e) = err e
put_view (ok v) (ok vs) = ok (v ∷ vs)

-- `_job_views`, one job at a time
abbrev job_views : ImportTables → List ImportJob → Result (List ImportJobView)
job_views t [] = ok []
job_views t (job ∷ rest) = put_view (job_view t job) (job_views t rest)

abbrev list_denial : Actor → Uuid → AuditLog
list_denial actor request_id = record {
  actor_kind = actor.kind;
  actor_id = some actor.subject_id;
  action = "import.list";
  object_type = "import_job";
  object_id = none;
  project_id = none;
  outcome = "DENIED";
  metadata = ("reason", text "OWNER_REQUIRED") ∷ ("actor_role", role_meta actor.role) ∷ [];
  request_id = some request_id;
  event_key = none;
}

-- `list_owner`; a view has its whole job, of which the owner sees some columns.
pub list_owner : Actor → (limit : ℕ) → (request_id : Uuid) → Exec ImportTables (List ImportJobView)
list_owner actor limit request_id t =
    if not (is_user actor.kind) || not (is_owner actor.role)
    then (
      err (forbidden owner_required),
      record t { audit = t.audit ++ list_denial actor request_id ∷ [] },
    )
    else if not (leb 1 limit && leb limit 100)
    then (err value_error, t)
    else (job_views t (take limit (newest_first t.jobs)), t)
