-- ===== src/Imports/Create.antt =====
-- imports/service.py: the creation of a job around the uploads of its attachments. Each upload and
-- the job have transactions of their own; what other requests commit in between is an argument.
pub mod Again
use super_boss.Base.{
  ℕ, Bool, true, false, Option, none, some, List, [], ◌∷◌, ◌++◌, map, String, Uuid, Time, Digest,
  not, ◌&&◌, ◌||◌, ◌==◌, str_eq, ltb, leb, if◌then◌else◌,
}
use super_boss.Base.Lists.{length, any, all, contains}
use super_boss.Base.Rows.{find_by}
use super_boss.Base.Texts.{Text, codes, text_eq, join}
use super_boss.Core.Errors.{
  Error, Code, forbidden, conflict, value_error, integrity_error, import_create_forbidden,
  import_idempotency_conflict, file_upload_conflict, code_text,
}
use super_boss.Core.Exec.{Exec, Result, ok, err, pure, raise, lift, modify, raise_if, ◌>>=◌, ◌>>◌}
use super_boss.Core.Actors.{Actor, imports_create, device_may}
use super_boss.Core.Directory.{AuditLog, Meta, text, text_list, number, null}
use super_boss.Files.Vault.{File, Tables, Work}
use super_boss.Files.Upload.{UploadStart, TextTools, Answers, start_import_upload}
use super_boss.Imports.Jobs.{
  ImportJob, ImportAttachment, ImportTables, ImportJobResult, AttachmentKind, original, revised,
  k3_raw, ImportStatus, job_result,
}
use super_boss.Imports.Service.{role_meta}
use super_boss.Imports.Schemas.{ImportJobCreate, AttachmentDeclaration}
use super_boss.Connector.Outbox.{Stamp}

-- what the import service reads and writes: its own tables, and the files behind their work
pub record ImportWork : Type 0 where
  pub jobs : List ImportJob
  pub attachments : List ImportAttachment
  pub files : Work

-- hashlib, uuid and json
pub record CreateTools : Type 0 where
  pub texts : TextTools
  pub manifest_bytes : ImportJobCreate → Text
  pub digest_of : Text → Digest
  pub date_text : Stamp → Text
  pub uuid5 : Text → Uuid
  pub id_text : Uuid → Text
  pub digest_meta : Digest → String

-- what one upload draws and is answered
pub record UploadDraw : Type 0 where
  pub file_id : Uuid
  pub meanwhile : Tables → Tables
  pub answers : Answers

pub record CreateDraw : Type 0 where
  pub uploads : AttachmentKind → UploadDraw
  pub job_id : Uuid
  pub attachment_id : AttachmentKind → Uuid
  pub now : Time
  pub request_id : Uuid
  pub meanwhile : ImportWork → ImportWork

abbrev pub tables_of : ImportWork → ImportTables
tables_of w = record {
  jobs = w.jobs;
  attachments = w.attachments;
  files = w.files.durable.files;
  audit = w.files.durable.audit;
}

-- `_validate_idempotency_key`
abbrev pub is_valid_key : Text → Bool
is_valid_key key =
    (leb 1 (length key) && leb (length key) 255) && all (λ c. leb 33 c && leb c 126) key

abbrev pub kind_value : AttachmentKind → String
kind_value original = "ORIGINAL"
kind_value revised = "REVISED"
kind_value k3_raw = "K3_RAW"

-- rows of the audit table, committed with the files' transaction or on their own
abbrev add_row : AuditLog → ImportWork → ImportWork
add_row row w = record w {
  files = record w.files {
    durable = record w.files.durable { audit = w.files.durable.audit ++ row ∷ [] };
    pending = record w.files.durable { audit = w.files.durable.audit ++ row ∷ [] };
  };
}

abbrev import_error : Error → Error
import_error (conflict file_upload_conflict) = conflict import_idempotency_conflict
import_error e = e

abbrev renamed : {A : Type 0} → Result A × ImportWork → Result A × ImportWork
renamed (ok a, w) = (ok a, w)
renamed (err e, w) = (err (import_error e), w)

module _ (tools : CreateTools) (actor : Actor) where
  abbrev pub manifest_fingerprint : ImportJobCreate → Digest
  manifest_fingerprint command = tools.texts.sha256 (tools.manifest_bytes command)

  -- `_child_idempotency_key`
  abbrev child_idempotency_key : Text → AttachmentKind → Text
  child_idempotency_key idempotency_key kind =
      codes "import-"
      ++ tools.texts.hex (
          tools.texts.sha256 (
            join (31 ∷ []) (
              tools.texts.uuid_text actor.subject_id
              ∷ idempotency_key
              ∷ codes (kind_value kind)
              ∷ [])))

  abbrev upload_command : ImportJobCreate → AttachmentDeclaration → UploadStart
  upload_command command a = record {
    project_id = command.project_id;
    filename = a.filename;
    size_bytes = a.size_bytes;
    sha256 = tools.digest_of a.sha256;
    category = codes "kimi-imports";
    file_date = tools.date_text command.k3_result.processed_at;
    content_type = a.content_type;
  }

  abbrev pub same_key : Text → ImportJob → Bool
  same_key idempotency_key job =
      job.device_id == actor.subject_id && text_eq job.idempotency_key idempotency_key

  abbrev pub job_with_key : Text → ImportWork → Option ImportJob
  job_with_key idempotency_key w = find_by (same_key idempotency_key) w.jobs

  -- `_matching_result`
  abbrev pub matching_result : Digest → ImportJob → Exec ImportWork ImportJobResult
  matching_result print job w =
      if not (job.manifest_fingerprint == print)
      then (err (conflict import_idempotency_conflict), w)
      else (ok (job_result (tables_of w) job), w)

  -- a new session of the file service on what is committed
  abbrev in_session : {A : Type 0} → Exec Work A → Exec ImportWork A
  in_session m w =
      let done = m (record w.files { pending = w.files.durable }) in
      (done.0, record w { files = done.1 })

  -- one turn of the loop over the declarations
  abbrev start_one :
      ImportJobCreate → Text → CreateDraw → AttachmentDeclaration → Exec ImportWork File
  start_one command idempotency_key draw a w =
      let u = draw.uploads a.kind in
      renamed (
        in_session
          (start_import_upload tools.texts actor (upload_command command a)
            (child_idempotency_key idempotency_key a.kind) u.file_id u.meanwhile u.answers draw.now)
          w)

  unfoldable pub start_all :
      ImportJobCreate → Text → CreateDraw → List AttachmentDeclaration → Exec ImportWork (List File)
  start_all command idempotency_key draw [] = pure []
  start_all command idempotency_key draw (a ∷ rest) =
      start_one command idempotency_key draw a >>= λ f.
      start_all command idempotency_key draw rest >>= λ fs. pure (f ∷ fs)

  abbrev new_job : ImportJobCreate → Text → CreateDraw → ImportJob
  new_job command idempotency_key draw = record {
    id = draw.job_id;
    device_id = actor.subject_id;
    project_id = command.project_id;
    idempotency_key = idempotency_key;
    local_task_id = command.local_task_id;
    external_document_reference = command.external_document_reference;
    base_sha256 = elim command.base_sha256 [ none ↦ none | some d ↦ some (tools.digest_of d) ];
    canonical_manifest_json = tools.manifest_bytes command;
    manifest_fingerprint = manifest_fingerprint command;
    status = ImportStatus.uploading;
    result_code = none;
    submitted_at = none;
    created_at = draw.now;
    updated_at = draw.now;
  }

  -- `zip(command.attachments, uploads)`
  abbrev attachment_rows :
      ImportJobCreate → CreateDraw → List AttachmentDeclaration → List File → List ImportAttachment
  attachment_rows command draw (a ∷ rest) (f ∷ fs) =
      record {
        id = draw.attachment_id a.kind;
        job_id = draw.job_id;
        project_id = command.project_id;
        file_id = f.id;
        upload_id = f.id;
        kind = a.kind;
      }
      ∷ attachment_rows command draw rest fs
  attachment_rows command draw _ _ = []

  abbrev created_event : ImportJobCreate → CreateDraw → List ImportAttachment → AuditLog
  created_event command draw rows = record {
    actor_kind = actor.kind;
    actor_id = some actor.subject_id;
    action = "import.create";
    object_type = "import_job";
    object_id = some draw.job_id;
    project_id = some command.project_id;
    outcome = "SUCCESS";
    metadata =
        ("actor_role", null)
        ∷ ("attachment_count", number (length rows))
        ∷ ("attachment_kinds", text_list (map (λ (a : ImportAttachment). kind_value a.kind) rows))
        ∷ ("manifest_fingerprint", text (tools.digest_meta (manifest_fingerprint command)))
        ∷ ("status", text "UPLOADING")
        ∷ [];
    request_id = some draw.request_id;
    event_key = some (tools.uuid5 (codes "superboss:import-create:" ++ tools.id_text draw.job_id));
  }

  abbrev created_result : CreateDraw → List ImportAttachment → ImportJobResult
  created_result draw rows = record {
    id = draw.job_id;
    status = ImportStatus.uploading;
    result_code = none;
    submitted_at = none;
    updated_at = draw.now;
    attachments = rows;
  }

  -- the constraints `uq_import_attachments_job_kind`, `uq_import_attachments_file` and
  -- `uq_import_attachments_upload`
  abbrev clash : ImportAttachment → ImportAttachment → Bool
  clash a b =
      (a.job_id == b.job_id && str_eq (kind_value a.kind) (kind_value b.kind))
      || (a.file_id == b.file_id || a.upload_id == b.upload_id)

  abbrev pub clashes : List ImportAttachment → List ImportAttachment → Bool
  clashes present [] = false
  clashes present (row ∷ rest) = any (clash row) present || clashes (row ∷ present) rest

  -- The last flush meets those constraints; its exception rolls back the transaction.
  abbrev insert_job :
      ImportJobCreate → Text → CreateDraw → List File → Exec ImportWork ImportJobResult
  insert_job command idempotency_key draw uploads w =
      let rows = attachment_rows command draw command.attachments uploads in
      if clashes w.attachments rows then (err integrity_error, w) else (
        ok (created_result draw rows),
        add_row (created_event command draw rows) (record w {
          jobs = w.jobs ++ new_job command idempotency_key draw ∷ [];
          attachments = w.attachments ++ rows;
        }),
      )

  -- the row that the flush meets, or the insert
  abbrev persist_over :
      ImportJobCreate
      → Text
      → CreateDraw
      → List File
      → Option ImportJob
      → Exec ImportWork ImportJobResult
  persist_over command idempotency_key draw uploads none =
      insert_job command idempotency_key draw uploads
  persist_over command idempotency_key draw uploads (some job) =
      matching_result (manifest_fingerprint command) job

  -- `_persist_job`; a row that another request commits before the flush violates the constraint on
  -- the keys of a device.
  unfoldable pub persist_job :
      ImportJobCreate → Text → CreateDraw → List File → Exec ImportWork ImportJobResult
  persist_job command idempotency_key draw uploads w =
      persist_over command idempotency_key draw uploads
        (job_with_key idempotency_key (draw.meanwhile w)) (draw.meanwhile w)

  abbrev create_over :
      ImportJobCreate → Text → CreateDraw → Option ImportJob → Exec ImportWork ImportJobResult
  create_over command idempotency_key draw (some job) =
      matching_result (manifest_fingerprint command) job
  create_over command idempotency_key draw none =
      start_all command idempotency_key draw command.attachments
      >>= persist_job command idempotency_key draw

  abbrev denial : Option Uuid → Uuid → AuditLog
  denial project_id request_id = record {
    actor_kind = actor.kind;
    actor_id = some actor.subject_id;
    action = "import.create";
    object_type = "import_job";
    object_id = none;
    project_id = project_id;
    outcome = "DENIED";
    metadata =
        ("reason", text "IMPORT_CREATE_FORBIDDEN") ∷ ("actor_role", role_meta actor.role) ∷ [];
    request_id = some request_id;
    event_key = none;
  }

  -- `_resolved_project_id`
  abbrev resolved_project_id : Uuid → ImportWork → Option Uuid
  resolved_project_id project_id w =
      if contains project_id w.files.durable.projects then some project_id else none

  unfoldable pub create_import :
      ImportJobCreate → Text → CreateDraw → Exec ImportWork ImportJobResult
  create_import command idempotency_key draw w =
      if not (is_valid_key idempotency_key)
      then (err value_error, w)
      else if not (device_may actor command.project_id imports_create)
      then (
        err (forbidden import_create_forbidden),
        add_row (denial (resolved_project_id command.project_id w) draw.request_id) w,
      )
      else create_over command idempotency_key draw (job_with_key idempotency_key w) w
