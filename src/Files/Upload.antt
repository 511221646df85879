-- ===== src/Files/Upload.antt =====
-- FileService of server/src/superboss/modules/files/service.py. An answer of the storage is an
-- argument, `none` where the call raises or times out.
use super_boss.Base.{
  ℕ, Bool, true, false, Option, none, some, List, [], ◌∷◌, ◌++◌, Uuid, Time, Digest, not, ◌&&◌,
  ◌==◌, opt_eq, is_some, if◌then◌else◌,
}
use super_boss.Base.Lists.{contains}
use super_boss.Base.Rows.{find_by}
use super_boss.Base.Texts.{Text, codes, text_eq, join, decimal}
use super_boss.Core.Errors.{
  forbidden, conflict, value_error, integrity_error, file_provisioning_pending,
  file_upload_conflict, import_create_forbidden,
}
use super_boss.Core.Exec.{Exec, ok, err, pure, raise, lift, raise_if, ◌>>=◌, ◌>>◌}
use super_boss.Core.Actors.{
  Actor, ActorKind, user, device, system, imports_create, require_project_access, device_may,
}
use super_boss.Files.Names.{is_idempotency_key, segment}
use super_boss.Files.Vault.{
  File, uploading, is_uploading, Tables, Work, list_multipart_uploads, create_multipart,
  abort_multipart, get_file, others, put_file, commit, rollback, write, call,
}

-- files/schemas.py; `file_date` is its ISO text
pub record UploadStart : Type 0 where
  pub project_id : Uuid
  pub filename : Text
  pub size_bytes : ℕ
  pub sha256 : Digest
  pub category : Text
  pub file_date : Text
  pub content_type : Text

-- What the methods take from outside: SHA-256 of a text, the text of a digest and of a UUID, and
-- `str.isalnum`.
pub record TextTools : Type 0 where
  pub sha256 : Text → Digest
  pub hex : Digest → Text
  pub uuid_text : Uuid → Text
  pub is_alnum : ℕ → Bool

-- The answers of the storage while an upload is provisioned.
pub record Answers : Type 0 where
  pub listed : Option (List Text)
  pub created : Option Text

abbrev same_kind : ActorKind → ActorKind → Bool
same_kind user user = true
same_kind device device = true
same_kind system system = true
same_kind _ _ = false

abbrev key_eq : Option Text → Text → Bool
key_eq none key = false
key_eq (some k) key = text_eq k key

-- the columns of the constraint `uq_files_upload_idempotency`
abbrev pub is_upload_of : Uuid → Actor → Text → File → Bool
is_upload_of project_id actor key f =
    f.project_id == project_id
    && (same_kind f.uploader_kind actor.kind
        && (f.uploader_id == actor.subject_id && key_eq f.idempotency_key key))

abbrev pub abort_all : Text → List Text → Exec Work (Unit {0})
abort_all key [] w = (ok tt, w)
abort_all key (leftover ∷ rest) w = abort_all key rest (call (abort_multipart key leftover) w).1

-- the file with its multipart upload, committed
abbrev pub provisioned : File → Text → Time → Exec Work File
provisioned f multipart_id now = do
  let f' = record f { multipart_id = some multipart_id; updated_at = now }
  write (put_file now f')
  commit
  pure f'

abbrev pending : Exec Work File
pending = do rollback; raise file_provisioning_pending

abbrev created : Option Text → Exec Work Text
created none = do rollback; raise file_provisioning_pending
created (some multipart_id) = pure multipart_id

abbrev pub create_again : File → Answers → Time → List Text → Exec Work File
create_again f answers now leftovers = do
  abort_all f.object_key leftovers
  call (create_multipart f.object_key f.content_type)
  multipart_id ← created answers.created
  provisioned f multipart_id now

-- What the listing decides: one open multipart upload is taken up, else all are aborted.
abbrev pub provision_listed : File → Answers → Time → Option (List Text) → Exec Work File
provision_listed f answers now none = pending
provision_listed f answers now (some (multipart_id ∷ [])) = provisioned f multipart_id now
provision_listed f answers now (some leftovers) = create_again f answers now leftovers

abbrev provision_fresh : Answers → Time → Option File → Exec Work File
provision_fresh answers now none = pending
provision_fresh answers now (some f) =
    if not (is_uploading f.state) then pending else if is_some f.multipart_id then pure f else do
      call (list_multipart_uploads f.object_key)
      provision_listed f answers now answers.listed

-- `_provision_upload`
unfoldable pub provision_upload : Uuid → Answers → Time → Exec Work File
provision_upload id answers now w = provision_fresh answers now (get_file id w.pending) w

-- `_fingerprint`
unfoldable pub fingerprint : TextTools → UploadStart → Digest
fingerprint tools command = tools.sha256 (
    join (31 ∷ []) (
      command.filename
      ∷ command.category
      ∷ command.file_date
      ∷ decimal command.size_bytes
      ∷ tools.hex command.sha256
      ∷ command.content_type
      ∷ []))

module _ (tools : TextTools) where
  -- `file_id` is the `uuid4()` of the call
  unfoldable pub new_file : Actor → UploadStart → Text → (file_id : Uuid) → (now : Time) → File
  new_file actor command idempotency_key file_id now =
      let category = segment tools.is_alnum command.category (codes "uncategorized") in
      let name = segment tools.is_alnum command.filename (codes "file") in
      record {
        id = file_id;
        project_id = command.project_id;
        filename = command.filename;
        category = command.category;
        file_date = command.file_date;
        object_key = join (codes "/") (
            codes "projects"
            ∷ tools.uuid_text command.project_id
            ∷ category
            ∷ command.file_date
            ∷ tools.uuid_text file_id
            ∷ name
            ∷ []);
        size_bytes = command.size_bytes;
        sha256 = command.sha256;
        state = uploading;
        uploader_id = actor.subject_id;
        uploader_kind = actor.kind;
        content_type = command.content_type;
        scan_result = none;
        metadata_fingerprint = some (fingerprint tools command);
        idempotency_key = some idempotency_key;
        multipart_id = none;
        created_at = now;
        updated_at = now;
      }

  -- a row that has this idempotency key already
  abbrev pub resume_upload : Digest → Answers → Time → File → Exec Work File
  resume_upload print answers now existing =
      if not (opt_eq existing.metadata_fingerprint (some print))
      then raise (conflict file_upload_conflict)
      else provision_upload existing.id answers now

  -- The flush of the new row meets the unique constraint where another request committed a row
  -- with the same key in the meantime, and the foreign key of the project.
  abbrev pub flush_new : Digest → File → Answers → Time → Option File → Exec Work File
  flush_new print f answers now (some winner) w =
      (do rollback; resume_upload print answers now winner) w
  flush_new print f answers now none w =
      if not (contains f.project_id w.pending.projects)
      then (do rollback; raise integrity_error) w
      else (do
        write (λ t. record t { files = t.files ++ f ∷ [] })
        commit
        provision_upload f.id answers now)
          w

  abbrev pub begin_new :
      Actor
      → UploadStart
      → Text
      → Uuid
      → (Tables → Tables)
      → Answers
      → Time
      → Option File
      → Exec Work File
  begin_new actor command idempotency_key file_id meanwhile answers now (some existing) =
      resume_upload (fingerprint tools command) answers now existing
  begin_new actor command idempotency_key file_id meanwhile answers now none = do
    others meanwhile
    winner ← (λ w.
        (ok (find_by (is_upload_of command.project_id actor idempotency_key) w.pending.files), w))
    flush_new (fingerprint tools command) (new_file actor command idempotency_key file_id now)
        answers now winner

  -- `_start_upload`; `meanwhile` is what other transactions commit between the query and the
  -- flush.
  unfoldable pub begin_upload :
      Actor
      → UploadStart
      → Text
      → (file_id : Uuid) → (meanwhile : Tables → Tables) → Answers
      → Time
      → Exec Work File
  begin_upload actor command idempotency_key file_id meanwhile answers now w =
      if not (is_idempotency_key idempotency_key)
      then (err value_error, w)
      else begin_new actor command idempotency_key file_id meanwhile answers now
          (find_by (is_upload_of command.project_id actor idempotency_key) w.pending.files) w

  unfoldable pub start_upload :
      Actor
      → UploadStart
      → Text
      → (file_id : Uuid) → (meanwhile : Tables → Tables) → Answers
      → Time
      → Exec Work File
  start_upload actor command idempotency_key file_id meanwhile answers now = do
    lift (require_project_access actor command.project_id)
    begin_upload actor command idempotency_key file_id meanwhile answers now

  unfoldable pub start_import_upload :
      Actor
      → UploadStart
      → Text
      → (file_id : Uuid) → (meanwhile : Tables → Tables) → Answers
      → Time
      → Exec Work File
  start_import_upload actor command idempotency_key file_id meanwhile answers now = do
    raise_if (not (device_may actor command.project_id imports_create))
        (forbidden import_create_forbidden)
    begin_upload actor command idempotency_key file_id meanwhile answers now
