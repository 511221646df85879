-- ===== src/Files/Complete.antt =====
-- FileService of server/src/superboss/modules/files/service.py: downloads, the parts of an upload
-- and its completion. The answer of the storage is an argument, `none` where the call raises or
-- times out.
pub mod Downloads
pub mod Again
use super_boss.Base.{
  ℕ, suc, ◌+◌, Bool, true, false, Option, none, some, List, [], ◌∷◌, ◌++◌, Uuid, Time, Digest, not,
  ◌&&◌, ◌||◌, ◌==◌, ltb, leb, opt_eq, is_some, if◌then◌else◌, String,
}
use super_boss.Base.Lists.{length, contains, any}
use super_boss.Base.Rows.{find_by}
use super_boss.Base.Texts.{Text, codes, text_eq, join, decimal}
use super_boss.Core.Errors.{
  Error, forbidden, not_found, conflict, value_error, integrity_error, runtime_error, storage_error,
  file_provisioning_pending, file_completion_pending, file_upload_conflict, file_upload_not_found,
  file_upload_not_active, file_upload_size_mismatch, file_infected, file_scan_failed,
  file_not_ready, file_not_found, import_create_forbidden, import_upload_forbidden,
}
use super_boss.Core.Exec.{Exec, Result, ok, err, pure, raise, lift, or_raise, raise_if, ◌>>=◌, ◌>>◌}
use super_boss.Core.Actors.{
  Actor, ActorKind, user, device, system, Role, imports_create, imports_upload,
  require_project_access, device_may,
}
use super_boss.Core.Security.{role_value}
use super_boss.Core.Directory.{AuditLog, Meta, text, number, null}
use super_boss.Files.Names.{is_idempotency_key, segment}
use super_boss.Files.Vault.{
  File, FileState, uploading, quarantined, scanning, clean, infected, failed, is_uploading,
  is_clean, Tables, Work, CompletedPart, StorageCall, list_multipart_uploads, create_multipart,
  abort_multipart, complete_multipart, delete_object, get_file, others, put_file, commit, rollback,
  write, call, enqueue,
}

-- `ensure_downloadable`
pub ensure_downloadable : FileState → Result (Unit {0})
ensure_downloadable infected = err (conflict file_infected)
ensure_downloadable failed = err (conflict file_scan_failed)
ensure_downloadable clean = ok tt
ensure_downloadable _ = err (conflict file_not_ready)

-- the arguments of a presigned URL
pub data Presigned : Type 0 where
  get_url : Text → (expires_seconds : ℕ) → Presigned
  part_url : Text → Text → (part_number : ℕ) → (expires_seconds : ℕ) → Presigned

-- The storage, where it is configured: the URL that it signs, `none` where the call raises.
abbrev pub Signer : Type 0
Signer = Option (Presigned → Option Text)

-- `_storage()`, and a presigning call of it
abbrev sign : Signer → Presigned → Exec Work Text
sign none request = raise runtime_error
sign (some presign) request = or_raise (presign request) storage_error

pub presign_download : Signer → Actor → Uuid → Exec Work Text
unfolding ensure_downloadable
presign_download signer actor file_id = do
  f ← (λ w. or_raise (get_file file_id w.pending) (not_found file_not_found) w)
  lift (require_project_access actor f.project_id)
  lift (ensure_downloadable f.state)
  sign signer (get_url f.object_key 60)

-- `_authorize_upload_operation`
unfoldable pub authorize_upload : Actor → Uuid → (import_device : Bool) → Result (Unit {0})
authorize_upload actor project_id import_device =
    if not import_device
    then require_project_access actor project_id
    else if not (device_may actor project_id imports_upload)
    then err (forbidden import_upload_forbidden)
    else ok tt

-- `_presign_part`
pub presign_part :
    Signer → Actor → Uuid → (part_number : ℕ) → (import_device : Bool) → Exec Work Text
presign_part signer actor upload_id part_number import_device = do
  raise_if (not (leb 1 part_number && leb part_number 10000)) value_error
  f ← (λ w. or_raise (get_file upload_id w.pending) (not_found file_upload_not_found) w)
  raise_if (not (is_uploading f.state)) (conflict file_upload_not_active)
  lift (authorize_upload actor f.project_id import_device)
  multipart_id ← or_raise f.multipart_id (conflict file_upload_not_active)
  sign signer (part_url f.object_key multipart_id part_number 900)

-- `sorted(parts, key=part_number)`, which is stable
pub insert_part : CompletedPart → List CompletedPart → List CompletedPart
insert_part part [] = part ∷ []
insert_part part (q ∷ rest) =
    if leb part.part_number q.part_number then part ∷ q ∷ rest else q ∷ insert_part part rest

pub sort_parts : List CompletedPart → List CompletedPart
sort_parts [] = []
sort_parts (part ∷ rest) = insert_part part (sort_parts rest)

-- `len({part.part_number for part in parts}) != len(parts)`
unfoldable pub has_duplicate : List CompletedPart → Bool
has_duplicate [] = false
has_duplicate (part ∷ rest) =
    any (λ q. q.part_number == part.part_number) rest || has_duplicate rest

abbrev role_meta : Option Role → Meta
role_meta none = null
role_meta (some r) = text (role_value r)

-- the audit row of a completed upload
abbrev complete_event : Actor → File → (request_id : Uuid) → AuditLog
complete_event actor f request_id = record {
  actor_kind = actor.kind;
  actor_id = some actor.subject_id;
  action = "file.upload.complete";
  object_type = "file";
  object_id = some f.id;
  project_id = some f.project_id;
  outcome = "SUCCESS";
  metadata =
      ("state", text "QUARANTINED")
      ∷ ("size_bytes", number f.size_bytes)
      ∷ ("actor_role", role_meta actor.role)
      ∷ [];
  request_id = some request_id;
  event_key = none;
}

abbrev audit_completion : Actor → File → Option Uuid → Tables → Tables
audit_completion actor f none t = t
audit_completion actor f (some request_id) t = record t {
  audit = t.audit ++ complete_event actor f request_id ∷ [];
}

-- what follows the answer of `complete_multipart`, the size of the object
abbrev pub finish_upload : Actor → File → Option Uuid → Time → Option ℕ → Exec Work File
finish_upload actor f request_id now none = do rollback; raise file_completion_pending
finish_upload actor f request_id now (some size_bytes) =
    if not (size_bytes == f.size_bytes)
    then (do
      write (put_file now (record f { state = failed; scan_result = some (codes "SIZE_MISMATCH") }))
      commit
      call (delete_object f.object_key)
      raise (conflict file_upload_size_mismatch))
    else do
      let f' = record f { state = quarantined; updated_at = now }
      write (put_file now f')
      write (audit_completion actor f request_id)
      commit
      enqueue f.id
      pure f'

-- `_complete_upload` of a file that is still uploading
abbrev pub complete_active :
    Actor → File → List CompletedPart → Option Uuid → Time → Option ℕ → Exec Work File
complete_active actor f parts request_id now answer = do
  multipart_id ← or_raise f.multipart_id (conflict file_upload_not_active)
  raise_if (has_duplicate parts) value_error
  call (complete_multipart f.object_key multipart_id (sort_parts parts))
  finish_upload actor f request_id now answer

-- `_complete_upload`; `answer` is the size that the storage reports.
unfoldable pub complete_upload :
    Actor
    → Uuid
    → List CompletedPart
    → (request_id : Option Uuid) → (import_device : Bool) → Time
    → (answer : Option ℕ) → Exec Work File
complete_upload actor upload_id parts request_id import_device now answer = do
  f ← (λ w. or_raise (get_file upload_id w.pending) (not_found file_upload_not_found) w)
  lift (authorize_upload actor f.project_id import_device)
  if not (is_uploading f.state) then pure f else complete_active actor f parts request_id now answer
