-- ===== src/Files/Vault.antt =====
-- The tables that the file services read and write (files/models.py), the unit of work that they
-- commit and roll back, and the calls of object storage that they make (files/storage.py).
use super_boss.Base.{ℕ, Bool, true, false, Option, List, [], ◌∷◌, ◌++◌, Uuid, Time, Digest, ◌==◌}
use super_boss.Base.Rows.{find_by, save}
use super_boss.Base.Texts.{Text}
use super_boss.Core.Exec.{Exec, ok}
use super_boss.Core.Actors.{ActorKind}
use super_boss.Core.Directory.{AuditLog}

pub data FileState : Type 0 where
  uploading quarantined scanning clean infected failed : FileState

abbrev pub is_uploading : FileState → Bool
is_uploading uploading = true
is_uploading _ = false

abbrev pub is_quarantined : FileState → Bool
is_quarantined quarantined = true
is_quarantined _ = false

abbrev pub is_scanning : FileState → Bool
is_scanning scanning = true
is_scanning _ = false

abbrev pub is_clean : FileState → Bool
is_clean clean = true
is_clean _ = false

-- `File`; `file_date` is its ISO text
pub record File : Type 0 where
  pub id : Uuid
  pub project_id : Uuid
  pub filename : Text
  pub category : Text
  pub file_date : Text
  pub object_key : Text
  pub size_bytes : ℕ
  pub sha256 : Digest
  pub state : FileState
  pub uploader_id : Uuid
  pub uploader_kind : ActorKind
  pub content_type : Text
  pub scan_result : Option Text
  pub metadata_fingerprint : Option Digest
  pub idempotency_key : Option Text
  pub multipart_id : Option Text
  pub created_at : Time
  pub updated_at : Time

pub record CompletedPart : Type 0 where
  pub part_number : ℕ
  pub etag : Text

-- a call of ObjectStorage, in the order in which they are made
pub data StorageCall : Type 0 where
  list_multipart_uploads : Text → StorageCall
  create_multipart : Text → Text → StorageCall
  abort_multipart : Text → Text → StorageCall
  complete_multipart : Text → Text → List CompletedPart → StorageCall
  delete_object : Text → StorageCall

-- the rows; of `projects` only the primary key matters here
pub record Tables : Type 0 where
  pub files : List File
  pub projects : List Uuid
  pub audit : List AuditLog

-- What is committed, what the session holds, and what was done outside the database.
pub record Work : Type 0 where
  pub durable : Tables
  pub pending : Tables
  pub calls : List StorageCall
  pub queued : List Uuid

abbrev pub file_key : File → ℕ
file_key f = f.id

abbrev pub get_file : Uuid → Tables → Option File
get_file id t = find_by (λ f. f.id == id) t.files

-- A changed row is written with the time of the write (`onupdate=func.now()`).
abbrev pub put_file : Time → File → Tables → Tables
put_file now f t = record t { files = save file_key (record f { updated_at = now }) t.files }

abbrev pub commit : Exec Work (Unit {0})
commit w = (ok tt, record w { durable = w.pending })

abbrev pub rollback : Exec Work (Unit {0})
rollback w = (ok tt, record w { pending = w.durable })

-- a write of the session
abbrev pub write : (Tables → Tables) → Exec Work (Unit {0})
write f w = (ok tt, record w { pending = f w.pending })

-- a call of the storage, whose answer is an argument of the method
abbrev pub call : StorageCall → Exec Work (Unit {0})
call c w = (ok tt, record w { calls = w.calls ++ c ∷ [] })

-- `enqueue_scan`, whose exceptions are dropped
abbrev pub enqueue : Uuid → Exec Work (Unit {0})
enqueue id w = (ok tt, record w { queued = w.queued ++ id ∷ [] })

-- What other transactions commit while the session has nothing written.
abbrev pub others : (Tables → Tables) → Exec Work (Unit {0})
others f w = (ok tt, record w { durable = f w.durable; pending = f w.durable })
