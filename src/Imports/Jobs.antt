-- ===== src/Imports/Jobs.antt =====
-- imports/models.py and the result types of imports/service.py, with the tables that the import
-- service reads and writes.
use super_boss.Base.{
  ℕ, Bool, true, false, Option, List, [], ◌∷◌, String, Uuid, Time, Digest, ◌==◌, ◌&&◌, ◌||◌, ltb,
  leb, if◌then◌else◌,
}
use super_boss.Base.Lists.{keep}
use super_boss.Base.Rows.{find_by, save}
use super_boss.Base.Texts.{Text}
use super_boss.Core.Directory.{AuditLog}
use super_boss.Files.Vault.{File}

pub data ImportStatus : Type 0 where
  uploading scanning received rejected conflict : ImportStatus

pub data AttachmentKind : Type 0 where
  original revised k3_raw : AttachmentKind

-- the values of `result_code`
pub data ResultCode : Type 0 where
  attachment_infected attachment_scan_failed base_sha256_mismatch : ResultCode

-- the `value` of a status, and the text of a result code
abbrev pub status_value : ImportStatus → String
status_value uploading = "UPLOADING"
status_value scanning = "SCANNING"
status_value received = "RECEIVED"
status_value rejected = "REJECTED"
status_value conflict = "CONFLICT"

abbrev pub result_text : ResultCode → String
result_text attachment_infected = "ATTACHMENT_INFECTED"
result_text attachment_scan_failed = "ATTACHMENT_SCAN_FAILED"
result_text base_sha256_mismatch = "BASE_SHA256_MISMATCH"

abbrev pub is_uploading : ImportStatus → Bool
is_uploading uploading = true
is_uploading _ = false

abbrev pub is_scanning : ImportStatus → Bool
is_scanning scanning = true
is_scanning _ = false

-- RECEIVED, REJECTED and CONFLICT
abbrev pub is_terminal : ImportStatus → Bool
is_terminal uploading = false
is_terminal scanning = false
is_terminal _ = true

abbrev pub is_original : AttachmentKind → Bool
is_original original = true
is_original _ = false

-- `canonical_manifest_json` is its text
pub record ImportJob : Type 0 where
  pub id : Uuid
  pub device_id : Uuid
  pub project_id : Uuid
  pub idempotency_key : Text
  pub local_task_id : Text
  pub external_document_reference : Option Text
  pub base_sha256 : Option Digest
  pub canonical_manifest_json : Text
  pub manifest_fingerprint : Digest
  pub status : ImportStatus
  pub result_code : Option ResultCode
  pub submitted_at : Option Time
  pub created_at : Time
  pub updated_at : Time

pub record ImportAttachment : Type 0 where
  pub id : Uuid
  pub job_id : Uuid
  pub project_id : Uuid
  pub file_id : Uuid
  pub upload_id : Uuid
  pub kind : AttachmentKind

pub record ImportTables : Type 0 where
  pub jobs : List ImportJob
  pub attachments : List ImportAttachment
  pub files : List File
  pub audit : List AuditLog

abbrev pub job_key : ImportJob → ℕ
job_key job = job.id

abbrev pub get_job : Uuid → ImportTables → Option ImportJob
get_job id t = find_by (λ j. j.id == id) t.jobs

abbrev pub put_job : ImportJob → ImportTables → ImportTables
put_job job t = record t { jobs = save job_key job t.jobs }

-- A stored kind is its text, so `ORDER BY kind` is alphabetical.
abbrev pub kind_rank : AttachmentKind → ℕ
kind_rank k3_raw = 0
kind_rank original = 1
kind_rank revised = 2

abbrev pub precedes : ImportAttachment → ImportAttachment → Bool
precedes a b =
    ltb (kind_rank a.kind) (kind_rank b.kind)
    || (kind_rank a.kind == kind_rank b.kind && leb a.id b.id)

abbrev pub insert_attachment : ImportAttachment → List ImportAttachment → List ImportAttachment
insert_attachment a [] = a ∷ []
insert_attachment a (b ∷ rest) =
    let more = insert_attachment a rest in if precedes a b then a ∷ b ∷ rest else b ∷ more

abbrev pub order_attachments : List ImportAttachment → List ImportAttachment
order_attachments [] = []
order_attachments (a ∷ rest) = insert_attachment a (order_attachments rest)

-- the attachments of a job, ordered by kind and id
abbrev pub job_attachments : Uuid → ImportTables → List ImportAttachment
job_attachments job_id t = order_attachments (keep (λ a. a.job_id == job_id) t.attachments)

pub record ImportJobResult : Type 0 where
  pub id : Uuid
  pub status : ImportStatus
  pub result_code : Option ResultCode
  pub submitted_at : Option Time
  pub updated_at : Time
  pub attachments : List ImportAttachment

-- `_job_result`; a row stands for the ImportAttachmentResult of its columns
unfoldable pub job_result : ImportTables → ImportJob → ImportJobResult
job_result t job = record {
  id = job.id;
  status = job.status;
  result_code = job.result_code;
  submitted_at = job.submitted_at;
  updated_at = job.updated_at;
  attachments = job_attachments job.id t;
}
