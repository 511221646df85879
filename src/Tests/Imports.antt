-- ===== src/Tests/Imports.antt =====
-- The theorems about imports at one job with one attachment.
use super_boss.Base.{ℕ, ◌≡◌, ◌≢◌, ◌↔◌, refl, true, none, some, List, [], ◌∷◌}
use super_boss.Base.Lists.{All, contains, length}
use super_boss.Base.Texts.{codes}
use super_boss.Core.Actors.{
  Actor, ActorKind, imports_submit, imports_create, imports_upload, device_may,
}
use super_boss.Files.Vault.{FileState}
use super_boss.Imports.Jobs.{
  ImportJob, ImportJobResult, ImportTables, ImportStatus, AttachmentKind, get_job,
}
use super_boss.Imports.Evaluation.{ImportTools, FileObservation, evaluate_files, file_observations}
use super_boss.Imports.Evaluation.Outcome.{IsConsistent, HasBase, original, received_iff}
use super_boss.Imports.Service.{submit, reconcile_file, device_has, preflight_submit}
use super_boss.Imports.Service.Consistency.{jobs-IsConsistent}
use super_boss.Imports.Service.Terminal.{reconcile_file-terminal}
use super_boss.Imports.Service.Access.{submit_authorized}
use super_boss.Tests.Files.{upload_of}
use super_boss.Core.Exec.{ok}
use super_boss.Files.Upload.{
  start_import_upload, begin_upload, provision_upload, new_file, fingerprint,
}
use super_boss.Imports.Schemas.{ImportJobCreate}
use super_boss.Files.Names.{is_idempotency_key}
use super_boss.Imports.Uploads.{complete_import_attachment}
use super_boss.Imports.Uploads.Access.{MayUpload, complete-MayUpload}
use super_boss.Imports.Reading.{resolve_attachment_upload, joined}
use super_boss.Files.Complete.{complete_upload, authorize_upload}
use super_boss.Imports.Create.{
  tables_of, CreateTools, CreateDraw, ImportWork, create_import, start_all, persist_job,
}
use super_boss.Imports.Create.Again.{create_again}

abbrev tools : ImportTools
tools = record { uuid_text = λ u. "id"; uuid5 = λ t. length t }

abbrev pub job_of : ImportStatus → ImportJob
job_of status = record {
  id = 3;
  device_id = 9;
  project_id = 5;
  idempotency_key = codes "k";
  local_task_id = codes "t";
  external_document_reference = none;
  base_sha256 = some 77;
  canonical_manifest_json = codes "{}";
  manifest_fingerprint = 12;
  status = status;
  result_code = none;
  submitted_at = none;
  created_at = 1;
  updated_at = 1;
}

abbrev pub tables : ImportJob → ImportTables
tables job = record {
  jobs = job ∷ [];
  attachments =
      record {
        id = 4;
        job_id = 3;
        project_id = 5;
        file_id = 1;
        upload_id = 1;
        kind = AttachmentKind.original;
      }
      ∷ [];
  files = upload_of FileState.clean ∷ [];
  audit = [];
}

abbrev courier : Actor
courier = record {
  kind = ActorKind.device;
  subject_id = 9;
  role = none;
  project_ids = 5 ∷ [];
  scopes = imports_submit ∷ [];
}

abbrev observed : List FileObservation
observed = record { kind = AttachmentKind.original; state = FileState.clean; sha256 = 77 } ∷ []

received_iff_example :
    ((evaluate_files (job_of ImportStatus.scanning) observed).status ≡ ImportStatus.received) ↔ (
      (observed ≢ [])
      × All (λ o. o.state ≡ FileState.clean) observed
      × HasBase (some 77) (original observed))
received_iff_example = received_iff (job_of ImportStatus.scanning) observed

jobs-IsConsistent_example :
    All IsConsistent
      (submit tools courier 3 6 (λ t. t) 20 (tables (job_of ImportStatus.uploading))).1.jobs
    × All IsConsistent
        (reconcile_file tools 3 (λ t. t) 20 (tables (job_of ImportStatus.uploading))).jobs
jobs-IsConsistent_example =
    jobs-IsConsistent tools courier 3 6 20 (λ t. t) (tables (job_of ImportStatus.uploading))
      (λ s h. h) (record { submitted = refl; explained = refl }, tt)

abbrev received_job : ImportJob
received_job = record (job_of ImportStatus.received) { submitted_at = some 2 }

reconcile_file-terminal_example :
    get_job 3 (reconcile_file tools 1 (λ s. s) 20 (tables received_job))
    ≡ get_job 3 (tables received_job)
reconcile_file-terminal_example =
    reconcile_file-terminal tools 3 20 1 (tables received_job) ((λ e. refl), tt)

submit_authorized_example :
    (device_has courier imports_submit ≡ true)
    × (job : ImportJob) × (get_job 3 (tables (job_of ImportStatus.uploading)) ≡ some job)
    × (job.device_id ≡ 9)
    × (contains job.project_id (5 ∷ []) ≡ true)
unfolding submit preflight_submit file_observations evaluate_files
submit_authorized_example =
    submit_authorized tools courier 3 6 (λ t. t) 20 (tables (job_of ImportStatus.uploading)) refl

abbrev create_tools : CreateTools
create_tools = record {
  texts = record {
    sha256 = λ t. 12;
    hex = λ d. codes "ab";
    uuid_text = λ u. codes "id";
    is_alnum = λ c. true;
  };
  manifest_bytes = λ c. c.local_task_id;
  digest_of = λ t. 77;
  date_text = λ s. codes "2026-01-01";
  uuid5 = λ t. length t;
  id_text = λ u. codes "id";
  digest_meta = λ d. "ab";
}

abbrev creator : Actor
creator = record courier { scopes = imports_create ∷ [] }

abbrev command : ImportJobCreate
command = record {
  project_id = 5;
  local_task_id = codes "t";
  external_document_reference = none;
  base_sha256 = none;
  k3_result = record {
    model_label = codes "k3";
    processed_at = record { time = 1; aware = true };
    modification_details = [];
    knowledge_points = [];
    risks = [];
    suggested_title = none;
    suggested_tags = [];
  };
  attachments =
      record {
        kind = AttachmentKind.k3_raw;
        filename = codes "r.json";
        size_bytes = 3;
        sha256 = codes "aa";
        content_type = codes "application/json";
      }
      ∷ [];
}

abbrev create_draw : ℕ → CreateDraw
create_draw n = record {
  uploads = λ k. record {
    file_id = 31;
    meanwhile = λ t. t;
    answers = record { listed = some []; created = some (codes "m") };
  };
  job_id = n;
  attachment_id = λ k. 41;
  now = 9;
  request_id = 6;
  meanwhile = λ w. w;
}

abbrev no_jobs : ImportWork
no_jobs = record {
  jobs = [];
  attachments = [];
  files = record {
    durable = record { files = []; projects = 5 ∷ []; audit = [] };
    pending = record { files = []; projects = 5 ∷ []; audit = [] };
    calls = [];
    queued = [];
  };
}

abbrev created : ImportJobResult
created = record {
  id = 30;
  status = ImportStatus.uploading;
  result_code = none;
  submitted_at = none;
  updated_at = 9;
  attachments =
      record {
        id = 41;
        job_id = 30;
        project_id = 5;
        file_id = 31;
        upload_id = 31;
        kind = AttachmentKind.k3_raw;
      }
      ∷ [];
}

create_again_example :
    (r : ImportJobResult) × (r.id ≡ 30)
    × (create_import create_tools creator command
          (codes "key")
          (create_draw 50)
          (create_import create_tools creator command (codes "key") (create_draw 30) no_jobs).1
        ≡ (
          ok r,
          (create_import create_tools creator command (codes "key") (create_draw 30) no_jobs).1,
        ))
unfolding create_import start_all persist_job start_import_upload begin_upload provision_upload
    new_file fingerprint device_may is_idempotency_key
create_again_example =
    create_again create_tools creator (codes "key") command command (create_draw 30)
      (create_draw 50) created no_jobs refl refl

abbrev uploader : Actor
uploader = record courier { scopes = imports_upload ∷ [] }

abbrev work_of : FileState → ImportWork
work_of state = record {
  jobs = (tables (job_of ImportStatus.uploading)).jobs;
  attachments = (tables (job_of ImportStatus.uploading)).attachments;
  files = record {
    durable = record { files = upload_of state ∷ []; projects = 5 ∷ []; audit = [] };
    pending = record { files = upload_of state ∷ []; projects = 5 ∷ []; audit = [] };
    calls = [];
    queued = [];
  };
}

complete-MayUpload_example :
    MayUpload tools uploader 3 4 (tables_of (work_of FileState.quarantined))
unfolding complete_import_attachment resolve_attachment_upload joined complete_upload
    authorize_upload device_may
complete-MayUpload_example =
    complete-MayUpload tools uploader 3 4 (record { part_number = 1; etag = codes "e" } ∷ []) 20
      (some 3) 6 (work_of FileState.quarantined) (upload_of FileState.quarantined) refl
