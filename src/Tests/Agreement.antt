-- ===== src/Tests/Agreement.antt =====
-- The order of the server's view against the connector, at a job with two attachments.
use super_boss.Base.{ℕ, ◌≢◌, refl, none, some, [], ◌∷◌}
use super_boss.Base.Texts.{codes}
use super_boss.Core.Exec.{ok}
use super_boss.Imports.Schemas.{K3Result}
use super_boss.Imports.Jobs
use super_boss.Imports.Jobs.{ImportTables, ImportStatus}
use super_boss.Imports.Reading.{ImportAttachmentView, ImportJobView, job_view}
use super_boss.Files.Vault.{FileState}
use super_boss.Tests.Imports.{tables, job_of}
use super_boss.Tests.Files.{upload_of}
use super_boss.Connector.Agreement.{wire_kind, create_job-refuses}
use super_boss.Connector.Client.Calls.{create_job}
use super_boss.Connector.Checks.{AttachmentKind, original, k3_raw}
use super_boss.Connector.Outbox.{
  AttachmentState, EvidenceState, OutboxEntry, Stamp, create, evidence, received, validated_entry,
  validated_attachment, validated_part, consistent_phase, is_evidence_state,
}
use super_boss.Connector.Manifest.{ManifestTools, Probe}
use super_boss.Connector.Client.{ClientTools, read_body, refused, response_max_bytes}
use super_boss.Connector.Client
use super_boss.Connector.Manifest
use super_boss.Connector.Outbox
use super_boss.Tests.Connector.{digest, at_time, client, accepted}

abbrev result : K3Result
result = record {
  model_label = codes "k3";
  processed_at = at_time 1;
  modification_details = [];
  knowledge_points = [];
  risks = [];
  suggested_title = none;
  suggested_tags = [];
}

abbrev pair_of_attachments : ImportTables
pair_of_attachments = record (tables (job_of ImportStatus.uploading)) {
  attachments =
      record {
        id = 4;
        job_id = 3;
        project_id = 5;
        file_id = 1;
        upload_id = 1;
        kind = Jobs.AttachmentKind.original;
      }
      ∷ record {
        id = 6;
        job_id = 3;
        project_id = 5;
        file_id = 1;
        upload_id = 1;
        kind = Jobs.AttachmentKind.k3_raw;
      }
      ∷ [];
  files = upload_of FileState.uploading ∷ [];
}

abbrev seen : ℕ → Jobs.AttachmentKind → ImportAttachmentView
seen id kind = record {
  id = id;
  file_id = 1;
  upload_id = 1;
  kind = kind;
  file_state = FileState.uploading;
}

abbrev seen_job : ImportJobView
seen_job = record {
  job = job_of ImportStatus.uploading;
  attachments = seen 6 Jobs.AttachmentKind.k3_raw ∷ seen 4 Jobs.AttachmentKind.original ∷ [];
}

abbrev answered : ℕ → AttachmentKind → Client.AttachmentResponse
answered id kind = record {
  id = id;
  file_id = id;
  upload_id = id;
  kind = kind;
  file_state = Client.FileState.uploading;
}

abbrev job_answer : Client.JobResponse
job_answer = record {
  id = 3;
  project_id = 5;
  local_task_id = codes "t";
  external_document_reference = none;
  base_sha256 = none;
  status = Outbox.uploading;
  result_code = none;
  k3_result = result;
  submitted_at = none;
  created_at = at_time 1;
  updated_at = at_time 1;
  attachments = answered 6 k3_raw ∷ answered 4 original ∷ [];
}

abbrev declared : AttachmentKind → Manifest.ServerAttachment
declared kind = record {
  kind = kind;
  filename = codes "a";
  size_bytes = 3;
  sha256 = digest;
  content_type = codes "a/b";
}

abbrev two_attachments : Manifest.ServerManifest
two_attachments = record {
  project_id = 5;
  local_task_id = codes "t";
  external_document_reference = none;
  base_sha256 = none;
  k3_result = result;
  attachments = declared original ∷ declared k3_raw ∷ [];
}

different : original ≢ k3_raw
different e = absurd cc

create_job-refuses_example :
    create_job (record client { parse_job = λ _. some job_answer }) two_attachments (some accepted)
    ≢ ok job_answer
unfolding job_view wire_kind
create_job-refuses_example =
    create_job-refuses pair_of_attachments (job_of ImportStatus.uploading) seen_job
      (record client { parse_job = λ _. some job_answer }) two_attachments (some accepted)
      job_answer original [] refl refl refl different
