-- ===== src/Imports/Evaluation.antt =====
-- imports/service.py: the evaluation of a job's files, and the transition that records it.
pub mod Outcome
use super_boss.Base.{
  ℕ, Bool, true, false, Option, none, some, List, [], ◌∷◌, ◌++◌, map, String, Uuid, Time, Digest,
  not, ◌&&◌, ◌||◌, ◌==◌, is_some, if◌then◌else◌,
}
use super_boss.Base.Lists.{any, all}
use super_boss.Base.Rows.{find_by}
use super_boss.Base.Texts.{Text, codes, join}
use super_boss.Core.Actors.{ActorKind}
use super_boss.Core.Directory.{AuditLog, Meta, text, null}
use super_boss.Files.Vault.{File, FileState}
use super_boss.Imports.Jobs.{
  ImportStatus, AttachmentKind, ResultCode, ImportJob, ImportAttachment, ImportTables, scanning,
  received, rejected, conflict, attachment_infected, attachment_scan_failed, base_sha256_mismatch,
  is_original, job_attachments, status_value, result_text, put_job,
}

-- What the methods take from outside: the text of a UUID, and `uuid5(NAMESPACE_URL, text)`.
pub record ImportTools : Type 0 where
  pub uuid_text : Uuid → String
  pub uuid5 : Text → Uuid

-- `_FileObservation`
pub record FileObservation : Type 0 where
  pub kind : AttachmentKind
  pub state : FileState
  pub sha256 : Digest

-- `_ImportEvaluation`
pub record ImportEvaluation : Type 0 where
  pub status : ImportStatus
  pub result_code : Option ResultCode

abbrev observe : ImportTables → List ImportAttachment → List FileObservation
observe t [] = []
observe t (a ∷ rest) =
    let more = observe t rest in
    elim (find_by (λ (f : File). f.id == a.file_id && f.project_id == a.project_id) t.files) [
      | none ↦ more
      | some f ↦ record { kind = a.kind; state = f.state; sha256 = f.sha256 } ∷ more
    ]

-- `_file_observations`, an inner join
unfoldable pub file_observations : Uuid → ImportTables → List FileObservation
file_observations job_id t = observe t (job_attachments job_id t)

abbrev pub state_eq : FileState → FileState → Bool
state_eq FileState.uploading FileState.uploading = true
state_eq FileState.quarantined FileState.quarantined = true
state_eq FileState.scanning FileState.scanning = true
state_eq FileState.clean FileState.clean = true
state_eq FileState.infected FileState.infected = true
state_eq FileState.failed FileState.failed = true
state_eq _ _ = false

-- `state in states`
abbrev pub seen : FileState → List FileObservation → Bool
seen s = any (λ o. state_eq o.state s)

-- `not observations or states != {CLEAN}`
abbrev pub is_waiting : List FileObservation → Bool
is_waiting [] = true
is_waiting (o ∷ rest) = not (all (λ x. state_eq x.state FileState.clean) (o ∷ rest))

-- whether the original exists, a base is named, and the two differ
abbrev pub base_differs : Option Digest → Option FileObservation → Bool
base_differs (some base) (some o) = not (o.sha256 == base)
base_differs _ _ = false

-- `_evaluate_files`
unfoldable pub evaluate_files : ImportJob → List FileObservation → ImportEvaluation
evaluate_files job observations =
    if seen FileState.infected observations
    then record { status = rejected; result_code = some attachment_infected }
    else if seen FileState.failed observations
    then record { status = rejected; result_code = some attachment_scan_failed }
    else if is_waiting observations
    then record { status = scanning; result_code = none }
    else if base_differs job.base_sha256 (find_by (λ o. is_original o.kind) observations)
    then record { status = conflict; result_code = some base_sha256_mismatch }
    else record { status = received; result_code = none }

abbrev code_or_empty : Option ResultCode → Text
code_or_empty none = []
code_or_empty (some code) = codes (result_text code)

-- `_transition_event_key`
abbrev pub transition_event_key :
    ImportTools → String → Uuid → ImportStatus → Option ResultCode → Uuid
transition_event_key tools action job_id status result_code = tools.uuid5 (
    join (codes ":") (
      codes "superboss"
      ∷ codes action
      ∷ codes (tools.uuid_text job_id)
      ∷ codes (status_value status)
      ∷ code_or_empty result_code
      ∷ []))

abbrev result_meta : Option ResultCode → Meta
result_meta none = null
result_meta (some code) = text (result_text code)

-- `job.submitted_at or now`
abbrev pub first_submitted : Option Time → Time → Time
first_submitted none now = now
first_submitted (some at) now = at

-- the row after `_apply_transition`
unfoldable pub moved : ImportJob → ImportEvaluation → Time → ImportJob
moved job evaluation now = record job {
  status = evaluation.status;
  result_code = evaluation.result_code;
  submitted_at = some (first_submitted job.submitted_at now);
  updated_at = now;
}

abbrev transition_event :
    ImportTools
    → ImportJob
    → ImportEvaluation
    → String
    → ActorKind
    → Option Uuid
    → (request_id : Uuid) → AuditLog
transition_event tools job evaluation action actor_kind actor_id request_id = record {
  actor_kind = actor_kind;
  actor_id = actor_id;
  action = action;
  object_type = "import_job";
  object_id = some job.id;
  project_id = some job.project_id;
  outcome = "SUCCESS";
  metadata =
      ("actor_role", null)
      ∷ ("status", text (status_value evaluation.status))
      ∷ ("result_code", result_meta evaluation.result_code)
      ∷ [];
  request_id = some request_id;
  event_key =
      some (transition_event_key tools action job.id evaluation.status evaluation.result_code);
}

-- `_apply_transition`
unfoldable pub apply_transition :
    ImportTools
    → ImportJob
    → ImportEvaluation
    → String
    → ActorKind
    → Option Uuid
    → (request_id : Uuid) → Time
    → ImportTables
    → ImportTables
apply_transition tools job evaluation action actor_kind actor_id request_id now t =
    let t' = put_job (moved job evaluation now) t in
    record t' {
      audit =
          t'.audit
          ++ transition_event tools job evaluation action actor_kind actor_id request_id ∷ [];
    }
