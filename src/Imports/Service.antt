-- ===== src/Imports/Service.antt =====
-- imports/service.py: submission, reconciliation and the access to a job's attachments, on the
-- committed tables. What other transactions commit between two of a method's own is an argument.
pub mod Consistency
pub mod Terminal
pub mod Access
use super_boss.Base.{
  ℕ, Bool, true, false, Option, none, some, List, [], ◌∷◌, ◌++◌, map, String, Uuid, Time, Digest,
  not, ◌&&◌, ◌||◌, ◌==◌, ltb, leb, if◌then◌else◌,
}
use super_boss.Base.Lists.{keep, contains}
use super_boss.Base.Rows.{find_by}
use super_boss.Core.Errors.{
  Error, Code, forbidden, not_found, conflict, import_submit_forbidden, import_upload_forbidden,
  import_read_forbidden, import_job_not_found, import_attachment_not_found,
  import_attachments_incomplete, code_text,
}
use super_boss.Core.Exec.{Exec, Result, ok, err, pure, raise, gets, modify, ◌>>=◌, ◌>>◌}
use super_boss.Core.Actors.{
  Actor, ActorKind, Role, Scope, imports_submit, imports_upload, imports_read_own, is_device,
  no_role, has_scope, is_user, is_owner,
}
use super_boss.Core.Security.{role_value}
use super_boss.Core.Directory.{AuditLog, Meta, text, null}
use super_boss.Files.Vault.{File, FileState}
use super_boss.Imports.Jobs.{
  ImportStatus, ImportJob, ImportAttachment, ImportTables, ImportJobResult, is_uploading,
  is_scanning, is_terminal, get_job, job_result, job_attachments,
}
use super_boss.Imports.Evaluation.{
  ImportTools, ImportEvaluation, file_observations, evaluate_files, moved, transition_event_key,
  apply_transition, seen,
}

-- the actor tests of every method: a device without a role that has the scope
abbrev pub device_has : Actor → Scope → Bool
device_has actor scope =
    is_device actor.kind && (no_role actor.role && has_scope scope actor.scopes)

-- `denial.code`
abbrev error_code : Error → Meta
error_code (forbidden c) = text (code_text c)
error_code (not_found c) = text (code_text c)
error_code (conflict c) = text (code_text c)
error_code _ = null

pub role_meta : Option Role → Meta
role_meta none = null
role_meta (some r) = text (role_value r)

abbrev pub own_job : Actor → Option ImportJob → Option ImportJob
own_job actor none = none
own_job actor (some job) = if job.device_id == actor.subject_id then some job else none

module _ (tools : ImportTools) where
  pub denial_event :
      Actor
      → String
      → String
      → (object_id : Uuid) → (project_id : Option Uuid) → (request_id : Uuid) → List (String × Meta)
      → AuditLog
  denial_event actor action object_type object_id project_id request_id metadata = record {
    actor_kind = actor.kind;
    actor_id = some actor.subject_id;
    action = action;
    object_type = object_type;
    object_id = some object_id;
    project_id = project_id;
    outcome = "DENIED";
    metadata = metadata ++ ("actor_role", role_meta actor.role) ∷ [];
    request_id = some request_id;
    event_key = none;
  }

  -- A denial is recorded in a transaction of its own, then raised.
  pub deny_job :
      {A : Type 0} → Actor → String → Uuid → Option Uuid → Uuid → Error → Exec ImportTables A
  deny_job actor action job_id project_id request_id e t = (
    err e,
    record t {
      audit =
          t.audit
          ++ denial_event actor action "import_job" job_id project_id request_id
              (("error_code", error_code e) ∷ ("job_id", text (tools.uuid_text job_id)) ∷ [])
            ∷ [];
    },
  )

  unfoldable pub deny_attachment :
      {A : Type 0} → Actor → String → Uuid → Uuid → Option Uuid → Uuid → Error → Exec ImportTables A
  deny_attachment actor action job_id attachment_id project_id request_id e t = (
    err e,
    record t {
      audit =
          t.audit
          ++ denial_event actor action "import_attachment" attachment_id project_id request_id (
              ("error_code", error_code e)
              ∷ ("job_id", text (tools.uuid_text job_id))
              ∷ ("attachment_id", text (tools.uuid_text attachment_id))
              ∷ [])
            ∷ [];
    },
  )

  abbrev preflighted : Actor → Uuid → Uuid → Option ImportJob → Exec ImportTables Uuid
  preflighted actor job_id request_id none =
      deny_job actor "import.submit" job_id none request_id (not_found import_job_not_found)
  preflighted actor job_id request_id (some job) =
      if not (contains job.project_id actor.project_ids)
      then deny_job actor "import.submit" job_id (some job.project_id) request_id
          (forbidden import_submit_forbidden)
      else pure job.project_id

  -- `_preflight_submit`
  unfoldable pub preflight_submit : Actor → (job_id request_id : Uuid) → Exec ImportTables Uuid
  preflight_submit actor job_id request_id t =
      if not (device_has actor imports_submit)
      then deny_job actor "import.submit" job_id none request_id (forbidden import_submit_forbidden)
          t
      else preflighted actor job_id request_id (own_job actor (get_job job_id t)) t

  abbrev submit_evaluated :
      Actor → Uuid → Time → ImportJob → ImportEvaluation → Exec ImportTables ImportJobResult
  submit_evaluated actor request_id now job evaluation t =
      if is_scanning job.status && is_scanning evaluation.status
      then (ok (job_result t job), t)
      else let t' =
          apply_transition tools job evaluation "import.submit" ActorKind.device
            (some actor.subject_id) request_id now t in
        (ok (job_result t' (moved job evaluation now)), t')

  abbrev submit_allowed : Actor → Uuid → Uuid → Time → ImportJob → Exec ImportTables ImportJobResult
  submit_allowed actor job_id request_id now job t =
      if is_terminal job.status
      then (ok (job_result t job), t)
      else if is_uploading job.status && seen FileState.uploading (file_observations job.id t)
      then deny_job actor "import.submit" job_id (some job.project_id) request_id
          (conflict import_attachments_incomplete) t
      else submit_evaluated actor request_id now job
          (evaluate_files job (file_observations job.id t)) t

  abbrev submit_locked :
      Actor
      → Uuid
      → Uuid
      → Time
      → (target : Uuid) → Option ImportJob
      → Exec ImportTables ImportJobResult
  submit_locked actor job_id request_id now target none =
      deny_job actor "import.submit" job_id none request_id (not_found import_job_not_found)
  submit_locked actor job_id request_id now target (some job) =
      if not (job.project_id == target) || not (contains job.project_id actor.project_ids)
      then deny_job actor "import.submit" job_id (some job.project_id) request_id
          (forbidden import_submit_forbidden)
      else submit_allowed actor job_id request_id now job

  -- `submit`; `meanwhile` is what other transactions commit after the preflight.
  unfoldable pub submit :
      Actor
      → (job_id request_id : Uuid) → (meanwhile : ImportTables → ImportTables) → Time
      → Exec ImportTables ImportJobResult
  submit actor job_id request_id meanwhile now = do
    target ← preflight_submit actor job_id request_id
    modify meanwhile
    (λ t. submit_locked actor job_id request_id now target (own_job actor (get_job job_id t)) t)

  -- the transition of a job whose evaluation is no longer SCANNING
  abbrev reconciled : Time → ImportJob → ImportEvaluation → ImportTables → ImportTables
  reconciled now job evaluation t =
      if is_scanning evaluation.status
      then t
      else apply_transition tools job evaluation "import.reconcile" ActorKind.system none
          (transition_event_key tools "import.reconcile" job.id evaluation.status
            evaluation.result_code)
          now t

  reconcile_job : Time → ImportJob → ImportTables → ImportTables
  reconcile_job now job t =
      if not (is_scanning job.status)
      then t
      else reconciled now job (evaluate_files job (file_observations job.id t)) t

  reconcile_jobs : Time → List ImportJob → ImportTables → ImportTables
  reconcile_jobs now [] t = t
  reconcile_jobs now (job ∷ rest) t = reconcile_jobs now rest (reconcile_job now job t)

  abbrev insert_job : ImportJob → List ImportJob → List ImportJob
  insert_job job [] = job ∷ []
  insert_job job (j ∷ rest) =
      let more = insert_job job rest in if leb job.id j.id then job ∷ j ∷ rest else j ∷ more

  abbrev order_jobs : List ImportJob → List ImportJob
  order_jobs [] = []
  order_jobs (job ∷ rest) = insert_job job (order_jobs rest)

  -- `reconcile_file`; `meanwhile` is what other transactions commit between the query for the
  -- jobs of the file and their locks.
  pub reconcile_file :
      Uuid → (meanwhile : ImportTables → ImportTables) → Time → ImportTables → ImportTables
  reconcile_file file_id meanwhile now t =
      let job_ids = map (λ a. a.job_id) (keep (λ a. a.file_id == file_id) t.attachments) in
      let t' = meanwhile t in
      reconcile_jobs now (order_jobs (keep (λ j. contains j.id job_ids) t'.jobs)) t'
