-- ===== src/Imports/Service/Consistency.antt =====
-- What submission and reconciliation keep true of every job.
use super_boss.Base.{
  ◌≡◌, refl, inl, inr, Option, none, some, List, [], ◌∷◌, Uuid, Time, Bool-cases, ◌==◌, not, ◌||◌,
  ◌&&◌,
}
use super_boss.Base.Lists.{All, contains}
use super_boss.Base.Rows.{All-save}
use super_boss.Core.Actors.{Actor, imports_submit}
use super_boss.Core.Exec.{Result, ok, err, and_then, modify, ◌>>◌}
use super_boss.Files.Vault.{FileState}
use super_boss.Imports.Jobs.{
  ImportJob, ImportTables, job_key, is_scanning, is_uploading, is_terminal, get_job,
}
use super_boss.Imports.Evaluation.{
  ImportTools, evaluate_files, file_observations, moved, apply_transition, seen,
}
use super_boss.Imports.Evaluation.Outcome.{IsConsistent, moved-IsConsistent}
use super_boss.Imports.Service.{
  preflight_submit, submit, submit_locked, submit_allowed, own_job, device_has, deny_job,
  reconcile_job, reconcile_jobs, reconcile_file, preflighted,
}

module _ (tools : ImportTools) (P : ImportJob → Type 0) (now : Time)
    (writes : (job : ImportJob) (t : ImportTables)
      → P (moved job (evaluate_files job (file_observations job.id t)) now)) where
  preflight-All :
      (actor : Actor) (job_id request_id : Uuid) (t : ImportTables)
      → (preflight_submit tools actor job_id request_id t).1.jobs ≡ t.jobs
  unfolding preflight_submit deny_job
  preflight-All actor job_id request_id t = elim (Bool-cases (device_has actor imports_submit)) [
    | inr e ↦ rw e refl
    | inl e ↦ rw e (go (own_job actor (get_job job_id t)))
  ]
    where
      go : (o : Option ImportJob) → (preflighted tools actor job_id request_id o t).1.jobs ≡ t.jobs
      go none = refl
      go (some job) = elim (Bool-cases (contains job.project_id actor.project_ids)) [
        | inl e ↦ rw e refl
        | inr e ↦ rw e refl
      ]

  submit_allowed-All :
      (actor : Actor) (job_id request_id : Uuid) (job : ImportJob) (t : ImportTables)
      → All P t.jobs
      → All P (submit_allowed tools actor job_id request_id now job t).1.jobs
  unfolding deny_job apply_transition
  submit_allowed-All actor job_id request_id job t h =
      let os = file_observations job.id t in
      let evaluation = evaluate_files job os in
      elim (Bool-cases (is_terminal job.status)) [
        | inl a ↦ rw a h
        | inr a ↦ elim (Bool-cases (is_uploading job.status && seen FileState.uploading os)) [
          | inl b ↦ rw (a, b) h
          | inr b ↦ elim (Bool-cases (is_scanning job.status && is_scanning evaluation.status)) [
            | inl c ↦ rw (a, b, c) h
            | inr c ↦ rw (a, b, c) (All-save P job_key _ t.jobs (writes job t) h)
          ]
        ]
      ]

  submit_locked-All :
      (actor : Actor) (job_id request_id target : Uuid) (o : Option ImportJob) (t : ImportTables)
      → All P t.jobs
      → All P (submit_locked tools actor job_id request_id now target o t).1.jobs
  unfolding deny_job
  submit_locked-All actor job_id request_id target none t h = h
  submit_locked-All actor job_id request_id target (some job) t h =
      elim (Bool-cases
        (not (job.project_id == target) || not (contains job.project_id actor.project_ids))) [
          | inl e ↦ rw e h
          | inr e ↦ rw e (submit_allowed-All actor job_id request_id job t h)
        ]

  pub submit-All :
      (actor : Actor) (job_id request_id : Uuid) (meanwhile : ImportTables → ImportTables)
      (t : ImportTables)
      → ((s : ImportTables) → All P s.jobs → All P (meanwhile s).jobs)
      → All P t.jobs
      → All P (submit tools actor job_id request_id meanwhile now t).1.jobs
  unfolding submit
  submit-All actor job_id request_id meanwhile t keeps h =
      go (preflight_submit tools actor job_id request_id t)
        (rw (preflight-All actor job_id request_id t) h)
    where
      go :
          (r : Result Uuid × ImportTables)
          → All P r.1.jobs
          → All P
              (and_then
                (λ target. modify meanwhile >> (λ s.
                  submit_locked tools actor job_id request_id now target
                    (own_job actor (get_job job_id s))
                    s))
                r).1.jobs
      go (err e, s) k = k
      go (ok target, s) k =
          submit_locked-All actor job_id request_id target
            (own_job actor (get_job job_id (meanwhile s))) (meanwhile s) (keeps s k)

  reconcile_job-All :
      (job : ImportJob) (t : ImportTables)
      → All P t.jobs
      → All P (reconcile_job tools now job t).jobs
  unfolding reconcile_job apply_transition
  reconcile_job-All job t h = elim (Bool-cases (is_scanning job.status)) [
    | inr e ↦ rw e h
    | inl e ↦
        elim (Bool-cases (is_scanning (evaluate_files job (file_observations job.id t)).status)) [
          | inl f ↦ rw (e, f) h
          | inr f ↦ rw (e, f) (All-save P job_key _ t.jobs (writes job t) h)
        ]
  ]

  reconcile_jobs-All :
      (jobs : List ImportJob) (t : ImportTables)
      → All P t.jobs
      → All P (reconcile_jobs tools now jobs t).jobs
  unfolding reconcile_jobs
  reconcile_jobs-All [] t h = h
  reconcile_jobs-All (job ∷ rest) t h =
      reconcile_jobs-All rest (reconcile_job tools now job t) (reconcile_job-All job t h)

  pub reconcile_file-All :
      (file_id : Uuid) (meanwhile : ImportTables → ImportTables) (t : ImportTables)
      → ((s : ImportTables) → All P s.jobs → All P (meanwhile s).jobs)
      → All P t.jobs
      → All P (reconcile_file tools file_id meanwhile now t).jobs
  unfolding reconcile_file
  reconcile_file-All file_id meanwhile t keeps h = reconcile_jobs-All _ (meanwhile t) (keeps t h)

-- Submission and reconciliation, whatever their outcome, keep the columns of every job
-- consistent, as long as what other transactions commit in between does.
pub jobs-IsConsistent :
    (tools : ImportTools) (actor : Actor) (id request_id : Uuid) (now : Time)
    (meanwhile : ImportTables → ImportTables) (t : ImportTables)
    → ((s : ImportTables) → All IsConsistent s.jobs → All IsConsistent (meanwhile s).jobs)
    → All IsConsistent t.jobs
    → All IsConsistent (submit tools actor id request_id meanwhile now t).1.jobs
      × All IsConsistent (reconcile_file tools id meanwhile now t).jobs
jobs-IsConsistent tools actor id request_id now meanwhile t keeps h =
    let writes = λ (job : ImportJob) (s : ImportTables).
      moved-IsConsistent job (file_observations job.id s) now in
    (
      submit-All tools IsConsistent now writes actor id request_id meanwhile t keeps h,
      reconcile_file-All tools IsConsistent now writes id meanwhile t keeps h,
    )
