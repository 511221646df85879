-- ===== src/Imports/Service/Terminal.antt =====
-- A job that reached RECEIVED, REJECTED or CONFLICT stays as it is.
use super_boss.Base.{
  ◌≡◌, refl, ◌∙◌, inl, inr, Bool, true, List, [], ◌∷◌, Uuid, Time, Bool-cases, leb,
}
use super_boss.Base.Lists.{All, keep}
use super_boss.Base.Rows.{find_by-save_other}
use super_boss.Imports.Jobs.{
  ImportStatus, ImportJob, ImportTables, job_key, is_scanning, is_terminal, get_job,
}
use super_boss.Imports.Evaluation.{
  ImportTools, evaluate_files, file_observations, moved, apply_transition,
}
use super_boss.Imports.Service.{
  reconcile_job, reconcile_jobs, reconcile_file, order_jobs, insert_job,
}

-- the rows with this id are terminal
abbrev Settled : Uuid → ImportJob → Type 0
Settled id job = job.id ≡ id → is_terminal job.status ≡ true

All-keep :
    (P : ImportJob → Type 0) (p : ImportJob → Bool) (xs : List ImportJob)
    → All P xs
    → All P (keep p xs)
All-keep P p [] h = tt
All-keep P p (x ∷ xs) h = elim (Bool-cases (p x)) [
  | inl e ↦ rw e (h.0, All-keep P p xs h.1)
  | inr e ↦ rw e (All-keep P p xs h.1)
]

All-insert_job :
    (tools : ImportTools) (P : ImportJob → Type 0) (x : ImportJob) (xs : List ImportJob)
    → P x
    → All P xs
    → All P (insert_job tools x xs)
All-insert_job tools P x [] h k = (h, tt)
All-insert_job tools P x (y ∷ ys) h k = elim (Bool-cases (leb x.id y.id)) [
  | inl e ↦ rw e (h, k)
  | inr e ↦ rw e (k.0, All-insert_job tools P x ys h k.1)
]

All-order_jobs :
    (tools : ImportTools) (P : ImportJob → Type 0) (xs : List ImportJob)
    → All P xs
    → All P (order_jobs tools xs)
All-order_jobs tools P [] h = tt
All-order_jobs tools P (x ∷ xs) h =
    All-insert_job tools P x (order_jobs tools xs) h.0 (All-order_jobs tools P xs h.1)

not_scanning : (s : ImportStatus) → is_scanning s ≡ true → is_terminal s ≡ true → ⊥
not_scanning ImportStatus.uploading a b = cc
not_scanning ImportStatus.scanning a b = cc
not_scanning ImportStatus.received a b = cc
not_scanning ImportStatus.rejected a b = cc
not_scanning ImportStatus.conflict a b = cc

module _ (tools : ImportTools) (id : Uuid) (now : Time) where
  reconcile_job-Settled :
      (job : ImportJob) (t : ImportTables)
      → Settled id job
      → get_job id (reconcile_job tools now job t) ≡ get_job id t
  unfolding reconcile_job apply_transition moved
  reconcile_job-Settled job t settled = elim (Bool-cases (is_scanning job.status)) [
    | inr e ↦ rw e refl
    | inl e ↦
        elim (Bool-cases (is_scanning (evaluate_files job (file_observations job.id t)).status)) [
          | inl f ↦ rw (e, f) refl
          | inr f ↦
              rw (e, f)
                (find_by-save_other job_key id _ t.jobs
                  (λ same. not_scanning job.status e (settled same)))
        ]
  ]

  reconcile_jobs-Settled :
      (jobs : List ImportJob) (t : ImportTables)
      → All (Settled id) jobs
      → get_job id (reconcile_jobs tools now jobs t) ≡ get_job id t
  unfolding reconcile_jobs
  reconcile_jobs-Settled [] t h = refl
  reconcile_jobs-Settled (job ∷ rest) t h =
      reconcile_jobs-Settled rest (reconcile_job tools now job t) h.1
      ∙ reconcile_job-Settled job t h.0

  -- Where the row of a job is RECEIVED, REJECTED or CONFLICT, the reconciliation of any file, with
  -- no other transaction in between, keeps it, whatever became of its files.
  pub reconcile_file-terminal :
      (file_id : Uuid) (t : ImportTables)
      → All (λ job. job.id ≡ id → is_terminal job.status ≡ true) t.jobs
      → get_job id (reconcile_file tools file_id (λ s. s) now t) ≡ get_job id t
  unfolding reconcile_file
  reconcile_file-terminal file_id t h =
      reconcile_jobs-Settled _ t
        (All-order_jobs tools (Settled id) _ (All-keep (Settled id) _ t.jobs h))
