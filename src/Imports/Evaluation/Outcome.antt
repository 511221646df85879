-- ===== src/Imports/Evaluation/Outcome.antt =====
-- When a job is received, and the columns that the evaluation keeps consistent.
use super_boss.Base.{
  ◌≡◌, ◌≢◌, ◌↔◌, refl, inl, inr, Bool, true, false, Option, none, some, List, [], ◌∷◌, arith, Time,
  Digest, Bool-cases, not, is_some, if◌then◌else◌,
}
use super_boss.Base.Lists.{All, all}
use super_boss.Base.Rows.{find_by}
use super_boss.Files.Vault.{FileState}
use super_boss.Imports.Jobs.{
  ImportJob, ImportStatus, rejected, scanning, conflict, received, attachment_infected,
  attachment_scan_failed, base_sha256_mismatch, is_original, is_uploading,
}
use super_boss.Imports.Evaluation.{
  FileObservation, ImportEvaluation, evaluate_files, seen, is_waiting, base_differs, state_eq,
  moved,
}

abbrev pub has_result : ImportStatus → Bool
has_result ImportStatus.rejected = true
has_result ImportStatus.conflict = true
has_result _ = false

-- The columns of a job agree: only an uploading one has no submission time, and exactly the
-- rejected and conflicting ones have a result code (the constraints ck_import_jobs_submission_state
-- and ck_import_jobs_result_state).
pub record IsConsistent (job : ImportJob) : Type 0 where
  pub submitted : is_some job.submitted_at ≡ not (is_uploading job.status)
  pub explained : is_some job.result_code ≡ has_result job.status

state_eq_clean : (s : FileState) → state_eq s FileState.clean ≡ true → s ≡ FileState.clean
state_eq_clean FileState.clean e = refl
state_eq_clean FileState.uploading e = cc
state_eq_clean FileState.quarantined e = cc
state_eq_clean FileState.scanning e = cc
state_eq_clean FileState.infected e = cc
state_eq_clean FileState.failed e = cc

abbrev IsClean : FileObservation → Type 0
IsClean o = o.state ≡ FileState.clean

all_clean :
    (os : List FileObservation)
    → all (λ o. state_eq o.state FileState.clean) os ≡ true
    → All IsClean os
all_clean [] e = tt
all_clean (o ∷ os) e = (state_eq_clean o.state (ground arith), all_clean os (ground arith))

none_seen :
    (s : FileState) (os : List FileObservation)
    → state_eq FileState.clean s ≡ false
    → All IsClean os
    → seen s os ≡ false
none_seen s [] e h = refl
none_seen s (o ∷ os) e h = rw (h.0, e) (none_seen s os e h.1)

all_of_clean :
    (os : List FileObservation)
    → All IsClean os
    → all (λ o. state_eq o.state FileState.clean) os ≡ true
all_of_clean [] h = refl
all_of_clean (o ∷ os) h = rw h.0 (all_of_clean os h.1)

abbrev mismatch : ImportJob → List FileObservation → Bool
mismatch job os = base_differs job.base_sha256 (find_by (λ o. is_original o.kind) os)

-- where a base is named and an original was uploaded, they have one digest
pub HasBase : Option Digest → Option FileObservation → Type 0
HasBase (some base) (some o) = o.sha256 ≡ base
HasBase none _ = Unit {0}
HasBase _ none = Unit {0}

base_differs_iff :
    (base : Option Digest) (o : Option FileObservation)
    → (base_differs base o ≡ false) ↔ HasBase base o
unfolding HasBase
base_differs_iff none o = (λ e. tt, λ e. refl)
base_differs_iff (some base) none = (λ e. tt, λ e. refl)
base_differs_iff (some base) (some o) = (λ e. ground (arith, e), λ e. ground (arith, e))

abbrev pub original : List FileObservation → Option FileObservation
original = find_by (λ o. is_original o.kind)

-- A job is received exactly when it has a file, every file is CLEAN, and, where the job names a base
-- and its first original exists, that original has the base's digest; without a base, or without
-- an original, no digest is compared.
pub received_iff :
    (job : ImportJob) (os : List FileObservation)
    → ((evaluate_files job os).status ≡ ImportStatus.received) ↔ (
        (os ≢ []) × All (λ o. o.state ≡ FileState.clean) os × HasBase job.base_sha256 (original os))
unfolding evaluate_files
received_iff job [] = (λ e. absurd cc, λ h. absurd (h.0 refl))
received_iff job (o ∷ os) = (to, from)
  where
    to :
        (evaluate_files job (o ∷ os)).status ≡ ImportStatus.received
        → ((o ∷ os) ≢ [])
          × All (λ x. x.state ≡ FileState.clean) (o ∷ os)
          × HasBase job.base_sha256 (original (o ∷ os))
    to e = elim (Bool-cases (seen FileState.infected (o ∷ os))) [
      | inl i ↦ absurd (cc (rw i at e))
      | inr i ↦ elim (Bool-cases (seen FileState.failed (o ∷ os))) [
        | inl f ↦ absurd (cc (rw (i, f) at e))
        | inr f ↦ elim (Bool-cases (all (λ x. state_eq x.state FileState.clean) (o ∷ os))) [
          | inr w ↦ absurd (cc (rw (i, f, w) at e))
          | inl w ↦ elim (Bool-cases (mismatch job (o ∷ os))) [
            | inl m ↦ absurd (cc (rw (i, f, w, m) at e))
            | inr m ↦ (
              λ x. cc,
              all_clean (o ∷ os) w,
              (base_differs_iff job.base_sha256 (original (o ∷ os))).0 m,
            )
          ]
        ]
      ]
    ]

    from :
        ((o ∷ os) ≢ [])
          × All (λ x. x.state ≡ FileState.clean) (o ∷ os)
          × HasBase job.base_sha256 (original (o ∷ os))
        → (evaluate_files job (o ∷ os)).status ≡ ImportStatus.received
    from (ne, c, m) =
        rw
          (
            none_seen FileState.infected (o ∷ os) refl c,
            none_seen FileState.failed (o ∷ os) refl c,
            all_of_clean (o ∷ os) c,
            (base_differs_iff job.base_sha256 (original (o ∷ os))).1 m,
          )
          refl

-- no evaluation leads back to UPLOADING, and its result code fits its status
abbrev Fits : ImportEvaluation → Type 0
Fits evaluation =
    (is_uploading evaluation.status ≡ false)
    × (is_some evaluation.result_code ≡ has_result evaluation.status)

-- the branches of `evaluate_files` by their four tests
abbrev branch : Bool → Bool → Bool → Bool → ImportEvaluation
branch infected failed waiting differs =
    if infected
    then record { status = rejected; result_code = some attachment_infected }
    else if failed
    then record { status = rejected; result_code = some attachment_scan_failed }
    else if waiting
    then record { status = scanning; result_code = none }
    else if differs
    then record { status = conflict; result_code = some base_sha256_mismatch }
    else record { status = received; result_code = none }

branch-Fits :
    (infected failed waiting differs : Bool) → Fits (branch infected failed waiting differs)
branch-Fits true b c d = (refl, refl)
branch-Fits false true c d = (refl, refl)
branch-Fits false false true d = (refl, refl)
branch-Fits false false false true = (refl, refl)
branch-Fits false false false false = (refl, refl)

evaluate_files-Fits : (job : ImportJob) (os : List FileObservation) → Fits (evaluate_files job os)
unfolding evaluate_files
evaluate_files-Fits job os =
    branch-Fits (seen FileState.infected os) (seen FileState.failed os) (is_waiting os)
      (mismatch job os)

pub moved-IsConsistent :
    (job : ImportJob) (os : List FileObservation) (now : Time)
    → IsConsistent (moved job (evaluate_files job os) now)
unfolding moved
moved-IsConsistent job os now =
    let (closed, coded) = evaluate_files-Fits job os in
    record { submitted = rw closed refl; explained = coded }
