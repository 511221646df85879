-- ===== src/Imports/Create/Again.antt =====
-- A job that was created is found again under its key, by its device.
use super_boss.Base.{
  ◌≡◌, refl, ap, ◌∙◌, inl, inr, true, Option, none, some, List, [], ◌∷◌, ◌==◌, ==_iff, ==_refl,
  Digest, Bool-cases, if◌then◌else◌,
}
use super_boss.Base.Rows.{find_by-append}
use super_boss.Base.Texts.{Text, text_eq_refl}
use super_boss.Core.Errors.{conflict, import_idempotency_conflict}
use super_boss.Core.Exec.{ok, err, bind_done, ok-injective}
use super_boss.Core.Actors.{Actor, imports_create, device_may}
use super_boss.Files.Vault.{File}
use super_boss.Imports.Jobs.{ImportJob, ImportJobResult, job_result}
use super_boss.Imports.Schemas.{ImportJobCreate}
use super_boss.Imports.Create.{
  CreateTools, CreateDraw, ImportWork, tables_of, is_valid_key, manifest_fingerprint, job_with_key,
  same_key, matching_result, start_all, persist_over, persist_job, new_job, create_over, clashes,
  attachment_rows, create_import,
}

module _ (tools : CreateTools) (actor : Actor) (key : Text) where
  -- the job of that key, with the fingerprint of the manifest and the identifier of the result
  Stored : ImportJobCreate → ImportJobResult → ImportWork → Type 0
  Stored command r w =
      (job : ImportJob) × (job_with_key tools actor key w ≡ some job)
      × (job.manifest_fingerprint ≡ manifest_fingerprint tools actor command)
      × (job.id ≡ r.id)

  matching-Stored :
      (command : ImportJobCreate) (job : ImportJob) (r : ImportJobResult) (w : ImportWork)
      → job_with_key tools actor key w ≡ some job
      → (matching_result tools actor (manifest_fingerprint tools actor command) job w).0 ≡ ok r
      → Stored command r
          (matching_result tools actor (manifest_fingerprint tools actor command) job w).1
  unfolding Stored job_result
  matching-Stored command job r w found e =
      elim (Bool-cases (job.manifest_fingerprint == manifest_fingerprint tools actor command)) [
        | inr a ↦ absurd (cc (rw a at e))
        | inl a ↦ rw a (
          job,
          found,
          (==_iff job.manifest_fingerprint (manifest_fingerprint tools actor command)).0 a,
          ap (λ (x : ImportJobResult). x.id) (ok-injective _ r (rw a at e)),
        )
      ]

  own_key :
      (command : ImportJobCreate) (draw : CreateDraw)
      → same_key tools actor key (new_job tools actor command key draw) ≡ true
  own_key command draw = rw (==_refl actor.subject_id, text_eq_refl key) refl

  persist_over-Stored :
      (command : ImportJobCreate) (draw : CreateDraw) (uploads : List File) (r : ImportJobResult)
      (w : ImportWork) (o : Option ImportJob)
      → job_with_key tools actor key w ≡ o
      → (persist_over tools actor command key draw uploads o w).0 ≡ ok r
      → Stored command r (persist_over tools actor command key draw uploads o w).1
  unfolding Stored
  persist_over-Stored command draw uploads r w (some job) found e =
      matching-Stored command job r w found e
  persist_over-Stored command draw uploads r w none found e =
      elim (Bool-cases (
        clashes tools actor w.attachments
          (attachment_rows tools actor command draw command.attachments uploads))) [
            | inl c ↦ absurd (cc (rw c at e))
            | inr c ↦ rw c (
              new_job tools actor command key draw,
              find_by-append (same_key tools actor key) w.jobs
                    (new_job tools actor command key draw ∷ [])
                  ∙ rw (found, own_key command draw) refl,
              refl,
              ap (λ (x : ImportJobResult). x.id) (ok-injective _ r (rw c at e)),
            )
          ]

  create_over-Stored :
      (command : ImportJobCreate) (draw : CreateDraw) (r : ImportJobResult) (w : ImportWork)
      (o : Option ImportJob)
      → job_with_key tools actor key w ≡ o
      → (create_over tools actor command key draw o w).0 ≡ ok r
      → Stored command r (create_over tools actor command key draw o w).1
  unfolding persist_job
  create_over-Stored command draw r w (some job) found e = matching-Stored command job r w found e
  create_over-Stored command draw r w none found e =
      let (fs, t, here, done) =
        bind_done (start_all tools actor command key draw command.attachments)
          (persist_job tools actor command key draw) w r e in
      rw here (
        persist_over-Stored command draw fs r (draw.meanwhile t)
          (job_with_key tools actor key (draw.meanwhile t)) refl done)

  create-Stored :
      (command : ImportJobCreate) (draw : CreateDraw) (r : ImportJobResult) (w : ImportWork)
      → (create_import tools actor command key draw w).0 ≡ ok r
      → (is_valid_key key ≡ true)
        × Stored command r (create_import tools actor command key draw w).1
  unfolding create_import
  create-Stored command draw r w e = elim (Bool-cases (is_valid_key key)) [
    | inr a ↦ absurd (cc (rw a at e))
    | inl a ↦ elim (Bool-cases (device_may actor command.project_id imports_create)) [
      | inr b ↦ absurd (cc (rw (a, b) at e))
      | inl b ↦ (
        a,
        rw (a, b)
            (create_over-Stored command draw r w (job_with_key tools actor key w) refl
              (rw (a, b) at e)),
      )
    ]
  ]

  repeated :
      (again : ImportJobCreate) (draw : CreateDraw) (w : ImportWork) (job : ImportJob)
      (print : Digest)
      → is_valid_key key ≡ true
      → device_may actor again.project_id imports_create ≡ true
      → job_with_key tools actor key w ≡ some job
      → job.manifest_fingerprint ≡ print
      → create_import tools actor again key draw w ≡ (
        if print == manifest_fingerprint tools actor again
            then ok (job_result (tables_of w) job)
            else err (conflict import_idempotency_conflict),
        w,
      )
  unfolding create_import
  repeated again draw w job print valid may found same =
      elim (Bool-cases (print == manifest_fingerprint tools actor again)) [
        | inl a ↦ simp (valid, may, found, same, a)
        | inr a ↦ simp (valid, may, found, same, a)
      ]

  -- After a creation that succeeded, a further one by the same device under the same key, for a
  -- project that it may create in, changes nothing: it returns the same job if the manifest has the
  -- same fingerprint, and is refused as a conflict otherwise.
  pub create_again :
      (command again : ImportJobCreate) (draw draw' : CreateDraw) (r : ImportJobResult)
      (w : ImportWork)
      → (create_import tools actor command key draw w).0 ≡ ok r
      → device_may actor again.project_id imports_create ≡ true
      → (r' : ImportJobResult) × (r'.id ≡ r.id)
        × (create_import tools actor again key draw'
              (create_import tools actor command key draw w).1
            ≡ (
              if manifest_fingerprint tools actor command == manifest_fingerprint tools actor again
                  then ok r'
                  else err (conflict import_idempotency_conflict),
              (create_import tools actor command key draw w).1,
            ))
  unfolding job_result Stored
  create_again command again draw draw' r w e may =
      let (valid, (job, found, print, named)) = create-Stored command draw r w e in
      let w' = (create_import tools actor command key draw w).1 in
      (
        job_result (tables_of w') job,
        named,
        repeated again draw' w' job (manifest_fingerprint tools actor command) valid may found
            print,
      )
