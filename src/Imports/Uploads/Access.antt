-- ===== src/Imports/Uploads/Access.antt =====
-- Whose attachments a device completes.
use super_boss.Base.{
  ℕ, ◌≡◌, ap, inl, inr, true, Option, some, List, ◌==◌, Uuid, Time, String, Bool-cases,
  Option-cases, ==_iff,
}
use super_boss.Base.Lists.{contains}
use super_boss.Core.Exec.{ok, is_ok, bind_done}
use super_boss.Core.Actors.{Actor, imports_upload}
use super_boss.Files.Vault.{File, CompletedPart}
use super_boss.Files.Complete.{complete_upload}
use super_boss.Imports.Jobs.{ImportJob, ImportTables}
use super_boss.Imports.Evaluation.{ImportTools}
use super_boss.Imports.Service.{device_has, deny_attachment}
use super_boss.Imports.Reading.{joined, resolve_attachment_upload}
use super_boss.Imports.Create.{ImportWork, tables_of}
use super_boss.Imports.Uploads.{complete_import_attachment, on_tables, on_files}

module _ (tools : ImportTools) (actor : Actor) (job_id attachment_id : Uuid) where
  -- the device has the scope, and the attachment is one of its own jobs, in one of its projects
  unfoldable pub MayUpload : ImportTables → Type 0
  MayUpload t =
      (device_has actor imports_upload ≡ true)
      × (job : ImportJob) × (upload_id : Uuid) × (joined t job_id attachment_id
          ≡ some (job, upload_id))
      × (job.device_id ≡ actor.subject_id)
      × (contains job.project_id actor.project_ids ≡ true)

  resolved-MayUpload :
      (action : String) (request_id : Uuid) (t : ImportTables)
      → is_ok (resolve_attachment_upload tools actor job_id attachment_id action request_id t).0
        ≡ true
      → MayUpload t
  unfolding resolve_attachment_upload deny_attachment MayUpload
  resolved-MayUpload action request_id t done =
      elim (Bool-cases (device_has actor imports_upload)) [
        | inr a ↦ absurd (cc (rw a at done))
        | inl a ↦ elim (Option-cases (joined t job_id attachment_id)) [
          | inl b ↦ absurd (cc (rw (a, b) at done))
          | inr ((job, upload_id), b) ↦ elim (Bool-cases (job.device_id == actor.subject_id)) [
            | inr c ↦ absurd (cc (rw (a, b, c) at done))
            | inl c ↦ elim (Bool-cases (contains job.project_id actor.project_ids)) [
              | inr d ↦ absurd (cc (rw (a, b, c, d) at done))
              | inl d ↦ (a, job, upload_id, b, (==_iff job.device_id actor.subject_id).0 c, d)
            ]
          ]
        ]
      ]

  -- A completion that returns a file was made by a device with the upload scope, for an attachment of
  -- one of its own jobs, in one of its projects.
  pub complete-MayUpload :
      (parts : List CompletedPart) (now : Time) (answer : Option ℕ) (request_id : Uuid)
      (w : ImportWork) (f : File)
      → (complete_import_attachment tools actor job_id attachment_id request_id parts now answer
          w).0
        ≡ ok f
      → MayUpload (tables_of w)
  unfolding complete_import_attachment
  complete-MayUpload parts now answer request_id w f done =
      let (target, t, here, rest) =
        bind_done
          (on_tables (
            resolve_attachment_upload tools actor job_id attachment_id "import.attachment.complete"
              request_id))
          (λ target.
            on_files
              (complete_upload actor target.upload_id parts (some request_id) true now answer))
          w f done in
      let resolved : (resolve_attachment_upload tools actor job_id attachment_id
            "import.attachment.complete" request_id (tables_of w)).0
          ≡ ok target =
        ap (λ p. p.0) here in
      resolved-MayUpload "import.attachment.complete" request_id (tables_of w) (ap is_ok resolved)
