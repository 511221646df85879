-- ===== src/Files/Scan/Starts.antt =====
-- An upload that starts, or is provisioned again, keeps `Sound`.
use super_boss.Base.{
  ◌≡◌, ◌≢◌, refl, inl, inr, true, Option, none, some, List, [], ◌∷◌, ◌++◌, Uuid, Time, Digest,
  Bool-cases, Option-cases, opt_eq,
}
use super_boss.Base.Lists.{All, contains}
use super_boss.Base.Rows.{find_by}
use super_boss.Base.Texts.{Text}
use super_boss.Core.Exec.{ok, Result-cases}
use super_boss.Core.Actors.{Actor, require_project_access, device_may, imports_create}
use super_boss.Files.Names.{is_idempotency_key}
use super_boss.Files.Vault.{
  File, FileState, is_uploading, Work, create_multipart, list_multipart_uploads, get_file,
}
use super_boss.Files.Scan.{Ticket}
use super_boss.Files.Scan.Services.{Both}
use super_boss.Files.Scan.Soundness.{Scan, rewritten-Sound, added-Sound}
use super_boss.Files.Upload.{
  UploadStart, TextTools, Answers, abort_all, provisioned, create_again, provision_listed,
  provision_upload, resume_upload, is_upload_of, fingerprint, new_file, flush_new, begin_upload,
  start_upload, start_import_upload,
}

open_not_clean : (s : FileState) → is_uploading s ≡ true → s ≢ FileState.clean
open_not_clean FileState.uploading e c = cc
open_not_clean FileState.clean e c = cc
open_not_clean FileState.quarantined e c = cc
open_not_clean FileState.scanning e c = cc
open_not_clean FileState.infected e c = cc
open_not_clean FileState.failed e c = cc

abort_all_lem :
    (key : Text) (xs : List Text) (w : Work)
    → abort_all key xs w ≡ (ok tt, record w { calls = (abort_all key xs w).1.calls })
abort_all_lem key [] w = refl
abort_all_lem key (x ∷ xs) w = abort_all_lem key xs _

module _ (ks : List Ticket) (log : List Scan) where
  provisioned-Both :
      (id : Uuid) (f : File) (multipart_id : Text) (now : Time) (w : Work)
      → get_file id w.pending ≡ some f
      → is_uploading f.state ≡ true
      → Both ks log w
      → Both ks log (provisioned f multipart_id now w).1
  provisioned-Both id f multipart_id now w found up h =
      let s =
        rewritten-Sound ks log id f
          (record f { multipart_id = some multipart_id; updated_at = now }) w.pending found refl
          refl (open_not_clean f.state up) h.1 in
      (s, s)

  created-Both :
      (id : Uuid) (f : File) (answers : Answers) (now : Time) (leftovers : List Text) (w : Work)
      → get_file id w.pending ≡ some f
      → is_uploading f.state ≡ true
      → Both ks log w
      → Both ks log (create_again f answers now leftovers w).1
  created-Both id f answers now leftovers w found up h = elim (Option-cases answers.created) [
    | inl c ↦ rw (abort_all_lem f.object_key leftovers w, c) (h.0, h.0)
    | inr (m, c) ↦
        rw (abort_all_lem f.object_key leftovers w, c)
          (provisioned-Both id f m now
            (record w {
              calls =
                  (abort_all f.object_key leftovers w).1.calls
                  ++ create_multipart f.object_key f.content_type ∷ [];
            })
            found up h)
  ]

  listed-Both :
      (id : Uuid) (f : File) (answers : Answers) (now : Time) (listed : Option (List Text))
      (w : Work)
      → get_file id w.pending ≡ some f
      → is_uploading f.state ≡ true
      → Both ks log w
      → Both ks log (provision_listed f answers now listed w).1
  listed-Both id f answers now none w found up h = (h.0, h.0)
  listed-Both id f answers now (some []) w found up h =
      created-Both id f answers now [] w found up h
  listed-Both id f answers now (some (m ∷ [])) w found up h =
      provisioned-Both id f m now w found up h
  listed-Both id f answers now (some (m ∷ n ∷ rest)) w found up h =
      created-Both id f answers now (m ∷ n ∷ rest) w found up h

  provision-Both :
      (id : Uuid) (answers : Answers) (now : Time) (w : Work)
      → Both ks log w
      → Both ks log (provision_upload id answers now w).1
  unfolding provision_upload
  provision-Both id answers now w h = elim (Option-cases (get_file id w.pending)) [
    | inl e ↦ rw e (h.0, h.0)
    | inr (f, e) ↦ elim (Bool-cases (is_uploading f.state)) [
      | inr up ↦ rw (e, up) (h.0, h.0)
      | inl up ↦ elim (Option-cases f.multipart_id) [
        | inr (m, o) ↦ rw (e, up, o) h
        | inl o ↦
            simp (e, up, o)
              (listed-Both id f answers now answers.listed
                (record w { calls = w.calls ++ list_multipart_uploads f.object_key ∷ [] }) e up h)
      ]
    ]
  ]

  resume-Both :
      (tools : TextTools) (print : Digest) (answers : Answers) (now : Time) (f : File) (w : Work)
      → Both ks log w
      → Both ks log (resume_upload tools print answers now f w).1
  resume-Both tools print answers now f w h =
      elim (Bool-cases (opt_eq f.metadata_fingerprint (some print))) [
        | inl e ↦ rw e (provision-Both f.id answers now w h)
        | inr e ↦ rw e h
      ]

  flush-Both :
      (tools : TextTools) (print : Digest) (f : File) (answers : Answers) (now : Time)
      (winner : Option File) (w : Work)
      → f.state ≢ FileState.clean
      → All (λ k. k.file_id ≢ f.id) ks
      → Both ks log w
      → Both ks log (flush_new tools print f answers now winner w).1
  flush-Both tools print f answers now (some winner) w state fresh h =
      resume-Both tools print answers now winner (record w { pending = w.durable }) (h.0, h.0)
  flush-Both tools print f answers now none w state fresh h =
      elim (Bool-cases (contains f.project_id w.pending.projects)) [
        | inr e ↦ rw e (h.0, h.0)
        | inl e ↦
            let s = added-Sound ks log f w.pending.files state fresh h.1 in
            let t = record w.pending { files = w.pending.files ++ f ∷ [] } in
            rw e (provision-Both f.id answers now (record w { durable = t; pending = t }) (s, s))
      ]

  -- The id of the new row is one that no ticket names.
  begin-Both :
      (tools : TextTools) (actor : Actor) (command : UploadStart) (key : Text) (file_id : Uuid)
      (answers : Answers) (now : Time) (w : Work)
      → All (λ k. k.file_id ≢ file_id) ks
      → Both ks log w
      → Both ks log (begin_upload tools actor command key file_id (λ t. t) answers now w).1
  unfolding begin_upload new_file
  begin-Both tools actor command key file_id answers now w fresh h =
      elim (Bool-cases (is_idempotency_key key)) [
        | inr e ↦ rw e h
        | inl e ↦
            elim (Option-cases
              (find_by (is_upload_of command.project_id actor key) w.pending.files)) [
                | inr (f, o) ↦
                    rw (e, o) (resume-Both tools (fingerprint tools command) answers now f w h)
                | inl o ↦
                    rw (e, o)
                      (flush-Both tools (fingerprint tools command)
                        (new_file tools actor command key file_id now) answers now
                        (find_by (is_upload_of command.project_id actor key) w.durable.files)
                        (record w { pending = w.durable }) (λ c. cc) fresh (h.0, h.0))
              ]
      ]

  pub start-Both :
      (tools : TextTools) (actor : Actor) (command : UploadStart) (key : Text) (file_id : Uuid)
      (answers : Answers) (now : Time) (w : Work)
      → All (λ k. k.file_id ≢ file_id) ks
      → Both ks log w
      → Both ks log (start_upload tools actor command key file_id (λ t. t) answers now w).1
  unfolding start_upload
  start-Both tools actor command key file_id answers now w fresh h =
      elim (Result-cases (require_project_access actor command.project_id)) [
        | inr (x, a) ↦ rw a h
        | inl (u, a) ↦ rw a (begin-Both tools actor command key file_id answers now w fresh h)
      ]

  pub start_import-Both :
      (tools : TextTools) (actor : Actor) (command : UploadStart) (key : Text) (file_id : Uuid)
      (answers : Answers) (now : Time) (w : Work)
      → All (λ k. k.file_id ≢ file_id) ks
      → Both ks log w
      → Both ks log (start_import_upload tools actor command key file_id (λ t. t) answers now w).1
  unfolding start_import_upload
  start_import-Both tools actor command key file_id answers now w fresh h =
      elim (Bool-cases (device_may actor command.project_id imports_create)) [
        | inr a ↦ rw a h
        | inl a ↦ rw a (begin-Both tools actor command key file_id answers now w fresh h)
      ]
