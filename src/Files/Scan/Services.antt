-- ===== src/Files/Scan/Services.antt =====
-- The services that write files beside the scan workers keep `Sound`: uploads that are completed and
-- that expire (Starts has those that start).
use super_boss.Base.{
  ℕ, ◌≡◌, refl, inl, inr, Bool, true, false, Option, none, some, List, [], ◌∷◌, ◌++◌, Uuid, Time,
  Bool-cases, Option-cases, not, ◌||◌, ◌==◌, leb,
}
use super_boss.Base.Rows.{save}
use super_boss.Base.Texts.{Text, codes}
use super_boss.Core.Exec.{ok, Result-cases}
use super_boss.Core.Actors.{Actor}
use super_boss.Files.Vault.{
  File, FileState, is_uploading, Work, CompletedPart, file_key, complete_multipart, get_file,
}
use super_boss.Files.Scan.{Ticket}
use super_boss.Files.Scan.Soundness.{Scan, Sound, rewritten-Sound}
use super_boss.Files.Complete.{
  authorize_upload, complete_upload, finish_upload, has_duplicate, sort_parts,
}
use super_boss.Files.Stale.{expire_one, abort_open, clean_up}

abort_open_lem :
    (key : Text) (o : Option Text) (w : Work)
    → abort_open key o w ≡ (ok tt, record w { calls = (abort_open key o w).1.calls })
abort_open_lem key none w = refl
abort_open_lem key (some m) w = refl

clean_up_lem :
    (has_storage : Bool) (f : File) (w : Work)
    → clean_up has_storage f w ≡ (ok tt, record w { calls = (clean_up has_storage f w).1.calls })
clean_up_lem false f w = refl
clean_up_lem true f w = rw (abort_open_lem f.object_key f.multipart_id w) refl

module _ (ks : List Ticket) (log : List Scan) where
  -- what is committed and what the session holds
  abbrev pub Both : Work → Type 0
  Both w = Sound ks log w.durable.files × Sound ks log w.pending.files

  finished-Both :
      (actor : Actor) (id : Uuid) (f : File) (request_id : Option Uuid) (now : Time)
      (answer : Option ℕ) (w : Work)
      → get_file id w.pending ≡ some f
      → Both w
      → Both (finish_upload actor f request_id now answer w).1
  finished-Both actor id f request_id now none w found h = (h.0, h.0)
  finished-Both actor id f request_id now (some n) w found h =
      elim (Bool-cases (n == f.size_bytes)) [
        | inr e ↦
            let r = record f {
              state = FileState.failed;
              scan_result = some (codes "SIZE_MISMATCH");
              updated_at = now;
            } in
            let s = rewritten-Sound ks log id f r w.pending found refl refl (λ c. cc) h.1 in
            rw e (s, s)
        | inl e ↦
            let r = record f { state = FileState.quarantined; updated_at = now } in
            let s = rewritten-Sound ks log id f r w.pending found refl refl (λ c. cc) h.1 in
            elim (Option-cases request_id) [
              | inl q ↦ rw (e, q) (s, s)
              | inr (r, q) ↦ rw (e, q) (s, s)
            ]
      ]

  pub complete-Both :
      (actor : Actor) (id : Uuid) (parts : List CompletedPart) (request_id : Option Uuid)
      (import_device : Bool) (now : Time) (answer : Option ℕ) (w : Work)
      → Both w
      → Both (complete_upload actor id parts request_id import_device now answer w).1
  unfolding complete_upload
  complete-Both actor id parts request_id import_device now answer w h =
      elim (Option-cases (get_file id w.pending)) [
        | inl e ↦ rw e h
        | inr (f, e) ↦ elim (Result-cases (authorize_upload actor f.project_id import_device)) [
          | inr (x, a) ↦ rw (e, a) h
          | inl (u, a) ↦ elim (Bool-cases (is_uploading f.state)) [
            | inr up ↦ rw (e, a, up) h
            | inl up ↦ elim (Option-cases f.multipart_id) [
              | inl m ↦ rw (e, a, up, m) h
              | inr (multipart_id, m) ↦ elim (Bool-cases (has_duplicate parts)) [
                | inl dup ↦ rw (e, a, up, m, dup) h
                | inr dup ↦
                    simp (e, a, up, m, dup)
                      (finished-Both actor id f request_id now answer
                        (record w {
                          calls =
                              w.calls
                              ++ complete_multipart f.object_key multipart_id (sort_parts parts)
                                ∷ [];
                        })
                        e h)
              ]
            ]
          ]
        ]
      ]

  pub expire-Both :
      (has_storage : Bool) (id : Uuid) (cutoff now : Time) (w : Work)
      → Both w
      → Both (expire_one has_storage id cutoff now (λ t. t) w).1
  unfolding expire_one
  expire-Both has_storage id cutoff now w h = elim (Option-cases (get_file id w.durable)) [
    | inl e ↦ rw e (h.0, h.0)
    | inr (f, e) ↦ elim (Bool-cases (not (is_uploading f.state) || leb cutoff f.created_at)) [
      | inl kept ↦ rw (e, kept) (h.0, h.0)
      | inr gone ↦
          let r = record f {
            state = FileState.failed;
            scan_result = some (codes "UPLOAD_EXPIRED");
            updated_at = now;
          } in
          let s = rewritten-Sound ks log id f r w.durable e refl refl (λ c. cc) h.0 in
          let t = record w.durable { files = save file_key r w.durable.files } in
          rw (e, gone, clean_up_lem has_storage f (record w { durable = t; pending = t })) (s, s)
    ]
  ]
