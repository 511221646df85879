-- ===== src/Files/Complete/Again.antt =====
-- A completed upload that is completed again: FileService.complete_upload after itself.
use mathlib.Core.Path.{subst}
use super_boss.Base.{
  ℕ, ◌≡◌, refl, inl, inr, Bool, true, false, Option, none, some, List, [], ◌∷◌, ◌++◌, Uuid, Time,
  Bool-cases, Option-cases, ◌==◌,
}
use super_boss.Base.Rows.{find_by-save, find_by-holds}
use super_boss.Core.Exec.{ok, Result-cases, is_ok}
use super_boss.Core.Actors.{Actor}
use super_boss.Files.Vault.{
  complete_multipart, File, FileState, CompletedPart, is_uploading, file_key, Work, get_file,
}
use super_boss.Files.Complete.{
  authorize_upload, complete_upload, complete_active, finish_upload, has_duplicate, sort_parts,
}

-- the row of an upload that was completed
abbrev completed : File → Time → File
completed f now = record f { state = FileState.quarantined; updated_at = now }

module _ (actor : Actor) (id : Uuid) (import_device : Bool) where
  -- what a call that succeeds returns leaves behind
  abbrev Holds : Work → File → Type 0
  Holds w f =
      (get_file id w.pending ≡ some f)
      × (is_uploading f.state ≡ false)
      × (is_ok (authorize_upload actor f.project_id import_device) ≡ true)

  unchanged :
      (parts : List CompletedPart) (request_id : Option Uuid) (now : Time) (answer : Option ℕ)
      (w : Work) (f : File)
      → Holds w f
      → complete_upload actor id parts request_id import_device now answer w ≡ (ok f, w)
  unfolding complete_upload
  unchanged parts request_id now answer w f (found, closed, allowed) =
      elim (Result-cases (authorize_upload actor f.project_id import_device)) [
        | inl (u, a) ↦ rw (found, a, closed) refl
        | inr (x, a) ↦ absurd (cc (rw a at allowed))
      ]

  landed :
      (f : File) (request_id : Option Uuid) (now : Time) (n : ℕ) (w : Work)
      → get_file id w.pending ≡ some f
      → is_ok (authorize_upload actor f.project_id import_device) ≡ true
      → (n == f.size_bytes) ≡ true
      → ((finish_upload actor f request_id now (some n) w).0 ≡ ok (completed f now))
        × Holds (finish_upload actor f request_id now (some n) w).1 (completed f now)
  landed f request_id now n w found allowed e =
      let saved =
        find_by-save file_key (λ g. g.id == id) f (completed f now) w.pending.files found refl
          (find_by-holds (λ g. g.id == id) f w.pending.files found) in
      elim (Option-cases request_id) [
        | inl r ↦ rw (e, r) (refl, (saved, refl, allowed))
        | inr (q, r) ↦ rw (e, r) (refl, (saved, refl, allowed))
      ]

  finished :
      (f : File) (request_id : Option Uuid) (now : Time) (answer : Option ℕ) (w : Work) (g : File)
      → get_file id w.pending ≡ some f
      → is_ok (authorize_upload actor f.project_id import_device) ≡ true
      → (finish_upload actor f request_id now answer w).0 ≡ ok g
      → Holds (finish_upload actor f request_id now answer w).1 g
  finished f request_id now none w g found allowed done = cc
  finished f request_id now (some n) w g found allowed done =
      elim (Bool-cases (n == f.size_bytes)) [
        | inl e ↦
            let (out, holds) = landed f request_id now n w found allowed e in
            let same : completed f now ≡ g = cc in
            subst (Holds (finish_upload actor f request_id now (some n) w).1) same holds
        | inr e ↦ absurd (cc (rw e at done))
      ]

  activated :
      (f : File) (parts : List CompletedPart) (request_id : Option Uuid) (now : Time)
      (answer : Option ℕ) (w : Work) (g : File)
      → get_file id w.pending ≡ some f
      → is_ok (authorize_upload actor f.project_id import_device) ≡ true
      → (complete_active actor f parts request_id now answer w).0 ≡ ok g
      → Holds (complete_active actor f parts request_id now answer w).1 g
  activated f parts request_id now answer w g found allowed done =
      elim (Option-cases f.multipart_id) [
        | inl m ↦ absurd (cc (rw m at done))
        | inr (multipart_id, m) ↦ elim (Bool-cases (has_duplicate parts)) [
          | inl dup ↦ absurd (cc (rw (m, dup) at done))
          | inr dup ↦
              simp (m, dup)
                (finished f request_id now answer
                  (record w {
                    calls =
                        w.calls
                        ++ complete_multipart f.object_key multipart_id (sort_parts parts) ∷ [];
                  })
                  g found allowed (simp (m, dup) at done))
        ]
      ]

  -- A completion that succeeded leaves a state in which every further completion by the same
  -- actor returns the same file and changes nothing: no row, no storage call, no audit row and no
  -- scan job, whatever parts it names.
  pub completed_twice :
      (parts parts' : List CompletedPart) (request_id request_id' : Option Uuid) (now later : Time)
      (answer answer' : Option ℕ) (w : Work) (f : File)
      → (complete_upload actor id parts request_id import_device now answer w).0 ≡ ok f
      → let w' = (complete_upload actor id parts request_id import_device now answer w).1 in
        complete_upload actor id parts' request_id' import_device later answer' w' ≡ (ok f, w')
  unfolding complete_upload
  completed_twice parts parts' request_id request_id' now later answer answer' w f done =
      unchanged parts' request_id' later answer' _ f (elim (Option-cases (get_file id w.pending)) [
        | inl e ↦ absurd (cc (rw e at done))
        | inr (g, e) ↦ elim (Result-cases (authorize_upload actor g.project_id import_device)) [
          | inr (x, a) ↦ absurd (cc (rw (e, a) at done))
          | inl (u, a) ↦ elim (Bool-cases (is_uploading g.state)) [
            | inl up ↦
                rw (e, a, up)
                  (activated g parts request_id now answer w f e (rw a refl)
                    (rw (e, a, up) at done))
            | inr up ↦
                let same : g ≡ f = cc (rw (e, a, up) at done) in
                rw (e, a, up) (subst (Holds w) same (e, up, rw a refl))
          ]
        ]
      ])
