-- ===== src/Files/Complete/Downloads.antt =====
-- Who may download what: FileService.presign_download.
use super_boss.Base.{◌≡◌, ◌↔◌, refl, inl, inr, true, Option, some, Uuid, Option-cases}
use super_boss.Base.Texts.{Text}
use super_boss.Core.Exec.{ok, Result-cases, is_ok}
use super_boss.Core.Actors.{Actor, require_project_access}
use super_boss.Core.Actors.Access.{MayAccess, require_project_access_iff}
use super_boss.Files.Vault.{File, FileState, Work, get_file}
use super_boss.Files.Complete.{Presigned, Signer, get_url, presign_download, ensure_downloadable}

ensure_downloadable_clean :
    (s : FileState) → is_ok (ensure_downloadable s) ≡ true → s ≡ FileState.clean
unfolding ensure_downloadable
ensure_downloadable_clean FileState.clean e = refl
ensure_downloadable_clean FileState.uploading e = cc
ensure_downloadable_clean FileState.quarantined e = cc
ensure_downloadable_clean FileState.scanning e = cc
ensure_downloadable_clean FileState.infected e = cc
ensure_downloadable_clean FileState.failed e = cc

-- what a download URL of a file needs
abbrev pub MayDownload : Signer → Actor → Uuid → Text → Work → Type 0
MayDownload signer actor id url w =
    (f : File) × (presign : Presigned → Option Text) × (get_file id w.pending ≡ some f)
    × MayAccess actor f.project_id
    × (f.state ≡ FileState.clean)
    × (signer ≡ some presign)
    × (presign (get_url f.object_key 60) ≡ some url)

-- A download URL is signed exactly when the file exists, the actor is the OWNER or STAFF with a
-- membership of its project, the file is CLEAN, and the storage is configured and signs it; it is
-- then the URL of that file's object for 60 seconds.
pub presign_download_iff :
    (signer : Signer) (actor : Actor) (id : Uuid) (url : Text) (w : Work)
    → ((presign_download signer actor id w).0 ≡ ok url) ↔ MayDownload signer actor id url w
unfolding presign_download ensure_downloadable
presign_download_iff signer actor id url w = (to, from)
  where
    to : (presign_download signer actor id w).0 ≡ ok url → MayDownload signer actor id url w
    to done = elim (Option-cases (get_file id w.pending)) [
      | inl e ↦ absurd (cc (rw e at done))
      | inr (f, e) ↦ elim (Result-cases (require_project_access actor f.project_id)) [
        | inr (x, a) ↦ absurd (cc (rw (e, a) at done))
        | inl (u, a) ↦ elim (Result-cases (ensure_downloadable f.state)) [
          | inr (x, c) ↦ absurd (cc (rw (e, a, c) at done))
          | inl (v, c) ↦ elim (Option-cases signer) [
            | inl s ↦ absurd (cc (rw (e, a, c, s) at done))
            | inr (presign, s) ↦ elim (Option-cases (presign (get_url f.object_key 60))) [
              | inl p ↦ absurd (cc (rw (e, a, c, s, p) at done))
              | inr (signed, p) ↦
                  let same : signed ≡ url = cc (rw (e, a, c, s, p) at done) in
                  (
                    f,
                    presign,
                    e,
                    (require_project_access_iff actor f.project_id).0 (rw a refl),
                    ensure_downloadable_clean f.state (rw c refl),
                    s,
                    rw p (rw same refl),
                  )
            ]
          ]
        ]
      ]
    ]

    from : MayDownload signer actor id url w → (presign_download signer actor id w).0 ≡ ok url
    from (f, presign, e, a, c, s, p) =
        elim (Result-cases (require_project_access actor f.project_id)) [
          | inl (u, a') ↦ rw (e, a', c, s, p) refl
          | inr (x, a') ↦ absurd (cc (rw a' at (require_project_access_iff actor f.project_id).1 a))
        ]
