-- ===== src/Tests/Files.antt =====
-- The theorems about files at one upload of three bytes.
use super_boss.Base.{
  ℕ, ◌≡◌, ◌<◌, ◌≤◌, ◌↔◌, ◌⊎◌, refl, true, false, none, some, Option, List, [], ◌∷◌, ◌++◌, arith,
}
use super_boss.Base.Lists.{All, length}
use super_boss.Base.Rows.{save}
use super_boss.Base.Texts.{Text, codes}
use super_boss.Files.ClamAv.{ClamAvScanner, conversation, send_chunks, send_frames}
use super_boss.Files.ClamAv.Written.{conversation-done}
use super_boss.Files.ClamAv.Frames.{deframe, deframe-conversation}
use super_boss.Core.Exec.{ok}
use super_boss.Core.Actors.{Actor, ActorKind, require_project_access, staff}
use super_boss.Files.Names.{
  safe_signature, safe_signature_safe, segment, segment-IsSegment, IsSegment, in_signature,
}
use super_boss.Files.Vault.{File, FileState, Tables, Work, CompletedPart, get_file, file_key}
use super_boss.Files.Scan.{ScanVerdict, Ticket, claim, record_outcome, scan_outcome}
use super_boss.Files.Scan.Tickets.{claimed_once}
use super_boss.Files.Scan.Soundness.{was_scanned}
use super_boss.Files.Scan.Verdict.{session, starts, claims, reports, completes, clean_was_scanned}
use super_boss.Files.Complete.{
  Signer, presign_download, complete_upload, authorize_upload, has_duplicate,
}
use super_boss.Files.Complete.Downloads.{MayDownload, presign_download_iff}
use super_boss.Files.Complete.Again.{completed_twice}
use super_boss.Files.Stale.{expire_one}
use super_boss.Files.Stale.Expiry.{expire_one_iff, expired}

abbrev pub upload_of : FileState → File
upload_of state = record {
  id = 1;
  project_id = 5;
  filename = codes "a.pdf";
  category = codes "letters";
  file_date = codes "2026-01-01";
  object_key = codes "projects/a.pdf";
  size_bytes = 3;
  sha256 = 77;
  state = state;
  uploader_id = 9;
  uploader_kind = ActorKind.user;
  content_type = codes "application/pdf";
  scan_result = none;
  metadata_fingerprint = none;
  idempotency_key = none;
  multipart_id = some (codes "m");
  created_at = 10;
  updated_at = 10;
}

abbrev vault : FileState → Tables
vault state = record { files = upload_of state ∷ []; projects = 5 ∷ []; audit = [] }

abbrev work : FileState → Work
work state = record { durable = vault state; pending = vault state; calls = []; queued = [] }

abbrev member : Actor
member = record {
  kind = ActorKind.user;
  subject_id = 9;
  role = some staff;
  project_ids = 5 ∷ [];
  scopes = [];
}

abbrev parts : List CompletedPart
parts = record { part_number = 1; etag = codes "e" } ∷ []

claimed_once_example :
    claim 1 30 (claim 1 20 (vault FileState.quarantined)).1
    ≡ (none, (claim 1 20 (vault FileState.quarantined)).1)
unfolding claim
claimed_once_example = claimed_once 1 20 30 (vault FileState.quarantined) refl

abbrev ticket : Ticket
ticket = record { file_id = 1; object_key = codes "projects/a.pdf"; expected_sha256 = 77 }

abbrev scanned : Option (ℕ × ScanVerdict)
scanned = some (77, ScanVerdict.clean)

-- the upload is completed, then claimed
abbrev claimed : Option Ticket × Tables
claimed =
    claim 1 20
      (complete_upload member 1 parts none false 15 (some 3)
        (session (vault FileState.uploading))).1.durable

clean_was_scanned_example :
    All
      (λ f. f.state ≡ FileState.clean → was_scanned ((1, scanned) ∷ []) f ≡ true)
      (record_outcome 1 (scan_outcome 77 scanned) 30 claimed.1).1.files
unfolding claim complete_upload authorize_upload require_project_access has_duplicate
clean_was_scanned_example =
    clean_was_scanned {t₀ = vault FileState.uploading} (ticket ∷ []) ((1, scanned) ∷ [])
      ((λ e. cc), tt)
      (reports (λ k. true) ticket scanned 30 refl
        (claims 1 20 (completes member 1 parts none false 15 (some 3) starts)))

abbrev signer : Signer
signer = some (λ request. some (codes "https://storage/a.pdf"))

presign_download_iff_example :
    ((presign_download signer member 1 (work FileState.clean)).0
      ≡ ok (codes "https://storage/a.pdf"))
    ↔ MayDownload signer member 1 (codes "https://storage/a.pdf") (work FileState.clean)
presign_download_iff_example =
    presign_download_iff signer member 1 (codes "https://storage/a.pdf") (work FileState.clean)

completed_twice_example :
    complete_upload member 1 [] none false 50 none
      (complete_upload member 1 parts none false 40 (some 3) (work FileState.uploading)).1
    ≡ (
      ok (record (upload_of FileState.quarantined) { updated_at = 40 }),
      (complete_upload member 1 parts none false 40 (some 3) (work FileState.uploading)).1,
    )
unfolding complete_upload authorize_upload require_project_access has_duplicate
completed_twice_example =
    completed_twice member 1 false parts [] none none 40 50 (some 3) none (work FileState.uploading)
      (record (upload_of FileState.quarantined) { updated_at = 40 }) refl

expire_one_iff_example :
    ((f : File) × (get_file 1 (vault FileState.uploading) ≡ some f)
      × (f.state ≡ FileState.uploading)
      × (f.created_at < 20)
      × ((expire_one true 1 20 30 (λ t. t) (work FileState.uploading)).0 ≡ ok true)
      × ((expire_one true 1 20 30 (λ t. t) (work FileState.uploading)).1.durable.files
          ≡ save file_key (expired f 30) (vault FileState.uploading).files))
    ⊎ (((f : File)
          → get_file 1 (vault FileState.uploading) ≡ some f
          → f.state ≡ FileState.uploading
          → f.created_at < 20
          → ⊥)
        × (expire_one true 1 20 30 (λ t. t) (work FileState.uploading)
            ≡ (ok false, work FileState.uploading)))
expire_one_iff_example = expire_one_iff true 1 20 30 (λ t. t) (work FileState.uploading)

safe_signature_safe_example :
    (1 ≤ length (safe_signature (codes "Eicar/Test")))
    × (length (safe_signature (codes "Eicar/Test")) ≤ 128)
    × All (λ c. in_signature c ≡ true) (safe_signature (codes "Eicar/Test"))
safe_signature_safe_example = safe_signature_safe (codes "Eicar/Test")

segment-IsSegment_example : IsSegment (segment (λ c. false) (codes "../x/report") (codes "file"))
segment-IsSegment_example =
    segment-IsSegment (λ c. false) (codes "../x/report") (codes "file")
      (record {
        nonempty = omega arith;
        safe = (refl, (refl, (refl, (refl, tt))));
        starts = refl;
        ends = refl;
      })

abbrev scanner : ClamAvScanner
scanner = record { max_chunk_bytes = 2; max_stream_bytes = 10; max_response_bytes = 100 }

abbrev body : Text
body = 0 ∷ 0 ∷ 0 ∷ 2 ∷ 1 ∷ 2 ∷ 0 ∷ 0 ∷ 0 ∷ 1 ∷ 3 ∷ 0 ∷ 0 ∷ 0 ∷ 0 ∷ []

deframe-conversation_example :
    (found : Text) × (fuel : ℕ) × (codes "zINSTREAM" ++ 0 ∷ body ≡ codes "zINSTREAM" ++ 0 ∷ found)
    × (deframe fuel found ≡ some (1 ∷ 2 ∷ 3 ∷ []))
    × (length {A = ℕ} (1 ∷ 2 ∷ 3 ∷ []) ≤ 10)
unfolding conversation send_chunks send_frames
deframe-conversation_example =
    deframe-conversation scanner ((1 ∷ 2 ∷ 3 ∷ []) ∷ []) (codes "zINSTREAM" ++ 0 ∷ body)
      (omega arith) (omega arith) refl

conversation-done_example :
    (bytes : Text) × (conversation scanner ((1 ∷ 2 ∷ 3 ∷ []) ∷ []) ≡ some bytes)
conversation-done_example =
    conversation-done scanner ((1 ∷ 2 ∷ 3 ∷ []) ∷ []) (omega arith) (omega arith, tt) (omega arith)
