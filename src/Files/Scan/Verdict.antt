-- ===== src/Files/Scan/Verdict.antt =====
-- What makes a file CLEAN, over any interleaving of scan workers and of the services that write
-- the same rows: uploads that start, are completed and expire.
use super_boss.Base.{ℕ, ◌≡◌, ◌≢◌, Bool, true, some, Option, List, [], ◌∷◌, Uuid, Time, Digest}
use super_boss.Base.Lists.{All, All-map_lem}
use super_boss.Base.Rows.{find_by, All-find_by}
use super_boss.Base.Texts.{Text}
use super_boss.Core.Actors.{Actor}
use super_boss.Files.Vault.{FileState, Tables, CompletedPart, Work}
use super_boss.Files.Complete.{complete_upload}
use super_boss.Files.Stale.{expire_one}
use super_boss.Files.Upload.{UploadStart, TextTools, Answers, start_upload, start_import_upload}
use super_boss.Files.Scan.{ScanVerdict, Ticket, claim, scan_outcome, record_outcome}
use super_boss.Files.Scan.Soundness.{
  Scan, was_scanned, held, Justified, Matches, Sound, claimed-Sound, reported-Sound,
}
use super_boss.Files.Scan.Services.{complete-Both, expire-Both}
use super_boss.Files.Scan.Starts.{start-Both, start_import-Both}

-- the session of a request, over the committed tables
abbrev pub session : Tables → Work
session t = record { durable = t; pending = t; calls = []; queued = [] }

-- The tables that scan workers and the services lead to, with the tickets that were given out and
-- what their holders saw. A service that lets other transactions commit first (`meanwhile`) reads
-- the tables anew, so those transactions are steps before its own.
pub data Reaches (t₀ : Tables) : List Ticket → List Scan → Tables → Type 0 where
  starts : Reaches t₀ [] [] t₀
  claims :
      {ks : List Ticket} {log : List Scan} {t : Tables} (id : Uuid) (now : Time)
      → Reaches t₀ ks log t
      → Reaches t₀ (held (claim id now t).0 ks) log (claim id now t).1
  -- The worker whose ticket passes a test reports what it saw.
  reports :
      {ks : List Ticket} {log : List Scan} {t : Tables} (which : Ticket → Bool) (k : Ticket)
      (observed : Option (Digest × ScanVerdict)) (now : Time)
      → find_by which ks ≡ some k
      → Reaches t₀ ks log t
      → Reaches t₀ ks
          ((k.file_id, observed) ∷ log)
          (record_outcome k.file_id (scan_outcome k.expected_sha256 observed) now t).1
  completes :
      {ks : List Ticket} {log : List Scan} {t : Tables} (actor : Actor) (id : Uuid)
      (parts : List CompletedPart) (request_id : Option Uuid) (import_device : Bool) (now : Time)
      (answer : Option ℕ)
      → Reaches t₀ ks log t
      → Reaches t₀ ks log
          (complete_upload actor id parts request_id import_device now answer (session t)).1.durable
  expires :
      {ks : List Ticket} {log : List Scan} {t : Tables} (has_storage : Bool) (id : Uuid)
      (cutoff now : Time)
      → Reaches t₀ ks log t
      → Reaches t₀ ks log (expire_one has_storage id cutoff now (λ s. s) (session t)).1.durable
  -- An upload starts; the `uuid4()` it draws is the id of no file that a ticket names.
  uploads :
      {ks : List Ticket} {log : List Scan} {t : Tables} (tools : TextTools) (actor : Actor)
      (command : UploadStart) (key : Text) (file_id : Uuid) (answers : Answers) (now : Time)
      → All (λ k. k.file_id ≢ file_id) ks
      → Reaches t₀ ks log t
      → Reaches t₀ ks log
          (start_upload tools actor command key file_id (λ s. s) answers now (session t)).1.durable
  imports :
      {ks : List Ticket} {log : List Scan} {t : Tables} (tools : TextTools) (actor : Actor)
      (command : UploadStart) (key : Text) (file_id : Uuid) (answers : Answers) (now : Time)
      → All (λ k. k.file_id ≢ file_id) ks
      → Reaches t₀ ks log t
      → Reaches t₀ ks log
          (start_import_upload tools actor command key file_id
            (λ s. s)
            answers
            now
            (session t)).1.durable

run-Sound :
    {t₀ t : Tables} (ks : List Ticket) (log : List Scan)
    → All (Justified []) t₀.files
    → Reaches t₀ ks log t
    → Sound ks log t.files
run-Sound ks log h starts = (h, tt)
run-Sound ks log h (claims {ks = ks₀} {t = t} id now run) =
    claimed-Sound ks₀ log id now t (run-Sound ks₀ log h run)
run-Sound ks log h (reports {log = log₀} {t = t} which k observed now at run) =
    let sound = run-Sound ks log₀ h run in
    reported-Sound ks log₀ k observed now t (All-find_by (Matches t.files) which k ks sound.1 at)
      sound
run-Sound ks log h (completes {t = t} actor id parts request_id import_device now answer run) =
    let s = run-Sound ks log h run in
    (complete-Both ks log actor id parts request_id import_device now answer (session t) (s, s)).0
run-Sound ks log h (expires {t = t} has_storage id cutoff now run) =
    let s = run-Sound ks log h run in
    (expire-Both ks log has_storage id cutoff now (session t) (s, s)).0
run-Sound ks log h (uploads {t = t} tools actor command key file_id answers now fresh run) =
    let s = run-Sound ks log h run in
    (start-Both ks log tools actor command key file_id answers now (session t) fresh (s, s)).0
run-Sound ks log h (imports {t = t} tools actor command key file_id answers now fresh run) =
    let s = run-Sound ks log h run in
    (start_import-Both ks log tools actor command key file_id answers now (session t) fresh
      (s, s)).0

-- In tables that began with no CLEAN file, whatever scan workers do, and uploads that start under
-- an id that no ticket names, are completed and expire, in whatever order, a file that is CLEAN was
-- scanned: a worker with a ticket of it read bytes with the digest of its row, and the scanner
-- found nothing in them.
pub clean_was_scanned :
    {t₀ t : Tables} (ks : List Ticket) (log : List Scan)
    → All (λ f. f.state ≢ FileState.clean) t₀.files
    → Reaches t₀ ks log t
    → All (λ f. f.state ≡ FileState.clean → was_scanned log f ≡ true) t.files
clean_was_scanned {t₀ = t₀} ks log none_clean run =
    (run-Sound ks log (All-map_lem _ _ (λ f n c. absurd (n c)) t₀.files none_clean) run).0
