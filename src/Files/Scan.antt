-- ===== src/Files/Scan.antt =====
-- FileScanService of server/src/superboss/modules/files/service.py: a first transaction claims
-- the file, the object is read and scanned outside any transaction, and a second one records the
-- outcome. What other transactions commit in between is an argument.
pub mod Tickets
pub mod Soundness
pub mod Services
pub mod Starts
pub mod Verdict
use super_boss.Base.{
  ℕ, Bool, true, false, Option, none, some, List, [], ◌∷◌, ◌++◌, Uuid, Time, Digest, ◌==◌, not,
  ◌&&◌, if◌then◌else◌,
}
use super_boss.Base.Texts.{Text, codes}
use super_boss.Files.Names.{safe_signature}
use super_boss.Files.Vault.{
  File, FileState, is_quarantined, is_scanning, Tables, StorageCall, delete_object, get_file,
  put_file,
}

-- infrastructure/clamav.py
pub data ScanVerdict : Type 0 where
  clean : ScanVerdict
  infected : Option Text → ScanVerdict

-- What the scan holds between its transactions.
pub record Ticket : Type 0 where
  pub file_id : Uuid
  pub object_key : Text
  pub expected_sha256 : Digest

abbrev claimed : Time → Tables → Option File → Option Ticket × Tables
claimed now t none = (none, t)
claimed now t (some f) = if not (is_quarantined f.state) then (none, t) else (
  some (record { file_id = f.id; object_key = f.object_key; expected_sha256 = f.sha256 }),
  put_file now (record f { state = FileState.scanning }) t,
)

-- The first transaction: every state but QUARANTINED is left alone, the terminal ones included.
unfoldable pub claim : Uuid → Time → Tables → Option Ticket × Tables
claim id now t = claimed now t (get_file id t)

abbrev judged : ScanVerdict → FileState × Text
judged clean = (FileState.clean, codes "CLEAN")
judged (infected none) = (FileState.infected, codes "INFECTED")
judged (infected (some signature)) = (FileState.infected, safe_signature signature)

-- The new state and the stored result. `none` stands for an exception while the object is read
-- or scanned; a digest is that of the bytes that were read.
pub scan_outcome : Digest → Option (Digest × ScanVerdict) → FileState × Text
scan_outcome expected none = (FileState.failed, codes "SCAN_FAILED")
scan_outcome expected (some (digest, verdict)) =
    if not (digest == expected) then (FileState.failed, codes "HASH_MISMATCH") else judged verdict

abbrev recorded : FileState × Text → Time → Tables → Option File → Bool × Tables
recorded outcome now t none = (false, t)
recorded (state, scan_result) now t (some f) =
    if not (is_scanning f.state)
    then (false, t)
    else (true, put_file now (record f { state = state; scan_result = some scan_result }) t)

-- The second transaction: whether the outcome was recorded, and the tables.
pub record_outcome : Uuid → FileState × Text → Time → Tables → Bool × Tables
record_outcome id outcome now t = recorded outcome now t (get_file id t)

-- `new_state in {INFECTED, FAILED}`
abbrev pub is_rejected : FileState → Bool
is_rejected FileState.infected = true
is_rejected FileState.failed = true
is_rejected _ = false

abbrev scanned :
    Option (Digest × ScanVerdict)
    → (Tables → Tables)
    → Time
    → Option Ticket × Tables
    → List StorageCall × Tables
scanned observed meanwhile now (none, t) = ([], t)
scanned observed meanwhile now (some ticket, t) =
    let outcome = scan_outcome ticket.expected_sha256 observed in
    let (done, t') = record_outcome ticket.file_id outcome now (meanwhile t) in
    (if done && is_rejected outcome.0 then delete_object ticket.object_key ∷ [] else [], t')

-- `scan_file`: the storage calls and the tables. `meanwhile` is what other transactions commit
-- while the object is scanned.
pub scan_file :
    Uuid
    → Option (Digest × ScanVerdict)
    → (meanwhile : Tables → Tables) → (claimed_at recorded_at : Time) → Tables
    → List StorageCall × Tables
scan_file id observed meanwhile claimed_at recorded_at t =
    scanned observed meanwhile recorded_at (claim id claimed_at t)
