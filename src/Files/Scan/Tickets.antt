-- ===== src/Files/Scan/Tickets.antt =====
-- Who scans a file: the claim of FileScanService.scan_file.
use super_boss.Base.{
  ◌≡◌, refl, inl, inr, true, none, some, Uuid, Time, Bool-cases, Option-cases, ◌==◌, is_some,
}
use super_boss.Base.Rows.{find_by-save, find_by-holds}
use super_boss.Files.Vault.{File, FileState, is_quarantined, file_key, Tables, get_file}
use super_boss.Files.Scan.{claim}

abbrev taken : File → Time → File
taken f now = record f { state = FileState.scanning; updated_at = now }

claimed_again :
    (id : Uuid) (now later : Time) (t : Tables) (f : File)
    → get_file id t ≡ some f
    → is_quarantined f.state ≡ true
    → claim id later (claim id now t).1 ≡ (none, (claim id now t).1)
unfolding claim
claimed_again id now later t f found waiting =
    rw (found, waiting)
      (rw
        (find_by-save file_key (λ g. g.id == id) f (taken f now) t.files found refl
          (find_by-holds (λ g. g.id == id) f t.files found))
        refl)

-- In the tables that a claim of a file leaves, every further claim of it is refused and changes
-- nothing.
pub claimed_once :
    (id : Uuid) (now later : Time) (t : Tables)
    → is_some (claim id now t).0 ≡ true
    → claim id later (claim id now t).1 ≡ (none, (claim id now t).1)
unfolding claim
claimed_once id now later t done = elim (Option-cases (get_file id t)) [
  | inl e ↦ absurd (cc (rw e at done))
  | inr (f, e) ↦ elim (Bool-cases (is_quarantined f.state)) [
    | inl q ↦ claimed_again id now later t f e q
    | inr q ↦ absurd (cc (rw (e, q) at done))
  ]
]
