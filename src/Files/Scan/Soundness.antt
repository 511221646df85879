-- ===== src/Files/Scan/Soundness.antt =====
-- What the tables keep while files are scanned: a CLEAN row is justified by a scan, and a ticket has
-- the digest of its row.
use mathlib.Core.Path.{subst}
use super_boss.Base.{
  ◌≡◌, ◌≢◌, refl, sym, ap, ◌∙◌, inl, inr, Bool, true, false, Option, none, some, List, [], ◌∷◌,
  ◌++◌, arith, Uuid, Time, Digest, Bool-cases, Option-cases, ◌&&◌, ◌==◌, ==_iff,
}
use super_boss.Base.Lists.{All, any, All-append, All-map_lem}
use super_boss.Base.Rows.{find_by, save, find_by-holds, find_by-save, find_by-save_other, All-save}
use super_boss.Files.Vault.{
  File, FileState, is_quarantined, is_scanning, file_key, Tables, get_file, put_file,
}
use super_boss.Files.Scan.{ScanVerdict, Ticket, claim, scan_outcome, record_outcome}

-- what a worker that held a ticket of this file saw
abbrev pub Scan : Type 0
Scan = Uuid × Option (Digest × ScanVerdict)

abbrev pub passes : Digest → Option (Digest × ScanVerdict) → Bool
passes h (some (digest, ScanVerdict.clean)) = digest == h
passes h _ = false

abbrev pub was_scanned : List Scan → File → Bool
was_scanned log f = any (λ s. s.0 == f.id && passes f.sha256 s.1) log

abbrev pub held : Option Ticket → List Ticket → List Ticket
held none ks = ks
held (some k) ks = k ∷ ks

abbrev pub Justified : List Scan → File → Type 0
Justified log f = f.state ≡ FileState.clean → was_scanned log f ≡ true

-- The ticket's digest is that of the row it names.
abbrev pub Matches : List File → Ticket → Type 0
Matches fs k =
    (f : File) → find_by (λ g. g.id == k.file_id) fs ≡ some f → f.sha256 ≡ k.expected_sha256

abbrev pub Sound : List Ticket → List Scan → List File → Type 0
Sound ks log fs = All (Justified log) fs × All (Matches fs) ks

found_id : (id : Uuid) (t : Tables) (f : File) → get_file id t ≡ some f → f.id ≡ id
found_id id t f found = (==_iff f.id id).0 (find_by-holds (λ g. g.id == id) f t.files found)

Justified-more : (s : Scan) (log : List Scan) (f : File) → Justified log f → Justified (s ∷ log) f
Justified-more s log f h clean = ground (arith, h clean)

module _ (f r : File) (t : Tables) (found : get_file f.id t ≡ some f) (same_id : r.id ≡ f.id)
    (same : r.sha256 ≡ f.sha256) where
  Matches-save : (k : Ticket) → Matches t.files k → Matches (save file_key r t.files) k
  Matches-save k h g e = elim (Bool-cases (f.id == k.file_id)) [
    | inl eq ↦
        let named : f.id ≡ k.file_id = (==_iff f.id k.file_id).0 eq in
        let old : find_by (λ x. x.id == k.file_id) t.files ≡ some f =
          subst (λ id. find_by (λ x. x.id == id) t.files ≡ some f) named found in
        let new : find_by (λ x. x.id == k.file_id) (save file_key r t.files) ≡ some r =
          find_by-save file_key (λ x. x.id == k.file_id) f r t.files old same_id (ground arith) in
        let it : r ≡ g = cc in ap (λ (x : File). x.sha256) (sym it) ∙ same ∙ h f old
    | inr ne ↦ h g (sym (find_by-save_other file_key k.file_id r t.files (ground arith)) ∙ e)
  ]

  saved :
      (ks : List Ticket) (log : List Scan)
      → Justified log r
      → Sound ks log t.files
      → Sound ks log (save file_key r t.files)
  saved ks log ok (j, m) =
      (All-save (Justified log) file_key r t.files ok j, All-map_lem _ _ Matches-save ks m)

abbrev ticket : File → Ticket
ticket f = record { file_id = f.id; object_key = f.object_key; expected_sha256 = f.sha256 }

pub claimed-Sound :
    (ks : List Ticket) (log : List Scan) (id : Uuid) (now : Time) (t : Tables)
    → Sound ks log t.files
    → Sound (held (claim id now t).0 ks) log (claim id now t).1.files
unfolding claim
claimed-Sound ks log id now t (j, m) = elim (Option-cases (get_file id t)) [
  | inl e ↦ rw e (j, m)
  | inr (f, e) ↦ elim (Bool-cases (is_quarantined f.state)) [
    | inl q ↦
        rw (e, q) (ticket_given f (subst (λ i. get_file i t ≡ some f) (sym (found_id id t f e)) e))
    | inr q ↦ rw (e, q) (j, m)
  ]
]
  where
    ticket_given :
        (f : File)
        → get_file f.id t ≡ some f
        → Sound (ticket f ∷ ks) log (put_file now (record f { state = FileState.scanning }) t).files
    ticket_given f here =
        let r = record f { state = FileState.scanning; updated_at = now } in
        let (j', m') = saved f r t here refl refl ks log (λ c. cc) (j, m) in
        (
          j',
          (
            Matches-save f r t here refl refl (ticket f) (λ g e.
                ap (λ (o : Option File). elim o [ none ↦ f.sha256 | some x ↦ x.sha256 ])
                  (sym e ∙ here)),
            m',
          ),
        )

-- A verdict of CLEAN means that the digest was the expected one and the scanner found nothing.
clean_passes :
    (expected : Digest) (observed : Option (Digest × ScanVerdict))
    → (scan_outcome expected observed).0 ≡ FileState.clean
    → passes expected observed ≡ true
unfolding scan_outcome
clean_passes expected none e = cc
clean_passes expected (some (digest, ScanVerdict.clean)) e = ground (arith, e)
clean_passes expected (some (digest, ScanVerdict.infected none)) e = ground (arith, e)
clean_passes expected (some (digest, ScanVerdict.infected (some s))) e = ground (arith, e)

pub reported-Sound :
    (ks : List Ticket) (log : List Scan) (k : Ticket) (observed : Option (Digest × ScanVerdict))
    (now : Time) (t : Tables)
    → Matches t.files k
    → Sound ks log t.files
    → Sound ks
        ((k.file_id, observed) ∷ log)
        (record_outcome k.file_id (scan_outcome k.expected_sha256 observed) now t).1.files
unfolding record_outcome
reported-Sound ks log k observed now t match (j, m) =
    let j₁ = All-map_lem _ _ (Justified-more (k.file_id, observed) log) t.files j in
    elim (Option-cases (get_file k.file_id t)) [
      | inl e ↦ rw e (j₁, m)
      | inr (f, e) ↦ elim (Bool-cases (is_scanning f.state)) [
        | inl q ↦
            rw (e, q)
              (let named = found_id k.file_id t f e in
                saved f _ t (subst (λ i. get_file i t ≡ some f) (sym named) e) refl refl ks
                  ((k.file_id, observed) ∷ log)
                  (λ c. ground (arith, named, match f e, clean_passes k.expected_sha256 observed c))
                  (j₁, m))
        | inr q ↦ rw (e, q) (j₁, m)
      ]
    ]

appended-Matches :
    (f : File) (fs : List File) (k : Ticket)
    → k.file_id ≢ f.id
    → Matches fs k
    → Matches (fs ++ f ∷ []) k
appended-Matches f [] k ne h g e = absurd (ground arith)
appended-Matches f (x ∷ fs) k ne h g e = elim (Bool-cases (x.id == k.file_id)) [
  | inl eq ↦ h g (rw eq (rw eq at e))
  | inr n ↦ appended-Matches f fs k ne (λ y e'. h y (rw n e')) g (rw n at e)
]

-- A row that is not CLEAN and keeps its id and digest is written.
pub rewritten-Sound :
    (ks : List Ticket) (log : List Scan) (id : Uuid) (f r : File) (t : Tables)
    → get_file id t ≡ some f
    → r.id ≡ f.id
    → r.sha256 ≡ f.sha256
    → r.state ≢ FileState.clean
    → Sound ks log t.files
    → Sound ks log (save file_key r t.files)
rewritten-Sound ks log id f r t found same_id same state h =
    saved f r t (subst (λ i. get_file i t ≡ some f) (sym (found_id id t f found)) found) same_id
      same ks log (λ c. absurd (state c)) h

-- A row that is not CLEAN is added, under an id that no ticket names.
pub added-Sound :
    (ks : List Ticket) (log : List Scan) (f : File) (fs : List File)
    → f.state ≢ FileState.clean
    → All (λ k. k.file_id ≢ f.id) ks
    → Sound ks log fs
    → Sound ks log (fs ++ f ∷ [])
added-Sound ks log f fs state fresh (j, m) =
    (All-append (Justified log) fs (f ∷ []) j ((λ c. absurd (state c)), tt), All-both ks fresh m)
  where
    All-both :
        (xs : List Ticket)
        → All (λ k. k.file_id ≢ f.id) xs
        → All (Matches fs) xs
        → All (Matches (fs ++ f ∷ [])) xs
    All-both [] a b = tt
    All-both (k ∷ xs) a b = (appended-Matches f fs k a.0 b.0, All-both xs a.1 b.1)
