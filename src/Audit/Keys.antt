-- ===== src/Audit/Keys.antt =====
-- What an event key promises.
use super_boss.Base.{
  ◌≡◌, ◌⊎◌, refl, inl, inr, true, Option, some, ℕ, List, [], ◌∷◌, ◌++◌, is_some, Bool-cases,
  Option-cases,
}
use super_boss.Base.Rows.{find_by, find_by-append}
use super_boss.Core.Errors.{runtime_error}
use super_boss.Core.Exec.{ok, err}
use super_boss.Core.Directory.{AuditLog}
use super_boss.Audit.{write_audit, same_event, has_key}
use super_boss.Audit.Events.{
  SameEvent, IsDict, opt_eq_iff, same_event_sound, same_event_complete, same_event_refl,
}

-- the rows of another key
abbrev keyed : Option ℕ → List AuditLog → Option AuditLog
keyed key rows = find_by (has_key key) rows

-- A row that was written or reused under a key is the one that its key finds, and it is the same
-- event.
stored :
    (row : AuditLog) (rows rows' : List AuditLog)
    → is_some row.event_key ≡ true
    → same_event row row ≡ true
    → write_audit row rows ≡ ok rows'
    → (existing : AuditLog) × (keyed row.event_key rows' ≡ some existing)
      × (same_event existing row ≡ true)
unfolding write_audit
stored row rows rows' has same done = elim (Option-cases (keyed row.event_key rows)) [
  | inl e ↦
      let out : rows ++ row ∷ [] ≡ rows' = cc (rw (has, e) at done) in
      (
        row,
        rw⁻¹ out (
            rw
              (
                find_by-append (has_key row.event_key) rows (row ∷ []),
                e,
                (opt_eq_iff row.event_key row.event_key).1 refl,
              )
              refl),
        same,
      )
  | inr (x, e) ↦ elim (Bool-cases (same_event x row)) [
    | inl s ↦ let out : rows ≡ rows' = cc (rw (has, e, s) at done) in (x, rw⁻¹ out e, s)
    | inr s ↦ absurd (cc (rw (has, e, s) at done))
  ]
]

-- what the table answers to a later row with the key of a stored one
abbrev pub Answered : AuditLog → AuditLog → List AuditLog → Type 0
Answered existing other rows =
    (SameEvent existing other × (write_audit other rows ≡ ok rows))
    ⊎ ((SameEvent existing other → ⊥) × (write_audit other rows ≡ err runtime_error))

answered :
    (existing other : AuditLog) (rows : List AuditLog)
    → is_some other.event_key ≡ true
    → find_by (has_key other.event_key) rows ≡ some existing
    → Answered existing other rows
unfolding write_audit
answered existing other rows has found = elim (Bool-cases (same_event existing other)) [
  | inl e ↦ inl (same_event_sound existing other e, rw (has, found, e) refl)
  | inr e ↦
      inr
        (λ s. let h = same_event_complete existing other s in absurd (cc), rw (has, found, e) refl)
]

-- Where a row with a key and a dict of metadata was written or found, one stored row stands for the
-- key, which tells the same event. A later row with that key leaves the table as it is where it
-- tells the same event as the stored one in every column and in its metadata, and is refused with
-- an exception where it does not; a repetition of the row is such a later row.
pub written_once :
    (row other : AuditLog) (rows rows' : List AuditLog)
    → is_some row.event_key ≡ true
    → IsDict row.metadata
    → other.event_key ≡ row.event_key
    → write_audit row rows ≡ ok rows'
    → (existing : AuditLog) × (find_by (has_key row.event_key) rows' ≡ some existing)
      × SameEvent existing row
      × Answered existing other rows'
written_once row other rows rows' has dict key done =
    let (x, found, eq) = stored row rows rows' has (same_event_refl row dict) done in
    (x, found, same_event_sound x row eq, answered x other rows' (rw key has) (rw key found))
