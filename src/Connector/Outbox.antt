-- ===== src/Connector/Outbox.antt =====
-- outbox.py: the recovery state of one operation, and the validation that every document passes
-- when it is saved and when it is loaded.
pub mod Evidence
pub mod Revalidation
use super_boss.Base.{
  ℕ, ◌+◌, ◌-◌, ◌/◌, ◌*◌, Bool, true, false, Option, none, some, List, [], ◌∷◌, map, not, ◌&&◌, ◌||◌,
  ◌==◌, ltb, leb, is_some, opt_eq, String, Uuid, Time, if◌then◌else◌,
}
use super_boss.Base.Lists.{length, any, all}
use super_boss.Base.Options.{each}
use super_boss.Base.Strip.{strip}
use super_boss.Base.Texts.{Text}
use super_boss.Connector.Checks.{
  AttachmentKind, kind_eq, is_plain, has_length, is_digest, has_repeat, number_repeat, is_sorted,
}

pub data Phase : Type 0 where
  create upload submit evidence : Phase

pub data JobStatus : Type 0 where
  uploading scanning received rejected conflict : JobStatus

-- a `datetime`, and whether it names its offset
pub record Stamp : Type 0 where
  pub time : Time
  pub aware : Bool

pub record CompletedPart : Type 0 where
  pub part_number : ℕ
  pub etag : Text

-- `part_size` is the literal 8_388_608.
pub record AttachmentState : Type 0 where
  pub kind : AttachmentKind
  pub path : Text
  pub filename : Text
  pub size_bytes : ℕ
  pub sha256 : Text
  pub part_sha256s : List Text
  pub content_type : Text
  pub attachment_id : Option Uuid
  pub file_id : Option Uuid
  pub upload_id : Option Uuid
  pub completed_parts : List CompletedPart
  pub completed : Bool

pub record EvidenceState : Type 0 where
  pub job_id : Uuid
  pub status : JobStatus
  pub result_code : Option Text
  pub submitted_at : Stamp
  pub updated_at : Stamp

pub record OutboxEntry : Type 0 where
  pub normalized_origin : Text
  pub idempotency_key : Text
  pub manifest_path : Text
  pub manifest_fingerprint : Text
  pub job_id : Option Uuid
  pub phase : Phase
  pub attachments : List AttachmentState
  pub evidence : Option EvidenceState
  pub updated_at : Stamp

abbrev pub part_size : ℕ
part_size = 8388608

abbrev pub max_attachment_bytes : ℕ
max_attachment_bytes = 104857600

abbrev pub etag_max_chars : ℕ
etag_max_chars = 1024

-- `(size_bytes + part_size - 1) // part_size`
abbrev pub total_parts : ℕ → ℕ
total_parts size_bytes = (size_bytes + part_size - 1) / part_size

abbrev pub part_numbers : List CompletedPart → List ℕ
part_numbers = map (λ p. p.part_number)

abbrev pub is_create : Phase → Bool
is_create create = true
is_create _ = false

abbrev pub is_evidence : Phase → Bool
is_evidence evidence = true
is_evidence _ = false

-- `phase in {SUBMIT, EVIDENCE}`
abbrev pub is_uploaded : Phase → Bool
is_uploaded submit = true
is_uploaded evidence = true
is_uploaded _ = false

abbrev pub is_refused : JobStatus → Bool
is_refused rejected = true
is_refused conflict = true
is_refused _ = false

abbrev pub is_uploading : JobStatus → Bool
is_uploading uploading = true
is_uploading _ = false

-- `pattern=r"^[A-Z][A-Z0-9_]{0,63}$"`
abbrev is_upper : ℕ → Bool
is_upper c = leb b'A' c && leb c b'Z'

abbrev pub is_result_code : Text → Bool
is_result_code [] = false
is_result_code (c ∷ rest) =
    is_upper c
    && (leb (length rest) 63
        && all (λ d. is_upper d || ((leb b'0' d && leb d b'9') || d == b'_')) rest)

abbrev pub is_result : Option Text → Bool
is_result none = true
is_result (some code) = is_result_code code

abbrev has_none : List (Option Uuid) → Bool
has_none = any (λ o. not (is_some o))

abbrev all_none : List (Option Uuid) → Bool
all_none = all (λ o. not (is_some o))

abbrev pub differ : Bool → Bool → Bool
differ true b = not b
differ false b = b

-- `is_space` is the whitespace that `str.strip` knows.
module _ (is_space : ℕ → Bool) where
  -- `CompletedPart`, whose etag is stripped after its length is checked
  unfoldable pub validated_part : CompletedPart → Option CompletedPart
  validated_part part =
      let etag = strip is_space part.etag in
      if leb 1 part.part_number
        && (leb part.part_number 10000
            && (has_length 1 etag_max_chars part.etag && (leb 1 (length etag) && is_plain etag)))
      then some (record part { etag = etag })
      else none

-- `consistent_progress`
abbrev pub consistent_progress : AttachmentState → Bool
consistent_progress a =
    let identifiers = a.attachment_id ∷ a.file_id ∷ a.upload_id ∷ [] in
    let numbers = part_numbers a.completed_parts in
    let total = total_parts a.size_bytes in
    not (differ (has_none identifiers) (all_none identifiers))
    && (not (number_repeat numbers)
        && (is_sorted numbers
            && (not (any (λ n. ltb total n) numbers)
                && (length a.part_sha256s == total
                    && not (a.completed && not (length numbers == total))))))

-- the fields of `AttachmentState` but its parts
abbrev attachment_fields : AttachmentState → Bool
attachment_fields a =
    (has_length 1 32767 a.path && is_plain a.path)
    && ((has_length 1 1024 a.filename && is_plain a.filename)
        && ((leb 1 a.size_bytes && leb a.size_bytes max_attachment_bytes)
            && (is_digest a.sha256
                && ((leb 1 (length a.part_sha256s) && leb (length a.part_sha256s) 13)
                    && (all is_digest a.part_sha256s
                        && (has_length 1 255 a.content_type && is_plain a.content_type))))))

-- `EvidenceState`
unfoldable pub is_evidence_state : EvidenceState → Bool
is_evidence_state e =
    not (is_uploading e.status)
    && (is_result e.result_code
        && (e.submitted_at.aware
            && (e.updated_at.aware
                && (not (differ (is_refused e.status) (is_some e.result_code))
                    && leb e.submitted_at.time e.updated_at.time))))

abbrev lacks_id : AttachmentState → Bool
lacks_id a = not (is_some a.attachment_id)

abbrev has_progress : AttachmentState → Bool
has_progress a = leb 1 (length a.completed_parts) || a.completed

abbrev proves : Option Uuid → Option EvidenceState → Bool
proves job_id none = false
proves none (some e) = false
proves (some id) (some e) = e.job_id == id

-- `consistent_phase`
unfoldable pub consistent_phase : OutboxEntry → Bool
consistent_phase e =
    not (has_repeat kind_eq (map (λ (a : AttachmentState). a.kind) e.attachments))
    && ((if is_create e.phase
          then not (is_some e.job_id)
            && (all lacks_id e.attachments && not (any has_progress e.attachments))
          else is_some e.job_id && not (any lacks_id e.attachments))
        && ((if is_uploaded e.phase
              then all (λ (a : AttachmentState). a.completed) e.attachments
              else true)
            && (if is_evidence e.phase
                then proves e.job_id e.evidence
                else not (is_some e.evidence))))

abbrev evidence_ok : Option EvidenceState → Bool
evidence_ok none = true
evidence_ok (some e) = is_evidence_state e

-- the fields of `OutboxEntry` but its attachments
abbrev entry_fields : OutboxEntry → Bool
entry_fields e =
    (has_length 1 4096 e.normalized_origin && is_plain e.normalized_origin)
    && ((has_length 1 255 e.idempotency_key && all (λ c. leb 33 c && leb c 126) e.idempotency_key)
        && ((has_length 1 32767 e.manifest_path && is_plain e.manifest_path)
            && (is_digest e.manifest_fingerprint
                && ((leb 1 (length e.attachments) && leb (length e.attachments) 3)
                    && (evidence_ok e.evidence && e.updated_at.aware)))))

module _ (is_space : ℕ → Bool) where
  abbrev with_parts : AttachmentState → Option (List CompletedPart) → Option AttachmentState
  with_parts a none = none
  with_parts a (some parts) =
      if attachment_fields a && consistent_progress a
      then some (record a { completed_parts = parts })
      else none

  unfoldable pub validated_attachment : AttachmentState → Option AttachmentState
  validated_attachment a = with_parts a (each (validated_part is_space) a.completed_parts)

  abbrev with_attachments : OutboxEntry → Option (List AttachmentState) → Option OutboxEntry
  with_attachments e none = none
  with_attachments e (some attachments) =
      let e' = record e { attachments = attachments } in
      if entry_fields e && consistent_phase e then some e' else none

  -- `OutboxEntry.model_validate`; `none` is a ValidationError
  unfoldable pub validated_entry : OutboxEntry → Option OutboxEntry
  validated_entry e = with_attachments e (each validated_attachment e.attachments)
