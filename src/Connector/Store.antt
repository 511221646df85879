-- ===== src/Connector/Store.antt =====
-- outbox.py: OutboxStore, the directory of one origin. Its lock is held around every operation.
-- A content of `none` is a file that cannot be read or is not a regular file.
pub mod Loaded
pub mod Recovery
use super_boss.Base.{
  ℕ, ◌≡◌, Bool, true, false, Option, none, some, List, [], ◌∷◌, ◌++◌, map, String, Uuid, Time,
  Digest, not, ◌&&◌, ◌||◌, ◌==◌, ltb, leb, opt_eq, is_some, if◌then◌else◌,
}
use super_boss.Base.Lists.{length, any, all, keep, take, drop}
use super_boss.Base.Rows.{find_by}
use super_boss.Base.Texts.{Text, codes, text_eq}
use super_boss.Core.Errors.{connector_error, outbox_busy, outbox_conflict, outbox_invalid}
use super_boss.Core.Exec.{
  Exec, Result, ok, err, pure, raise, lift, or_raise, modify, raise_if, ◌>>=◌, ◌>>◌,
}
use super_boss.Connector.Checks.{is_plain, has_length}
use super_boss.Connector.Outbox.{OutboxEntry, Stamp, differ, validated_entry}

pub data CredentialState : Type 0 where
  present missing : CredentialState

-- ReplacementMarker; `old_refresh_sha256` is a digest by its type.
pub record ReplacementMarker : Type 0 where
  pub normalized_origin : Text
  pub old_credential_state : CredentialState
  pub old_refresh_sha256 : Option Digest
  pub old_outbox_filename : Text

pub record PairCompletionMarker : Type 0 where
  pub normalized_origin : Text
  pub old_credential_state : CredentialState
  pub old_refresh_sha256 : Option Digest

abbrev pub is_present : CredentialState → Bool
is_present present = true
is_present missing = false

-- JSON with the field types of pydantic, the name that `path_for` gives to a key, and whitespace
pub record StoreTools : Type 0 where
  pub dump_entry : OutboxEntry → Text
  pub parse_entry : Text → Option OutboxEntry
  pub dump_replacement : ReplacementMarker → Text
  pub parse_replacement : Text → Option ReplacementMarker
  pub dump_completion : PairCompletionMarker → Text
  pub parse_completion : Text → Option PairCompletionMarker
  pub file_name : Text → Text
  pub is_space : ℕ → Bool

pub record Document : Type 0 where
  pub name : Text
  pub content : Option Text

-- the `*.json` files, in the order of their names, and the two markers
pub record OriginDir : Type 0 where
  pub documents : List Document
  pub replacement : Option (Option Text)
  pub completion : Option (Option Text)

abbrev pub local_state_max_bytes : ℕ
local_state_max_bytes = 262144

abbrev sized : Text → Option Text
sized bytes =
    if leb 1 (length bytes) && leb (length bytes) local_state_max_bytes then some bytes else none

-- `_read_json`, up to the parsing
abbrev pub read_file : Option Text → Option Text
read_file none = none
read_file (some bytes) = sized bytes

abbrev pub consistent_credential : CredentialState → Option Digest → Bool
consistent_credential state digest = not (differ (is_present state) (is_some digest))

module _ (tools : StoreTools) where
  abbrev validated : Option OutboxEntry → Option OutboxEntry
  validated none = none
  validated (some e) = validated_entry tools.is_space e

  abbrev parsed : Option Text → Option OutboxEntry
  parsed none = none
  parsed (some bytes) = validated (tools.parse_entry bytes)

  abbrev with_entry :
      Text
      → Option OutboxEntry
      → Result (List (Text × OutboxEntry))
      → Result (List (Text × OutboxEntry))
  with_entry name none rest = err (connector_error 2 outbox_invalid)
  with_entry name (some e) (err x) = err x
  with_entry name (some e) (ok rest) = ok ((name, e) ∷ rest)

  -- `_all_documents`
  unfoldable pub all_documents : List Document → Result (List (Text × OutboxEntry))
  all_documents [] = ok []
  all_documents (d ∷ rest) = with_entry d.name (parsed (read_file d.content)) (all_documents rest)

  abbrev sole : Text → List (Text × OutboxEntry) → Result (Option (Text × OutboxEntry))
  sole origin [] = ok none
  sole origin ((name, e) ∷ []) =
      if not (text_eq e.normalized_origin origin)
      then err (connector_error 2 outbox_invalid)
      else if not (text_eq name (tools.file_name e.idempotency_key))
      then err (connector_error 2 outbox_invalid)
      else ok (some (name, e))
  sole origin more = err (connector_error 2 outbox_invalid)

  abbrev sole_of : Text → Result (List (Text × OutboxEntry)) → Result (Option (Text × OutboxEntry))
  sole_of origin (err x) = err x
  sole_of origin (ok documents) = sole origin documents

  unfoldable pub load_optional : Text → OriginDir → Result (Option (Text × OutboxEntry))
  load_optional origin dir = sole_of origin (all_documents dir.documents)

  abbrev present_or_raise : Result (Option (Text × OutboxEntry)) → Result (Text × OutboxEntry)
  present_or_raise (err x) = err x
  present_or_raise (ok none) = err (connector_error 2 outbox_invalid)
  present_or_raise (ok (some p)) = ok p

  unfoldable pub load : Text → OriginDir → Result (Text × OutboxEntry)
  load origin dir = present_or_raise (load_optional origin dir)

  abbrev absent_or_raise : Result (Option (Text × OutboxEntry)) → Result (Unit {0})
  absent_or_raise (err x) = err x
  absent_or_raise (ok none) = ok tt
  absent_or_raise (ok (some p)) = err (connector_error 2 outbox_conflict)

  pub ensure_available : Text → OriginDir → Result (Unit {0})
  ensure_available origin dir = absent_or_raise (load_optional origin dir)

  abbrev pub path_for : Text → Text
  path_for = tools.file_name

  -- `os.replace` over a name: the directory in the order of its names is not modelled further.
  abbrev pub replace_file : Text → Text → List Document → List Document
  replace_file name bytes [] = record { name = name; content = some bytes } ∷ []
  replace_file name bytes (d ∷ rest) =
      let more = replace_file name bytes rest in
      if text_eq d.name name then record { name = name; content = some bytes } ∷ rest else d ∷ more

  -- `_atomic_write`; `writes` is whether the calls of the file system succeed.
  abbrev atomic_write : (writes : Bool) → Text → Text → Exec OriginDir (Unit {0})
  atomic_write false name bytes dir = (err (connector_error 2 outbox_invalid), dir)
  atomic_write true name bytes dir =
      (ok tt, record dir { documents = replace_file name bytes dir.documents })

  abbrev write_valid : (writes : Bool) → Text → Option OutboxEntry → Exec OriginDir (Unit {0})
  write_valid writes name none dir = (err (connector_error 2 outbox_invalid), dir)
  write_valid writes name (some e) dir = atomic_write writes name (tools.dump_entry e) dir

  abbrev pub stamped : Time → OutboxEntry → OutboxEntry
  stamped now e = record e { updated_at = record { time = now; aware = true } }

  unfoldable pub save :
      (writes : Bool) → (now : Time) → Text → OutboxEntry → Exec OriginDir (Unit {0})
  save writes now name e dir =
      write_valid writes name (validated_entry tools.is_space (stamped now e)) dir

  abbrev pub remove_file : Text → List Document → List Document
  remove_file name = keep (λ d. not (text_eq d.name name))

  abbrev pub has_file : Text → List Document → Bool
  has_file name = any (λ d. text_eq d.name name)

  -- `delete`; `path.unlink()` raises where the file is missing.
  unfoldable pub delete : (writes : Bool) → Text → Exec OriginDir (Unit {0})
  delete writes name dir =
      if not writes || not (has_file name dir.documents)
      then (err (connector_error 2 outbox_invalid), dir)
      else (ok tt, record dir { documents = remove_file name dir.documents })

  abbrev state_of : Option Digest → CredentialState
  state_of none = missing
  state_of (some d) = present

  -- the fields of a marker: the origin, and the name of an outbox file
  abbrev is_hex : ℕ → Bool
  is_hex c = (leb b'0' c && leb c b'9') || (leb b'a' c && leb c b'f')

  abbrev is_file_name : Text → Bool
  is_file_name t = length t == 69 && (all is_hex (take 64 t) && text_eq (drop 64 t) (codes ".json"))

  abbrev checked_replacement : Option ReplacementMarker → Option ReplacementMarker
  checked_replacement none = none
  checked_replacement (some m) =
      if has_length 1 4096 m.normalized_origin
        && (is_file_name m.old_outbox_filename
            && consistent_credential m.old_credential_state m.old_refresh_sha256)
      then some m
      else none

  abbrev checked_completion : Option PairCompletionMarker → Option PairCompletionMarker
  checked_completion none = none
  checked_completion (some m) =
      if has_length 1 4096 m.normalized_origin
        && consistent_credential m.old_credential_state m.old_refresh_sha256
      then some m
      else none

  abbrev write_replacement : (writes : Bool) → Option ReplacementMarker → Exec OriginDir (Unit {0})
  write_replacement true (some m) dir =
      (ok tt, record dir { replacement = some (some (tools.dump_replacement m)) })
  write_replacement _ _ dir = (err (connector_error 2 outbox_invalid), dir)

  pub save_replacement_marker :
      Text → (writes : Bool) → Option Digest → Text → Exec OriginDir (Unit {0})
  save_replacement_marker origin writes old_refresh old_outbox = write_replacement writes (
      checked_replacement (
        some (record {
          normalized_origin = origin;
          old_credential_state = state_of old_refresh;
          old_refresh_sha256 = old_refresh;
          old_outbox_filename = old_outbox;
        })))

  abbrev of_origin : Text → Option ReplacementMarker → Result (Option ReplacementMarker)
  of_origin origin none = err (connector_error 2 outbox_invalid)
  of_origin origin (some m) =
      if not (text_eq m.normalized_origin origin)
      then err (connector_error 2 outbox_invalid)
      else ok (some m)

  abbrev read_replacement : Option Text → Option ReplacementMarker
  read_replacement none = none
  read_replacement (some bytes) = checked_replacement (tools.parse_replacement bytes)

  abbrev replacement_in : Text → Option (Option Text) → Result (Option ReplacementMarker)
  replacement_in origin none = ok none
  replacement_in origin (some content) = of_origin origin (read_replacement (read_file content))

  unfoldable pub load_replacement_marker : Text → OriginDir → Result (Option ReplacementMarker)
  load_replacement_marker origin dir = replacement_in origin dir.replacement

  -- `delete` of a marker's file
  pub delete_replacement_marker : (writes : Bool) → Exec OriginDir (Unit {0})
  delete_replacement_marker writes dir =
      if not writes || not (is_some dir.replacement)
      then (err (connector_error 2 outbox_invalid), dir)
      else (ok tt, record dir { replacement = none })

  abbrev write_completion :
      (writes : Bool) → Option PairCompletionMarker → Exec OriginDir (Unit {0})
  write_completion true (some m) dir =
      (ok tt, record dir { completion = some (some (tools.dump_completion m)) })
  write_completion _ _ dir = (err (connector_error 2 outbox_invalid), dir)

  pub save_pair_completion_marker :
      Text → (writes : Bool) → Option Digest → Exec OriginDir (Unit {0})
  save_pair_completion_marker origin writes old_refresh = write_completion writes (
      checked_completion (
        some (record {
          normalized_origin = origin;
          old_credential_state = state_of old_refresh;
          old_refresh_sha256 = old_refresh;
        })))

  abbrev completion_of_origin :
      Text → Option PairCompletionMarker → Result (Option PairCompletionMarker)
  completion_of_origin origin none = err (connector_error 2 outbox_invalid)
  completion_of_origin origin (some m) =
      if not (text_eq m.normalized_origin origin)
      then err (connector_error 2 outbox_invalid)
      else ok (some m)

  abbrev read_completion : Option Text → Option PairCompletionMarker
  read_completion none = none
  read_completion (some bytes) = checked_completion (tools.parse_completion bytes)

  abbrev completion_in : Text → Option (Option Text) → Result (Option PairCompletionMarker)
  completion_in origin none = ok none
  completion_in origin (some content) =
      completion_of_origin origin (read_completion (read_file content))

  unfoldable pub load_pair_completion_marker :
      Text → OriginDir → Result (Option PairCompletionMarker)
  load_pair_completion_marker origin dir = completion_in origin dir.completion

  pub delete_pair_completion_marker : (writes : Bool) → Exec OriginDir (Unit {0})
  delete_pair_completion_marker writes dir =
      if not writes || not (is_some dir.completion)
      then (err (connector_error 2 outbox_invalid), dir)
      else (ok tt, record dir { completion = none })
