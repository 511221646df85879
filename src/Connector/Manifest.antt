-- ===== src/Connector/Manifest.antt =====
-- manifest.py: the local envelope, the server's manifest, and their validation. What pydantic reads
-- of JSON, the paths and the files are arguments.
pub mod Prepare
use super_boss.Base.{
  ℕ, Bool, true, false, Option, none, some, List, [], ◌∷◌, map, not, ◌&&◌, ◌||◌, ◌==◌, ltb, leb,
  is_some, Uuid, Time, if◌then◌else◌,
}
use super_boss.Base.Chunks.{chunks}
use super_boss.Base.Lists.{length, any, all, keep}
use super_boss.Base.Options.{each, require, ◌>>=◌, ◌>>◌}
use super_boss.Base.Strip.{strip}
use super_boss.Base.Texts.{Text, codes, text_eq}
use super_boss.Core.Errors.{connector_error, invalid_input, file_changed}
use super_boss.Core.Exec.{Result, ok, err}
use super_boss.Connector.Checks.{AttachmentKind, original, revised, k3_raw, kind_eq, has_repeat}
use super_boss.Connector.Outbox.{
  AttachmentState, OutboxEntry, create, part_size, max_attachment_bytes,
}
use super_boss.Imports.Schemas.{
  TextTools, K3Result, field, has_no_controls, stripped, content_type_text, digest_text, optional,
  validated_result,
}

pub record LocalAttachment : Type 0 where
  pub kind : AttachmentKind
  pub path : Text
  pub content_type : Option Text

pub record LocalManifest : Type 0 where
  pub idempotency_key : Text
  pub project_id : Uuid
  pub local_task_id : Text
  pub external_document_reference : Option Text
  pub base_sha256 : Option Text
  pub k3_result : K3Result
  pub attachments : List LocalAttachment

pub record ServerAttachment : Type 0 where
  pub kind : AttachmentKind
  pub filename : Text
  pub size_bytes : ℕ
  pub sha256 : Text
  pub content_type : Text

pub record ServerManifest : Type 0 where
  pub project_id : Uuid
  pub local_task_id : Text
  pub external_document_reference : Option Text
  pub base_sha256 : Option Text
  pub k3_result : K3Result
  pub attachments : List ServerAttachment

-- `path` is `str` of the path
pub record PreparedAttachment : Type 0 where
  pub kind : AttachmentKind
  pub path : Text
  pub filename : Text
  pub size_bytes : ℕ
  pub sha256 : Text
  pub part_sha256s : List Text
  pub content_type : Text

pub record PreparedManifest : Type 0 where
  pub path : Text
  pub idempotency_key : Text
  pub server : ServerManifest
  pub attachments : List PreparedAttachment
  pub fingerprint : Text

-- `os.stat_result`, and the three looks that one reading of a file takes
pub record Stat : Type 0 where
  pub regular : Bool
  pub size : ℕ
  pub mtime_ns : ℕ
  pub mode : ℕ

pub record Probe : Type 0 where
  pub before : Option Stat
  pub content : Option Text
  pub after : Option Stat

-- unicodedata, hashlib, json and mimetypes
pub record ManifestTools : Type 0 where
  pub texts : TextTools
  pub encodable : Text → Bool
  pub sha256 : Text → Text
  pub json_bytes : (spaced : Bool) → ServerManifest → Text
  pub guess_type : Text → Option Text

-- the paths below the manifest's directory, in one call
pub record Folder : Type 0 where
  pub is_absolute : Text → Bool
  pub is_symlink : Text → Bool
  pub resolve : Text → Option Text
  pub is_inside : Text → Bool
  pub base_name : Text → Text
  pub probe : Text → Probe

-- the file of the manifest: its resolved path, its metadata, its bytes, and their JSON
pub record Envelope : Type 0 where
  pub path : Text
  pub metadata : Stat
  pub serialized : Text
  pub raw : Option LocalManifest

abbrev pub manifest_input_max_bytes : ℕ
manifest_input_max_bytes = 262144

abbrev pub manifest_max_utf8_bytes : ℕ
manifest_max_utf8_bytes = 65536

-- `_ATTACHMENT_ORDER`
abbrev pub attachment_order : AttachmentKind → ℕ
attachment_order original = 0
attachment_order revised = 1
attachment_order k3_raw = 2

-- `validate_key`
abbrev pub is_key : Text → Bool
is_key t = leb 1 (length t) && all (λ c. leb 33 c && leb c 126) t

-- `prepared.sort(key=…)`
abbrev insert_prepared : PreparedAttachment → List PreparedAttachment → List PreparedAttachment
insert_prepared a [] = a ∷ []
insert_prepared a (b ∷ rest) =
    let more = insert_prepared a rest in
    if leb (attachment_order a.kind) (attachment_order b.kind) then a ∷ b ∷ rest else b ∷ more

abbrev pub sort_prepared : List PreparedAttachment → List PreparedAttachment
sort_prepared [] = []
sort_prepared (a ∷ rest) = insert_prepared a (sort_prepared rest)

module _ (tools : ManifestTools) where
  -- `_safe_text`
  pub safe_text : (document : Bool) → Text → Bool
  safe_text document t = tools.encodable t && has_no_controls document t

  abbrev local_field : ℕ → Text → Option Text
  local_field = field tools.texts safe_text false

  -- `LocalAttachment`
  pub validated_local_attachment : LocalAttachment → Option LocalAttachment
  validated_local_attachment a = do
    path ← local_field 4096 a.path
    content_type ← optional (content_type_text tools.texts) a.content_type
    some (record a { path = path; content_type = content_type })

  abbrev pub kinds_ok : Option Text → List AttachmentKind → Bool
  kinds_ok base_sha256 kinds =
      not (has_repeat kind_eq kinds)
      && (length (keep (kind_eq k3_raw) kinds) == 1
          && (not (is_some base_sha256) || any (kind_eq original) kinds))

  -- `LocalManifest`
  pub validated_local : LocalManifest → Option LocalManifest
  validated_local l = do
    require (is_key l.idempotency_key)
    require (leb (length l.idempotency_key) 255)
    local_task_id ← local_field 255 l.local_task_id
    external_document_reference ← optional (local_field 1024) l.external_document_reference
    base_sha256 ← optional (digest_text tools.texts) l.base_sha256
    k3_result ← validated_result tools.texts safe_text l.k3_result
    require (leb 1 (length l.attachments) && leb (length l.attachments) 3)
    attachments ← each validated_local_attachment l.attachments
    require (kinds_ok base_sha256 (map (λ (a : LocalAttachment). a.kind) attachments))
    some (record l {
      local_task_id = local_task_id;
      external_document_reference = external_document_reference;
      base_sha256 = base_sha256;
      k3_result = k3_result;
      attachments = attachments;
    })

  -- `ServerAttachment`
  pub validated_server_attachment : ServerAttachment → Option ServerAttachment
  validated_server_attachment a = do
    filename ← stripped tools.texts 1024 a.filename
    require (safe_text false filename)
    require (leb 1 a.size_bytes && leb a.size_bytes max_attachment_bytes)
    sha256 ← digest_text tools.texts a.sha256
    content_type ← content_type_text tools.texts a.content_type
    some (record a { filename = filename; sha256 = sha256; content_type = content_type })

  -- `validate_size_budget`
  abbrev budgeted : ServerManifest → Option ServerManifest
  budgeted m =
      if ltb manifest_max_utf8_bytes (length (tools.json_bytes false m))
        || ltb manifest_max_utf8_bytes (length (tools.json_bytes true m))
      then none
      else some m

  -- `ServerManifest`, of a validated local one and validated attachments
  pub validated_server : ServerManifest → Option ServerManifest
  validated_server m = do
    local_task_id ← stripped tools.texts 255 m.local_task_id
    external_document_reference ← optional (stripped tools.texts 1024) m.external_document_reference
    require (leb 1 (length m.attachments) && leb (length m.attachments) 3)
    budgeted (record m {
      local_task_id = local_task_id;
      external_document_reference = external_document_reference;
      base_sha256 = elim m.base_sha256 [
        | none ↦ none
        | some d ↦ some (strip tools.texts.is_space d)
      ];
    })
