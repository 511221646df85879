-- ===== src/Imports/Schemas.antt =====
-- imports/schemas.py: the request of an import, normalized and validated. The types of its fields
-- have been read by pydantic; a result of `none` is a ValidationError.

use super_boss.Base.{
  ℕ, Bool, true, false, Option, none, some, List, [], ◌∷◌, map, not, ◌&&◌, ◌||◌, ◌==◌, ltb, leb,
  is_some, Uuid, if◌then◌else◌,
}
use super_boss.Base.Lists.{length, any, all, keep}
use super_boss.Base.Options.{each, require, ◌>>=◌, ◌>>◌}
use super_boss.Base.Strip.{strip}
use super_boss.Base.Texts.{Text, text_eq}
use super_boss.Connector.Checks.{has_length, is_digest, has_repeat}
use super_boss.Connector.Outbox.{Stamp}
use super_boss.Imports.Jobs.{AttachmentKind, original, revised, k3_raw, is_original}

-- `unicodedata.normalize("NFC", …)`, the whitespace of pydantic, and `json.dumps` of a manifest
-- with sorted keys, in UTF-8; `Manifest` is the model that is written.
pub record TextTools : Type 0 where
  pub nfc : Text → Text
  pub is_space : ℕ → Bool

pub record K3Result : Type 0 where
  pub model_label : Text
  pub processed_at : Stamp
  pub modification_details : List Text
  pub knowledge_points : List Text
  pub risks : List Text
  pub suggested_title : Option Text
  pub suggested_tags : List Text

pub record AttachmentDeclaration : Type 0 where
  pub kind : AttachmentKind
  pub filename : Text
  pub size_bytes : ℕ
  pub sha256 : Text
  pub content_type : Text

pub record ImportJobCreate : Type 0 where
  pub project_id : Uuid
  pub local_task_id : Text
  pub external_document_reference : Option Text
  pub base_sha256 : Option Text
  pub k3_result : K3Result
  pub attachments : List AttachmentDeclaration

abbrev pub attachment_max_bytes : ℕ
attachment_max_bytes = 104857600

abbrev pub manifest_max_utf8_bytes : ℕ
manifest_max_utf8_bytes = 65536

-- `.replace("\r\n", "\n").replace("\r", "\n")`
abbrev replace_crlf : Text → Text
replace_crlf [] = []
replace_crlf (c ∷ []) = c ∷ []
replace_crlf (c ∷ d ∷ rest) =
    let whole = replace_crlf (d ∷ rest) in
    let after = replace_crlf rest in if c == 13 && d == 10 then 10 ∷ after else c ∷ whole

abbrev replace_cr : Text → Text
replace_cr = map (λ c. if c == 13 then 10 else c)

-- `_normalize_text`
pub normalize_text : TextTools → (document : Bool) → Text → Text
normalize_text tools false t = tools.nfc t
normalize_text tools true t = replace_cr (replace_crlf (tools.nfc t))

-- `_reject_controls`, whether it passes
abbrev pub has_no_controls : (document : Bool) → Text → Bool
has_no_controls document t = not (any (λ c. c == 127 || (ltb c 32 && not (document && c == 10))) t)

-- a character of a MIME token: `[A-Za-z0-9!#$&^_.+-]`
abbrev is_token : ℕ → Bool
is_token c =
    (leb b'A' c && leb c b'Z')
    || ((leb b'a' c && leb c b'z')
        || ((leb b'0' c && leb c b'9')
            || any (λ d. c == d)
                (b'!' ∷ b'#' ∷ b'$' ∷ b'&' ∷ b'^' ∷ b'_' ∷ b'.' ∷ b'+' ∷ b'-' ∷ [])))

-- the token before a slash, and the one after it
abbrev type_rest : (seen : Bool) → Text → Bool
type_rest seen [] = false
type_rest seen (c ∷ rest) =
    let more = type_rest true rest in
    if c == b'/' then seen && (leb 1 (length rest) && all is_token rest) else is_token c && more

abbrev pub is_content_type : Text → Bool
is_content_type = type_rest false

abbrev text_le : Text → Text → Bool
text_le [] t = true
text_le (c ∷ s) [] = false
text_le (c ∷ s) (d ∷ t) = ltb c d || (c == d && text_le s t)

-- `sorted` of texts
abbrev insert_text : Text → List Text → List Text
insert_text t [] = t ∷ []
insert_text t (u ∷ rest) =
    let more = insert_text t rest in if text_le t u then t ∷ u ∷ rest else u ∷ more

abbrev pub sort_texts : List Text → List Text
sort_texts [] = []
sort_texts (t ∷ rest) = insert_text t (sort_texts rest)

abbrev pub kind_eq : AttachmentKind → AttachmentKind → Bool
kind_eq original original = true
kind_eq revised revised = true
kind_eq k3_raw k3_raw = true
kind_eq _ _ = false

-- `_ATTACHMENT_ORDER`
abbrev pub attachment_order : AttachmentKind → ℕ
attachment_order original = 0
attachment_order revised = 1
attachment_order k3_raw = 2

abbrev pub optional : {A : Type 0} → (A → Option A) → Option A → Option (Option A)
optional f none = some none
optional f (some a) = f a >>= λ b. some (some b)

abbrev within : {A : Type 0} → ℕ → List A → Option (List A)
within most xs = if leb (length xs) most then some xs else none

abbrev pub aware_time : Stamp → Option Stamp
aware_time stamp = if stamp.aware then some stamp else none

-- `safe` is the check on the characters of a text, the parameter a document or not.
module _ (tools : TextTools) (safe : (document : Bool) → Text → Bool) where
  -- a text of a field: normalized, stripped, bounded and checked
  abbrev pub field : (document : Bool) → (most : ℕ) → Text → Option Text
  field document most t =
      let v = strip tools.is_space (normalize_text tools document t) in
      if has_length 1 most v && safe document v then some v else none

  abbrev pub documents : List Text → Option (List Text)
  documents ts = within 100 ts >> each (field true 4096) ts

  abbrev pub tags : List Text → Option (List Text)
  tags ts = do
    _ ← within 64 ts
    vs ← each (field false 128) ts
    require (not (has_repeat text_eq vs))
    some (sort_texts vs)

  -- `K3Result`
  pub validated_result : K3Result → Option K3Result
  validated_result r = do
    model_label ← field false 128 r.model_label
    processed_at ← aware_time r.processed_at
    modification_details ← documents r.modification_details
    knowledge_points ← documents r.knowledge_points
    risks ← documents r.risks
    suggested_title ← optional (field false 1024) r.suggested_title
    suggested_tags ← tags r.suggested_tags
    some (record {
      model_label = model_label;
      processed_at = processed_at;
      modification_details = modification_details;
      knowledge_points = knowledge_points;
      risks = risks;
      suggested_title = suggested_title;
      suggested_tags = suggested_tags;
    })

-- a stripped text without further normalization
abbrev pub stripped : TextTools → ℕ → Text → Option Text
stripped tools most t =
    let v = strip tools.is_space t in if has_length 1 most v then some v else none

abbrev pub digest_text : TextTools → Text → Option Text
digest_text tools t = let v = strip tools.is_space t in if is_digest v then some v else none

abbrev pub content_type_text : TextTools → Text → Option Text
content_type_text tools t = stripped tools 255 t >>= λ v. if is_content_type v then some v else none

-- `sorted(attachments, key=…)`
abbrev insert_declaration :
    AttachmentDeclaration → List AttachmentDeclaration → List AttachmentDeclaration
insert_declaration a [] = a ∷ []
insert_declaration a (b ∷ rest) =
    let more = insert_declaration a rest in
    if leb (attachment_order a.kind) (attachment_order b.kind) then a ∷ b ∷ rest else b ∷ more

abbrev pub sort_declarations : List AttachmentDeclaration → List AttachmentDeclaration
sort_declarations [] = []
sort_declarations (a ∷ rest) = insert_declaration a (sort_declarations rest)

abbrev pub kinds_of : List AttachmentDeclaration → List AttachmentKind
kinds_of = map (λ a. a.kind)

-- unique kinds, one K3_RAW, and an ORIGINAL for a base digest
abbrev pub kinds_ok : Option Text → List AttachmentKind → Bool
kinds_ok base_sha256 kinds =
    not (has_repeat kind_eq kinds)
    && (length (keep (kind_eq k3_raw) kinds) == 1
        && (not (is_some base_sha256) || any is_original kinds))

module _ (tools : TextTools) (json_bytes : (spaced : Bool) → ImportJobCreate → Text) where
  abbrev server_field : ℕ → Text → Option Text
  server_field = field tools has_no_controls false

  -- `AttachmentDeclaration`
  pub validated_declaration : AttachmentDeclaration → Option AttachmentDeclaration
  validated_declaration a = do
    filename ← server_field 1024 a.filename
    require (leb 1 a.size_bytes && leb a.size_bytes attachment_max_bytes)
    sha256 ← digest_text tools a.sha256
    content_type ← content_type_text tools a.content_type
    some (record a { filename = filename; sha256 = sha256; content_type = content_type })

  abbrev budgeted : ImportJobCreate → Option ImportJobCreate
  budgeted c =
      if ltb manifest_max_utf8_bytes (length (json_bytes false c))
        || ltb manifest_max_utf8_bytes (length (json_bytes true c))
      then none
      else some c

  -- `ImportJobCreate`
  pub validated_create : ImportJobCreate → Option ImportJobCreate
  validated_create c = do
    local_task_id ← server_field 255 c.local_task_id
    external_document_reference ← optional (server_field 1024) c.external_document_reference
    base_sha256 ← optional (digest_text tools) c.base_sha256
    k3_result ← validated_result tools has_no_controls c.k3_result
    require (leb 1 (length c.attachments) && leb (length c.attachments) 3)
    attachments ← each validated_declaration c.attachments
    require (kinds_ok base_sha256 (kinds_of attachments))
    budgeted (record c {
      local_task_id = local_task_id;
      external_document_reference = external_document_reference;
      base_sha256 = base_sha256;
      k3_result = k3_result;
      attachments = sort_declarations attachments;
    })

  -- `canonical_manifest_bytes`
  abbrev pub canonical_manifest_bytes : ImportJobCreate → Text
  canonical_manifest_bytes = json_bytes false
