-- ===== src/Connector/Client.antt =====
-- client.py: what the connector accepts of the server's answers. The bytes of an answer and their
-- JSON with the field types of pydantic are arguments.
pub mod Calls
pub mod Body
use super_boss.Base.{
  ℕ, ◌+◌, ◌-◌, Bool, true, false, Option, none, some, List, [], ◌∷◌, ◌++◌, map, not, ◌&&◌, ◌||◌,
  ◌==◌, ltb, leb, is_some, opt_eq, Uuid, if◌then◌else◌,
}
use super_boss.Base.Lists.{length, any, all, take}
use super_boss.Base.Strip.{strip}
use super_boss.Base.Texts.{Text, codes, text_eq}
use super_boss.Core.Errors.{
  Error, connector_error, credential_error, server_rejected, temporary_failure,
}
use super_boss.Core.Exec.{Result, ok, err}
use super_boss.Connector.Checks.{
  AttachmentKind, kind_eq, is_plain, has_length, is_digest, has_repeat, number_repeat,
}
use super_boss.Connector.Outbox.{
  JobStatus, Stamp, is_refused, is_uploading, is_result, differ, etag_max_chars,
}
use super_boss.Connector.Manifest.{ServerManifest, ServerAttachment}
use super_boss.Imports.Schemas.{K3Result}

-- `file_state`
pub data FileState : Type 0 where
  uploading quarantined scanning clean infected failed : FileState

pub record TokenResponse : Type 0 where
  pub access_token : Text
  pub refresh_token : Text
  pub token_type : Text
  pub expires_at : Stamp
  pub refresh_expires_at : Stamp

pub record AttachmentResponse : Type 0 where
  pub id : Uuid
  pub file_id : Uuid
  pub upload_id : Uuid
  pub kind : AttachmentKind
  pub file_state : FileState

pub record JobResponse : Type 0 where
  pub id : Uuid
  pub project_id : Uuid
  pub local_task_id : Text
  pub external_document_reference : Option Text
  pub base_sha256 : Option Text
  pub status : JobStatus
  pub result_code : Option Text
  pub k3_result : K3Result
  pub submitted_at : Option Stamp
  pub created_at : Stamp
  pub updated_at : Stamp
  pub attachments : List AttachmentResponse

pub record SubmitResponse : Type 0 where
  pub id : Uuid
  pub status : JobStatus
  pub result_code : Option Text
  pub submitted_at : Stamp
  pub updated_at : Stamp

-- `int(value)` of a header
pub data Integer : Type 0 where
  natural negative : ℕ → Integer

-- an answer of the server; its body comes in chunks
pub record Reply : Type 0 where
  pub status_code : ℕ
  pub content_encoding : Option Text
  pub content_length : Option Text
  pub chunks : List Text
  pub etag : Option Text

pub record ClientTools : Type 0 where
  pub is_space : ℕ → Bool
  pub lower : Text → Text
  pub int : Text → Option Integer
  pub encodable : Text → Bool
  pub parse_token : Text → Option TokenResponse
  pub parse_job : Text → Option JobResponse
  pub parse_attachment : Text → Option AttachmentResponse
  pub parse_submit : Text → Option SubmitResponse

abbrev pub response_max_bytes : ℕ
response_max_bytes = 131072

abbrev pub token_max_chars : ℕ
token_max_chars = 4096

-- the error of a refused or malformed answer
abbrev pub refused : (auth_failure : Bool) → Error
refused true = connector_error 3 credential_error
refused false = connector_error 5 server_rejected

-- the loop over `iter_raw` with the payload that was read
unfoldable pub read_body : (auth_failure : Bool) → (payload : Text) → List Text → Result Text
read_body auth_failure payload [] = ok payload
read_body auth_failure payload (chunk ∷ rest) =
    let remaining = response_max_bytes + 1 - length payload in
    let extended = payload ++ take remaining chunk in
    let more = read_body auth_failure extended rest in
    if ltb response_max_bytes (length extended) || ltb remaining (length chunk)
    then err (refused auth_failure)
    else more

module _ (tools : ClientTools) where
  abbrev is_identity : Option Text → Bool
  is_identity none = true
  is_identity (some encoding) =
      text_eq (tools.lower (strip tools.is_space encoding)) (codes "identity")

  abbrev is_bounded : Option Integer → Bool
  is_bounded none = false
  is_bounded (some (negative n)) = false
  is_bounded (some (natural n)) = leb n response_max_bytes

  abbrev is_length : Option Text → Bool
  is_length none = true
  is_length (some t) = is_bounded (tools.int t)

  -- `_request`; a reply of `none` is a RequestError
  pub request : (auth_failure : Bool) → Option Reply → Result Text
  request auth_failure none = err (connector_error 6 temporary_failure)
  request auth_failure (some r) =
      if r.status_code == 429 || leb 500 r.status_code
      then err (connector_error 6 temporary_failure)
      else if not (leb 200 r.status_code && ltb r.status_code 300)
      then err (refused auth_failure)
      else if not (is_identity r.content_encoding)
      then err (refused auth_failure)
      else if not (is_length r.content_length)
      then err (refused auth_failure)
      else read_body auth_failure [] r.chunks

  -- `TokenResponse`
  abbrev safe_token : Text → Bool
  safe_token t = has_length 1 token_max_chars t && (tools.encodable t && is_plain t)

  pub is_token_response : TokenResponse → Bool
  is_token_response t =
      safe_token t.access_token
      && (safe_token t.refresh_token
          && (text_eq t.token_type (codes "Bearer")
              && (t.expires_at.aware && t.refresh_expires_at.aware)))

abbrev in_order : Option Stamp → Stamp → Stamp → Bool
in_order none created updated = true
in_order (some submitted) created updated =
    leb created.time submitted.time && leb submitted.time updated.time

abbrev is_aware : Option Stamp → Bool
is_aware none = true
is_aware (some s) = s.aware

abbrev optional_text : (least most : ℕ) → Option Text → Bool
optional_text least most none = true
optional_text least most (some t) = has_length least most t

abbrev optional_digest : Option Text → Bool
optional_digest none = true
optional_digest (some t) = is_digest t

-- `JobResponse`
pub is_job_response : JobResponse → Bool
is_job_response r =
    has_length 1 255 r.local_task_id
    && (optional_text 1 1024 r.external_document_reference
        && (optional_digest r.base_sha256
            && (is_result r.result_code
                && ((leb 1 (length r.attachments) && leb (length r.attachments) 3)
                    && ((is_aware r.submitted_at && (r.created_at.aware && r.updated_at.aware))
                        && (leb r.created_at.time r.updated_at.time
                            && (in_order r.submitted_at r.created_at r.updated_at
                                && (differ (is_uploading r.status) (is_some r.submitted_at)
                                    && not (
                                        differ (is_refused r.status)
                                          (is_some r.result_code))))))))))

-- `SubmitResponse`
pub is_submit_response : SubmitResponse → Bool
is_submit_response r =
    not (is_uploading r.status)
    && (is_result r.result_code
        && ((r.submitted_at.aware && r.updated_at.aware)
            && (not (differ (is_refused r.status) (is_some r.result_code))
                && leb r.submitted_at.time r.updated_at.time)))

abbrev texts_eq : List Text → List Text → Bool
texts_eq [] [] = true
texts_eq (s ∷ ss) (t ∷ ts) = text_eq s t && texts_eq ss ts
texts_eq _ _ = false

abbrev opt_text_eq : Option Text → Option Text → Bool
opt_text_eq none none = true
opt_text_eq (some s) (some t) = text_eq s t
opt_text_eq _ _ = false

-- the equality of their JSON; both times are in UTC
abbrev pub k3_eq : K3Result → K3Result → Bool
k3_eq r s =
    text_eq r.model_label s.model_label
    && (r.processed_at.time == s.processed_at.time
        && (texts_eq r.modification_details s.modification_details
            && (texts_eq r.knowledge_points s.knowledge_points
                && (texts_eq r.risks s.risks
                    && (opt_text_eq r.suggested_title s.suggested_title
                        && texts_eq r.suggested_tags s.suggested_tags)))))

abbrev pub kinds_eq : List AttachmentKind → List AttachmentKind → Bool
kinds_eq [] [] = true
kinds_eq (k ∷ ks) (l ∷ ls) = kind_eq k l && kinds_eq ks ls
kinds_eq _ _ = false

abbrev pub is_uploading_file : FileState → Bool
is_uploading_file uploading = true
is_uploading_file _ = false

abbrev pub response_kinds : List AttachmentResponse → List AttachmentKind
response_kinds = map (λ (a : AttachmentResponse). a.kind)

abbrev pub manifest_kinds : List ServerAttachment → List AttachmentKind
manifest_kinds = map (λ (a : ServerAttachment). a.kind)

abbrev repeats_id : List AttachmentResponse → Bool
repeats_id rs =
    number_repeat (map (λ (a : AttachmentResponse). a.id) rs)
    || (number_repeat (map (λ (a : AttachmentResponse). a.file_id) rs)
        || number_repeat (map (λ (a : AttachmentResponse). a.upload_id) rs))

abbrev same_fields : ServerManifest → JobResponse → Bool
same_fields m r =
    r.project_id == m.project_id
    && (text_eq r.local_task_id m.local_task_id
        && (opt_text_eq r.external_document_reference m.external_document_reference
            && (opt_text_eq r.base_sha256 m.base_sha256 && k3_eq r.k3_result m.k3_result)))

-- what `create_job` requires of the answer
unfoldable pub is_created : ServerManifest → JobResponse → Bool
is_created m r =
    same_fields m r
    && ((kinds_eq (response_kinds r.attachments) (manifest_kinds m.attachments)
          && not (has_repeat kind_eq (response_kinds r.attachments)))
        && (is_uploading r.status
            && (not (is_some r.submitted_at)
                && (not (is_some r.result_code)
                    && (all (λ (a : AttachmentResponse). is_uploading_file a.file_state)
                          r.attachments
                        && not (repeats_id r.attachments))))))
