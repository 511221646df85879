-- ===== src/Connector/Client/Calls.antt =====
-- client.py: the calls of ApiClient, each as a function of the answers it gets, and the upload of
-- a part to the storage's address.
use super_boss.Base.{
  Bool, true, false, Option, none, some, List, [], ◌∷◌, not, ◌&&◌, ◌||◌, ◌==◌, ltb, leb, Uuid, inl,
  inr, ◌≡◌, Bool-cases, Option-cases, if◌then◌else◌,
}
use super_boss.Base.Lists.{length, any}
use super_boss.Base.Strip.{strip}
use super_boss.Base.Texts.{Text, codes, text_eq}
use super_boss.Core.Errors.{connector_error, server_rejected, temporary_failure}
use super_boss.Core.Exec.{Result, ok, err, Result-cases, ok-injective}
use super_boss.Connector.Checks.{kind_eq, is_plain, has_length}
use super_boss.Connector.Outbox.{etag_max_chars}
use super_boss.Connector.Manifest.{ServerManifest}
use super_boss.Connector.Client.{
  ClientTools, Reply, TokenResponse, JobResponse, AttachmentResponse, SubmitResponse, refused,
  request, is_token_response, is_job_response, is_submit_response, is_created, is_uploading_file,
}

-- the flags of `ipaddress` that the destination's check reads
pub record Address : Type 0 where
  pub is_global : Bool
  pub is_loopback : Bool
  pub is_link_local : Bool
  pub is_multicast : Bool
  pub is_unspecified : Bool
  pub is_reserved : Bool
  pub is_private : Bool

-- what `socket.getaddrinfo` gives within its time; an address may fail to parse
pub data Resolution : Type 0 where
  timed_out unresolved : Resolution
  records : List (Option Address) → Resolution

-- `urlsplit` of a URL, the parse of its host as an address, and its IDNA form resolved
pub record Destination : Type 0 where
  pub scheme : Text
  pub hostname : Option Text
  pub has_user : Bool
  pub has_password : Bool
  pub fragment : Text
  pub literal : Option Address
  pub idna : Option Text
  pub resolution : Resolution

abbrev is_numeric : Text → Bool
is_numeric t = leb 1 (length t) && not (any (λ c. not ((leb b'0' c && leb c b'9') || c == b'.')) t)

abbrev pub is_unsafe : Address → Bool
is_unsafe a =
    not a.is_global
    || (a.is_loopback
        || (a.is_link_local
            || (a.is_multicast || (a.is_unspecified || (a.is_reserved || a.is_private)))))

abbrev server_refusal : {A : Type 0} → Result A
server_refusal = err (connector_error 5 server_rejected)

abbrev all_parsed : List (Option Address) → Option (List Address)
all_parsed [] = some []
all_parsed (none ∷ rest) = none
all_parsed (some a ∷ rest) = elim (all_parsed rest) [ none ↦ none | some more ↦ some (a ∷ more) ]

-- Repeated addresses are kept: neither test sees them.
abbrev safe_addresses : Option (List Address) → Result (List Address)
safe_addresses none = server_refusal
safe_addresses (some found) =
    if length found == 0 || any is_unsafe found then server_refusal else ok found

-- `_resolve_upload_host`
abbrev resolve_upload_host : Resolution → Result (List Address)
resolve_upload_host timed_out = err (connector_error 6 temporary_failure)
resolve_upload_host unresolved = err (connector_error 6 temporary_failure)
resolve_upload_host (records rs) = safe_addresses (all_parsed rs)

abbrev named_addresses : Text → Option Text → Resolution → Result (List Address)
named_addresses host none resolution = server_refusal
named_addresses host (some ascii) resolution =
    if is_numeric host then server_refusal else resolve_upload_host resolution

abbrev host_addresses : Text → Option Address → Destination → Result (List Address)
host_addresses host (some a) d = safe_addresses (some (a ∷ []))
host_addresses host none d = named_addresses host d.idna d.resolution

module _ (lower : Text → Text) where
  abbrev checked_host : Destination → Option Text → Result (List Address)
  checked_host d none = server_refusal
  checked_host d (some host) =
      if not (text_eq d.scheme (codes "https"))
        || (text_eq (lower host) (codes "localhost")
            || (d.has_user || (d.has_password || leb 1 (length d.fragment))))
      then server_refusal
      else host_addresses host d.literal d

  -- `_validate_upload_destination`; `none` is a ValueError of the parsing
  pub validate_upload_destination : Option Destination → Result (List Address)
  validate_upload_destination none = server_refusal
  validate_upload_destination (some d) = checked_host d d.hostname

module _ (tools : ClientTools) where
  abbrev etag_of : Option Text → Text
  etag_of none = []
  etag_of (some raw) = strip tools.is_space raw

  abbrev pub is_etag : Text → Bool
  is_etag etag = has_length 1 etag_max_chars etag && is_plain etag

  abbrev uploaded : Option Reply → Result Text
  uploaded none = err (connector_error 6 temporary_failure)
  uploaded (some r) =
      let etag = etag_of r.etag in
      if r.status_code == 429 || leb 500 r.status_code
      then err (connector_error 6 temporary_failure)
      else if not (leb 200 r.status_code && ltb r.status_code 300)
      then server_refusal
      else if is_etag etag
      then ok etag
      else server_refusal

  abbrev after : {A B : Type 0} → Result A → Result B → Result B
  after (err e) b = err e
  after (ok a) b = b

  -- `put_part`
  pub put_part : Option Destination → Option Reply → Result Text
  put_part destination reply =
      after (validate_upload_destination tools.lower destination) (uploaded reply)

  -- `_json` and the checks of a call on what it read
  module _ {A : Type 0} (auth_failure : Bool) (parse : Text → Option A) (accepted : A → Bool) where
    abbrev judged : Option A → Result A
    judged none = err (refused auth_failure)
    judged (some a) = if accepted a then ok a else err (refused auth_failure)

    abbrev of_payload : Result Text → Result A
    of_payload (err e) = err e
    of_payload (ok payload) = judged (parse payload)

    abbrev pub answered : Option Reply → Result A
    answered reply = of_payload (request tools auth_failure reply)

    -- What a call returns was accepted.
    pub answered_lem : (reply : Option Reply) (a : A) → answered reply ≡ ok a → accepted a ≡ true
    answered_lem reply a e = elim (Result-cases (request tools auth_failure reply)) [
      | inr (x, b) ↦ absurd (cc (rw b at e))
      | inl (payload, b) ↦ elim (Option-cases (parse payload)) [
        | inl c ↦ absurd (cc (rw (b, c) at e))
        | inr (d, c) ↦ elim (Bool-cases (accepted d)) [
          | inr f ↦ absurd (cc (rw (b, c, f) at e))
          | inl f ↦ let same : d ≡ a = ok-injective d a (rw (b, c, f) at e) in rw⁻¹ same f
        ]
      ]
    ]

  -- the tokens of `pair` and `refresh`
  abbrev pub token : Option Reply → Result TokenResponse
  token = answered true tools.parse_token (is_token_response tools)

  -- `create_job`
  unfoldable pub create_job : ServerManifest → Option Reply → Result JobResponse
  create_job m = answered false tools.parse_job (λ r. is_job_response r && is_created m r)

  abbrev is_completed : AttachmentResponse → AttachmentResponse → Bool
  is_completed expected r =
      r.id == expected.id
      && (r.file_id == expected.file_id
          && (r.upload_id == expected.upload_id
              && (kind_eq r.kind expected.kind && not (is_uploading_file r.file_state))))

  -- `complete_attachment`
  pub complete_attachment : AttachmentResponse → Option Reply → Result AttachmentResponse
  complete_attachment expected = answered false tools.parse_attachment (is_completed expected)

  -- `submit_job`
  pub submit_job : Uuid → Option Reply → Result SubmitResponse
  submit_job job_id =
      answered false tools.parse_submit (λ r. is_submit_response r && r.id == job_id)

  -- `status`
  pub status : Uuid → Option Reply → Result JobResponse
  status job_id = answered false tools.parse_job (λ r. is_job_response r && r.id == job_id)
