-- ===== src/Connector/Cli.antt =====
-- cli.py: the resumption of one operation. What the server, the storage, the files and the clock
-- answer is an argument, by the step that asks; the calls that were made are logged.
pub mod Commands
pub mod Unchanged
pub mod Logs
pub mod Uploads
use super_boss.Base.{
  ℕ, ◌+◌, ◌-◌, ◌*◌, min, suc, zero, Bool, true, false, Option, none, some, List, [], ◌∷◌, ◌++◌, map,
  not, ◌&&◌, ◌||◌, ◌==◌, ltb, leb, is_some, Uuid, Digest, Time, if◌then◌else◌,
}
use super_boss.Base.Lists.{length, any, take, drop, contains}
use super_boss.Base.Rows.{find_by}
use super_boss.Base.Texts.{Text, text_eq}
use super_boss.Core.Errors.{connector_error, outbox_invalid, file_changed, server_rejected}
use super_boss.Core.Exec.{
  Exec, Result, ok, err, pure, raise, lift, or_raise, modify, raise_if, ◌>>=◌, ◌>>◌,
}
use super_boss.Connector.Checks.{AttachmentKind, kind_eq, number_repeat, sort_by}
use super_boss.Connector.Outbox.{
  Phase, create, upload, submit, evidence, JobStatus, CompletedPart, AttachmentState, EvidenceState,
  OutboxEntry, part_size, total_parts, part_numbers, is_create,
}
use super_boss.Connector.Store.{StoreTools, OriginDir, save}
use super_boss.Connector.Manifest.{ManifestTools, PreparedManifest, PreparedAttachment, Probe}
use super_boss.Connector.Manifest.Prepare.{verify_attachment}
use super_boss.Connector.Client.{
  ClientTools, Reply, JobResponse, AttachmentResponse, SubmitResponse, uploading,
}
use super_boss.Connector.Client.Calls.{
  Destination, put_part, create_job, complete_attachment, submit_job,
}

pub data Step : Type 0 where
  created uploaded submitted : Step
  begun completed : AttachmentKind → Step
  part : AttachmentKind → ℕ → Step

-- the calls to the server and the storage, in their order
pub data Call : Type 0 where
  pair_call refresh_call status_call create_call submit_call : Call
  part_url_call put_call : AttachmentKind → ℕ → Call
  complete_call : AttachmentKind → List CompletedPart → Call

pub record Tools : Type 0 where
  pub store : StoreTools
  pub manifests : ManifestTools
  pub client : ClientTools
  pub refresh_digest : Text → Digest

-- the lines that a command prints
pub data Line : Type 0 where
  result_line : Uuid → JobStatus → Option Text → Line
  device_paired replacement_reported : Line

-- the answers of one run of `_resume`
pub record Answers : Type 0 where
  pub created : Option Reply
  pub part_url : AttachmentKind → ℕ → Result Text
  pub destination : AttachmentKind → ℕ → Option Destination
  pub put : AttachmentKind → ℕ → Option Reply
  pub completed : AttachmentKind → Option Reply
  pub submitted : Option Reply
  pub probe : Step → Probe
  pub content : AttachmentKind → ℕ → Option Text
  pub writes : Step → Bool
  pub now : Step → Time

-- the directory and the keyring of the workstation, the calls that were made and what was printed
pub record Run : Type 0 where
  pub dir : OriginDir
  pub credential : Option Text
  pub calls : List Call
  pub printed : List Line

abbrev pub invalid_state : {A : Type 0} → Exec Run A
invalid_state = raise (connector_error 2 outbox_invalid)

abbrev pub log : Call → Exec Run (Unit {0})
log call = modify (λ r. record r { calls = r.calls ++ call ∷ [] })

abbrev pub stored : {A : Type 0} → Exec OriginDir A → Exec Run A
stored m r = let done = m r.dir in (done.0, record r { dir = done.1 })

-- the numbers `k, …, k + n - 1`
abbrev pub numbers_from : ℕ → ℕ → List ℕ
numbers_from k zero = []
numbers_from k (suc n) = k ∷ numbers_from (suc k) n

abbrev part_key : CompletedPart → ℕ
part_key p = p.part_number

-- `completed_parts.append(…)`, then `sort`
abbrev pub add_part : CompletedPart → List CompletedPart → List CompletedPart
add_part p parts = sort_by part_key (parts ++ p ∷ [])

abbrev nth : ℕ → List Text → Option Text
nth n [] = none
nth zero (t ∷ rest) = some t
nth (suc n) (t ∷ rest) = nth n rest

abbrev checked_part : (sha256 : Text → Text) → ℕ → Option Text → Option Text → Result Text
checked_part sha256 expected_length none expected = err (connector_error 4 file_changed)
checked_part sha256 expected_length (some content) none = err (connector_error 4 file_changed)
checked_part sha256 expected_length (some content) (some digest) =
    if not (length content == expected_length) || not (text_eq (sha256 content) digest)
    then err (connector_error 4 file_changed)
    else ok content

-- `_read_part`; `content` is what `seek` and `read` give
pub read_part :
    (sha256 : Text → Text)
    → (content : Option Text) → (part_number total_size : ℕ) → Option Text
    → Result Text
read_part sha256 content part_number total_size expected =
    checked_part sha256 (min part_size (total_size - (part_number - 1) * part_size)) content
      expected

abbrev received_of : PreparedAttachment → List AttachmentResponse → Option AttachmentResponse
received_of prepared = find_by (λ (r : AttachmentResponse). kind_eq r.kind prepared.kind)

abbrev bind_attachment : AttachmentState → Option AttachmentResponse → Option AttachmentState
bind_attachment stored none = none
bind_attachment stored (some r) = some (record stored {
  attachment_id = some r.id;
  file_id = some r.file_id;
  upload_id = some r.upload_id;
})

abbrev bound_first :
    Option AttachmentState → Option (List AttachmentState) → Option (List AttachmentState)
bound_first none rest = none
bound_first (some a) none = none
bound_first (some a) (some rest) = some (a ∷ rest)

abbrev bind_all :
    List AttachmentResponse
    → List AttachmentState
    → List PreparedAttachment
    → Option (List AttachmentState)
bind_all received [] [] = some []
bind_all received (s ∷ ss) (p ∷ ps) =
    bound_first (bind_attachment s (received_of p received)) (bind_all received ss ps)
bind_all received _ _ = none

abbrev bound_entry : OutboxEntry → JobResponse → Option (List AttachmentState) → Result OutboxEntry
bound_entry entry response none = err (connector_error 5 server_rejected)
bound_entry entry response (some attachments) =
    ok (record entry { job_id = some response.id; phase = upload; attachments = attachments })

-- `_bind_created_job`; the kinds of a response differ from each other
pub bind_created_job : OutboxEntry → PreparedManifest → JobResponse → Result OutboxEntry
bind_created_job entry manifest response =
    if not (length response.attachments == length entry.attachments)
    then err (connector_error 5 server_rejected)
    else bound_entry entry response
        (bind_all response.attachments entry.attachments manifest.attachments)

abbrev expected_of :
    AttachmentState → Option Uuid → Option Uuid → Option Uuid → Option AttachmentResponse
expected_of a (some id) (some file_id) (some upload_id) = some (record {
  id = id;
  file_id = file_id;
  upload_id = upload_id;
  kind = a.kind;
  file_state = uploading;
})
expected_of a _ _ _ = none

-- the identifiers of an attachment, with what a completion must return
abbrev pub expected_response : AttachmentState → Option AttachmentResponse
expected_response a = expected_of a a.attachment_id a.file_id a.upload_id

module _ (tools : Tools) (answers : Answers) (path : Text) where
  abbrev saved : Step → OutboxEntry → Exec Run (Unit {0})
  saved step entry = stored (save tools.store (answers.writes step) (answers.now step) path entry)

  abbrev verified : Step → AttachmentState → Exec Run (Unit {0})
  verified step a =
      lift (verify_attachment tools.manifests (answers.probe step) a.size_bytes a.sha256)

  -- `whole` is the entry with this attachment as it stands
  module _ (whole : AttachmentState → OutboxEntry) where
    pub upload_part : ℕ → AttachmentState → Exec Run AttachmentState
    upload_part n a = do
      log (part_url_call a.kind n)
      url ← lift (answers.part_url a.kind n)
      verified (part a.kind n) a
      content ← lift (
          read_part tools.manifests.sha256 (answers.content a.kind n) n a.size_bytes
            (nth (n - 1) a.part_sha256s))
      log (put_call a.kind n)
      etag ← lift (put_part tools.client (answers.destination a.kind n) (answers.put a.kind n))
      let a' = record a {
        completed_parts = add_part (record { part_number = n; etag = etag }) a.completed_parts;
      }
      saved (part a.kind n) (whole a')
      pure a'

    abbrev part_unless : Bool → ℕ → AttachmentState → Exec Run AttachmentState
    part_unless true n a = pure a
    part_unless false n a = upload_part n a

    -- the loop over the numbers; `done` are the ones recorded before it
    pub upload_parts : (done : List ℕ) → List ℕ → AttachmentState → Exec Run AttachmentState
    upload_parts done [] a = pure a
    upload_parts done (n ∷ rest) a = part_unless (contains n done) n a >>= upload_parts done rest

    abbrev complete_unless : Bool → AttachmentResponse → AttachmentState → Exec Run AttachmentState
    complete_unless true expected a = pure a
    complete_unless false expected a = do
      verified (completed a.kind) a
      log (complete_call a.kind a.completed_parts)
      _ ← lift (complete_attachment tools.client expected (answers.completed a.kind))
      let a' = record a { completed = true }
      saved (completed a.kind) (whole a')
      pure a'

    abbrev identified : AttachmentState → Option AttachmentResponse → Exec Run AttachmentState
    identified a none = invalid_state
    identified a (some expected) = do
      let numbers = part_numbers a.completed_parts
      raise_if (number_repeat numbers || any (λ n. ltb (total_parts a.size_bytes) n) numbers)
          (connector_error 2 outbox_invalid)
      a' ← upload_parts numbers (numbers_from 1 (total_parts a.size_bytes)) a
      complete_unless a'.completed expected a'

    -- one turn of the loop over the attachments
    pub upload_attachment : AttachmentState → Exec Run AttachmentState
    upload_attachment a = verified (begun a.kind) a >> identified a (expected_response a)

  pub upload_all :
      OutboxEntry
      → (done : List AttachmentState) → List AttachmentState
      → Exec Run (List AttachmentState)
  upload_all entry done [] = pure done
  upload_all entry done (a ∷ rest) =
      upload_attachment (λ a'. record entry { attachments = done ++ a' ∷ rest }) a >>= λ a'.
      upload_all entry (done ++ a' ∷ []) rest

  abbrev create_phase : PreparedManifest → OutboxEntry → Exec Run OutboxEntry
  create_phase manifest entry = do
    log create_call
    response ← lift (create_job tools.client manifest.server answers.created)
    bound ← lift (bind_created_job entry manifest response)
    saved created bound
    pure bound

  abbrev upload_phase : OutboxEntry → Exec Run OutboxEntry
  upload_phase entry = do
    attachments ← upload_all entry [] entry.attachments
    let entry' = record entry { attachments = attachments; phase = submit }
    saved uploaded entry'
    pure entry'

  abbrev evidence_of : SubmitResponse → EvidenceState
  evidence_of r = record {
    job_id = r.id;
    status = r.status;
    result_code = r.result_code;
    submitted_at = r.submitted_at;
    updated_at = r.updated_at;
  }

  abbrev submit_phase : Uuid → OutboxEntry → Exec Run SubmitResponse
  submit_phase job_id entry = do
    log submit_call
    r ← lift (submit_job tools.client job_id answers.submitted)
    saved submitted (record entry { phase = evidence; evidence = some (evidence_of r) })
    pure r

  abbrev created_entry : PreparedManifest → OutboxEntry → Phase → Exec Run OutboxEntry
  created_entry manifest entry create = create_phase manifest entry
  created_entry manifest entry _ = pure entry

  abbrev uploaded_entry : OutboxEntry → Phase → Exec Run OutboxEntry
  uploaded_entry entry upload = upload_phase entry
  uploaded_entry entry _ = pure entry

  -- `_resume` has the identifier of the job before it uploads.
  abbrev resumed : OutboxEntry → Option Uuid → Exec Run SubmitResponse
  resumed entry none = invalid_state
  resumed entry (some job_id) = uploaded_entry entry entry.phase >>= submit_phase job_id

  pub resume : PreparedManifest → OutboxEntry → Exec Run SubmitResponse
  resume manifest entry = created_entry manifest entry entry.phase >>= λ e. resumed e e.job_id
