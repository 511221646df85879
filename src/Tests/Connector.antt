-- ===== src/Tests/Connector.antt =====
-- The theorems about the connector at one attachment of three bytes.
use super_boss.Base.{ℕ, ◌≡◌, ◌⊎◌, refl, inl, true, false, none, some, [], ◌∷◌, arith}
use super_boss.Base.Texts.{Text, codes}
use super_boss.Core.Errors.{connector_error, outbox_invalid}
use super_boss.Core.Exec.{Result, ok, err}
use super_boss.Connector.Client.Calls.{create_job}
use super_boss.Connector.Checks.{k3_raw}
use super_boss.Connector.Outbox.{
  AttachmentState, EvidenceState, OutboxEntry, Stamp, create, evidence, received, validated_entry,
  validated_attachment, validated_part, consistent_phase, is_evidence_state,
}
use super_boss.Connector.Store.{StoreTools, OriginDir, save, load, load_optional, all_documents}
use super_boss.Connector.Store.Recovery.{Ready, load-save}
use super_boss.Connector.Manifest.{ManifestTools, Probe, PreparedManifest}
use super_boss.Connector.Client.{ClientTools, read_body, refused, response_max_bytes}
use super_boss.Connector.Client.Body.{whole, read_body_lem}
use super_boss.Connector.Client
use super_boss.Connector.Client.Calls
use super_boss.Connector.Manifest
use super_boss.Connector.Outbox
use super_boss.Connector.Updater.{Success, Installation}
use super_boss.Connector.Updater.Replaced.{Kept, replace_executable-Kept}
use super_boss.Connector.Updater
use super_boss.Connector.Cli.{Tools, Answers, Run, upload_attachment}
use super_boss.Connector.Cli.Logs.{Outcome}
use super_boss.Connector.Cli.Uploads.{Needed, Finished, upload_attachment-Outcome}
use super_boss.Connector.Cli.Commands.{Surroundings, retry}
use super_boss.Connector.Cli.Commands.Retry.{
  Waiting, Replayed, Refused, retry-evidence, retry-changed,
}
use super_boss.Connector.Cli.Unchanged.Verdict.{IsUnchanged}

abbrev pub digest : Text
digest = codes "aaaaaaaaaaaaaaaaaaaaaaaaaaaaaaaaaaaaaaaaaaaaaaaaaaaaaaaaaaaaaaaa"

abbrev origin : Text
origin = codes "https://boss.example"

abbrev report : AttachmentState
report = record {
  kind = k3_raw;
  path = codes "/work/r.json";
  filename = codes "r.json";
  size_bytes = 3;
  sha256 = digest;
  part_sha256s = digest ∷ [];
  content_type = codes "application/json";
  attachment_id = some 21;
  file_id = some 22;
  upload_id = some 23;
  completed_parts = [];
  completed = false;
}

abbrev pub at_time : ℕ → Stamp
at_time n = record { time = n; aware = true }

abbrev new_entry : ℕ → OutboxEntry
new_entry now = record {
  normalized_origin = origin;
  idempotency_key = codes "key-1";
  manifest_path = codes "/work/m.json";
  manifest_fingerprint = digest;
  job_id = none;
  phase = create;
  attachments = record report { attachment_id = none; file_id = none; upload_id = none } ∷ [];
  evidence = none;
  updated_at = at_time now;
}

abbrev proof : EvidenceState
proof = record {
  job_id = 9;
  status = received;
  result_code = none;
  submitted_at = at_time 3;
  updated_at = at_time 4;
}

abbrev proven_entry : OutboxEntry
proven_entry = record (new_entry 5) {
  job_id = some 9;
  phase = evidence;
  attachments =
      record report {
        completed = true;
        completed_parts = record { part_number = 1; etag = codes "e" } ∷ [];
      }
      ∷ [];
  evidence = some proof;
}

-- a store whose only document is that of one entry
abbrev store_of : OutboxEntry → StoreTools
store_of e = record {
  dump_entry = λ _. 1 ∷ [];
  parse_entry = λ _. some e;
  dump_replacement = λ _. [];
  parse_replacement = λ _. none;
  dump_completion = λ _. [];
  parse_completion = λ _. none;
  file_name = λ _. codes "f.json";
  is_space = λ _. false;
}

abbrev empty_dir : OriginDir
empty_dir = record { documents = []; replacement = none; completion = none }

abbrev one_document : OriginDir
one_document = record empty_dir {
  documents = record { name = codes "f.json"; content = some (1 ∷ []) } ∷ [];
}

load-save_example :
    let done = save (store_of (new_entry 7)) true 7 (codes "f.json") (new_entry 2) empty_dir in
    (done.0 ≡ ok tt)
    × (load (store_of (new_entry 7)) origin done.1 ≡ ok (codes "f.json", new_entry 7))
unfolding load_optional all_documents validated_entry validated_attachment validated_part
    consistent_phase is_evidence_state Ready
load-save_example =
    load-save (store_of (new_entry 7)) origin (new_entry 2) (new_entry 7) 7 empty_dir (inl refl)
      refl refl refl (omega arith) (omega arith)

read_body_lem_example :
    read_body false [] ((1 ∷ 2 ∷ []) ∷ (3 ∷ []) ∷ []) ≡ whole false (1 ∷ 2 ∷ 3 ∷ [])
read_body_lem_example = read_body_lem false ((1 ∷ 2 ∷ []) ∷ (3 ∷ []) ∷ [])

abbrev pub client : ClientTools
client = record {
  is_space = λ _. false;
  lower = λ t. t;
  int = λ _. none;
  encodable = λ _. true;
  parse_token = λ _. none;
  parse_job = λ _. none;
  parse_attachment = λ _. some (record {
    id = 21;
    file_id = 22;
    upload_id = 23;
    kind = k3_raw;
    file_state = Client.FileState.quarantined;
  });
  parse_submit = λ _. none;
}

abbrev manifests : ManifestTools
manifests = record {
  texts = record { nfc = λ t. t; is_space = λ _. false };
  encodable = λ _. true;
  sha256 = λ _. digest;
  json_bytes = λ _ _. [];
  guess_type = λ _. none;
}

abbrev tools_of : OutboxEntry → Tools
tools_of e = record {
  store = store_of e;
  manifests = manifests;
  client = client;
  refresh_digest = λ _. 0;
}

abbrev stat : Manifest.Stat
stat = record { regular = true; size = 3; mtime_ns = 1; mode = 1 }

abbrev pub accepted : Client.Reply
accepted = record {
  status_code = 200;
  content_encoding = none;
  content_length = none;
  chunks = [];
  etag = some (codes "e");
}

abbrev answers : Answers
answers = record {
  created = none;
  part_url = λ _ _. ok (codes "https://s3.example/1");
  destination = λ _ _. some (record {
    scheme = codes "https";
    hostname = some (codes "s3.example");
    has_user = false;
    has_password = false;
    fragment = [];
    literal = none;
    idna = some (codes "s3.example");
    resolution = Calls.records (
        some (record {
          is_global = true;
          is_loopback = false;
          is_link_local = false;
          is_multicast = false;
          is_unspecified = false;
          is_reserved = false;
          is_private = false;
        })
        ∷ []);
  });
  put = λ _ _. some accepted;
  completed = λ _. some accepted;
  submitted = none;
  probe = λ _. record { before = some stat; content = some (1 ∷ 2 ∷ 3 ∷ []); after = some stat };
  content = λ _ _. some (1 ∷ 2 ∷ 3 ∷ []);
  writes = λ _. true;
  now = λ _. 6;
}

abbrev run_in : OriginDir → Run
run_in dir = record { dir = dir; credential = none; calls = []; printed = [] }

abbrev uploading_entry : AttachmentState → OutboxEntry
uploading_entry a = record (new_entry 5) {
  job_id = some 9;
  phase = Outbox.upload;
  attachments = a ∷ [];
}

upload_attachment-Outcome_example :
    Outcome
      (Needed report)
      (Finished (tools_of proven_entry) answers (codes "f.json") uploading_entry report)
      (run_in empty_dir)
      (upload_attachment
        (tools_of proven_entry)
        answers
        (codes "f.json")
        uploading_entry
        report
        (run_in empty_dir))
upload_attachment-Outcome_example =
    upload_attachment-Outcome (tools_of proven_entry) answers (codes "f.json") uploading_entry
      report (run_in empty_dir)

abbrev around : Surroundings
around = record {
  reads_keyring = true;
  writes_keyring = true;
  prints = true;
  writes = true;
  now = 6;
  tokens = none;
  job = none;
}

retry-evidence_example :
    Replayed
      (tools_of proven_entry)
      origin
      around
      answers
      (codes "f.json")
      proven_entry
      (run_in one_document)
      (retry
        (tools_of proven_entry)
        origin
        around
        answers
        (err (connector_error 2 outbox_invalid))
        (run_in one_document))
unfolding Waiting load load_optional all_documents validated_entry validated_attachment
    validated_part consistent_phase is_evidence_state
retry-evidence_example =
    retry-evidence (tools_of proven_entry) origin around answers
      (err (connector_error 2 outbox_invalid)) (codes "f.json") proven_entry (run_in one_document)
      (refl, refl, refl) refl

abbrev prepared_again : Result PreparedManifest
prepared_again = err (connector_error 2 outbox_invalid)

retry-changed_example :
    ((m : PreparedManifest) × (prepared_again ≡ ok m) × IsUnchanged m (new_entry 5))
    ⊎ Refused
        (tools_of (new_entry 5))
        origin
        around
        answers
        (err (connector_error 2 outbox_invalid))
        (codes "f.json")
        (new_entry 5)
        (run_in one_document)
        (retry
          (tools_of (new_entry 5))
          origin
          around
          answers
          (err (connector_error 2 outbox_invalid))
          (run_in one_document))
unfolding Waiting load load_optional all_documents validated_entry validated_attachment
    validated_part consistent_phase is_evidence_state
retry-changed_example =
    retry-changed (tools_of (new_entry 5)) origin around answers
      (err (connector_error 2 outbox_invalid)) (codes "f.json") (new_entry 5) (run_in one_document)
      (refl, refl, refl) refl

-- the file system refuses the move of the new executable
abbrev refuses_incoming : Success
refuses_incoming = record {
  writes_incoming = true;
  unlinks_old_previous = true;
  moves_target = true;
  moves_incoming = false;
  unlinks_previous = true;
}

replace_executable-Kept_example : Kept (codes "old") (codes "new") (
    Updater.replace_executable refuses_incoming
      (codes "new")
      (record { target = some (codes "old"); incoming = none; previous = some (codes "older") }))
replace_executable-Kept_example =
    replace_executable-Kept refuses_incoming (codes "new") (codes "old") none (some (codes "older"))
