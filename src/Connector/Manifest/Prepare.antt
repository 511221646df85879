-- ===== src/Connector/Manifest/Prepare.antt =====
-- manifest.py: the files behind a manifest are hashed, and it becomes a prepared one.
use super_boss.Base.{
  ℕ, Bool, true, false, Option, none, some, List, [], ◌∷◌, map, not, ◌&&◌, ◌||◌, ◌==◌, ltb, leb,
  Time, if◌then◌else◌,
}
use super_boss.Base.Chunks.{chunks}
use super_boss.Base.Lists.{length, any}
use super_boss.Base.Options.{each, require, ◌>>=◌}
use super_boss.Base.Texts.{Text, codes, text_eq}
use super_boss.Core.Errors.{connector_error, invalid_input, file_changed}
use super_boss.Core.Exec.{Result, ok, err}
use super_boss.Connector.Outbox.{
  AttachmentState, OutboxEntry, create, part_size, max_attachment_bytes,
}
use super_boss.Connector.Manifest.{
  LocalAttachment, LocalManifest, ServerAttachment, PreparedAttachment, PreparedManifest, Stat,
  Probe, ManifestTools, Folder, Envelope, manifest_input_max_bytes, sort_prepared, validated_local,
  validated_server_attachment, validated_server,
}

module _ (tools : ManifestTools) where
  abbrev same_stat : Stat → Stat → Bool
  same_stat a b = a.size == b.size && (a.mtime_ns == b.mtime_ns && a.mode == b.mode)

  abbrev hashed : Option Stat → Option Text → Option Stat → Result (ℕ × (Text × List Text))
  hashed (some before) (some content) (some after) =
      if not before.regular || (ltb before.size 1 || ltb max_attachment_bytes before.size)
      then err (connector_error 2 invalid_input)
      else if not (same_stat before after)
      then err (connector_error 2 invalid_input)
      else ok (before.size, (tools.sha256 content, map tools.sha256 (chunks part_size content)))
  hashed _ _ _ = err (connector_error 2 invalid_input)

  -- `_hash_regular_file`
  pub hash_regular_file : Probe → Result (ℕ × (Text × List Text))
  hash_regular_file p = hashed p.before p.content p.after

  abbrev verified : ℕ → Text → Result (ℕ × (Text × List Text)) → Result (Unit {0})
  verified expected_size expected_sha256 (err e) = err (connector_error 4 file_changed)
  verified expected_size expected_sha256 (ok (size, (digest, parts))) =
      if not (size == expected_size) || not (text_eq digest expected_sha256)
      then err (connector_error 4 file_changed)
      else ok tt

  -- `verify_attachment`
  pub verify_attachment : Probe → ℕ → Text → Result (Unit {0})
  verify_attachment p expected_size expected_sha256 =
      verified expected_size expected_sha256 (hash_regular_file p)

  abbrev result_option : {A : Type 0} → Result A → Option A
  result_option (err e) = none
  result_option (ok a) = some a

  abbrev type_of : Option Text → Option Text → Text
  type_of (some declared) guessed = declared
  type_of none (some guessed) = guessed
  type_of none none = codes "application/octet-stream"

  abbrev server_attachment : PreparedAttachment → ServerAttachment
  server_attachment a = record {
    kind = a.kind;
    filename = a.filename;
    size_bytes = a.size_bytes;
    sha256 = a.sha256;
    content_type = a.content_type;
  }

  abbrev prepared_attachment :
      Text → Text → LocalAttachment → Result (ℕ × (Text × List Text)) → Option PreparedAttachment
  prepared_attachment resolved base_name a (err e) = none
  prepared_attachment resolved base_name a (ok (size, (digest, parts))) = do
    server ← validated_server_attachment tools (record {
      kind = a.kind;
      filename = tools.texts.nfc base_name;
      size_bytes = size;
      sha256 = digest;
      content_type = type_of a.content_type (tools.guess_type base_name);
    })
    some (record {
      kind = a.kind;
      path = resolved;
      filename = server.filename;
      size_bytes = size;
      sha256 = digest;
      part_sha256s = parts;
      content_type = type_of a.content_type (tools.guess_type base_name);
    })

  module _ (folder : Folder) where
    abbrev at : List Text → LocalAttachment → Option Text → Option PreparedAttachment
    at seen a none = none
    at seen a (some resolved) =
        if not (folder.is_inside resolved) || any (text_eq resolved) seen
        then none
        else prepared_attachment resolved (folder.base_name resolved) a
            (hash_regular_file (folder.probe resolved))

    -- one turn of the loop over the declarations
    abbrev prepare_one : List Text → LocalAttachment → Option PreparedAttachment
    prepare_one seen a =
        if folder.is_absolute a.path || folder.is_symlink a.path
        then none
        else at seen a (folder.resolve a.path)

    -- the loop, with the resolved paths that were seen
    prepare_all : List Text → List LocalAttachment → Option (List PreparedAttachment)
    prepare_all seen [] = some []
    prepare_all seen (a ∷ rest) =
        prepare_one seen a >>= λ p. prepare_all (p.path ∷ seen) rest >>= λ ps. some (p ∷ ps)

    abbrev prepared_manifest :
        Text → LocalManifest → List PreparedAttachment → Option PreparedManifest
    prepared_manifest path l attachments = do
      declared ← each (validated_server_attachment tools) (map server_attachment attachments)
      server ← validated_server tools (record {
        project_id = l.project_id;
        local_task_id = l.local_task_id;
        external_document_reference = l.external_document_reference;
        base_sha256 = l.base_sha256;
        k3_result = l.k3_result;
        attachments = declared;
      })
      some (record {
        path = path;
        idempotency_key = l.idempotency_key;
        server = server;
        attachments = attachments;
        fingerprint = tools.sha256 (tools.json_bytes false server);
      })

    abbrev or_invalid : {A : Type 0} → Option A → Result A
    or_invalid none = err (connector_error 2 invalid_input)
    or_invalid (some a) = ok a

    abbrev sized : Envelope → Option (Unit {0})
    sized e = require (
        e.metadata.regular
        && ((leb 1 e.metadata.size && leb e.metadata.size manifest_input_max_bytes)
            && (leb 1 (length e.serialized) && leb (length e.serialized) manifest_input_max_bytes)))

    abbrev prepared : Envelope → Option PreparedManifest
    prepared e = do
      _ ← sized e
      raw ← e.raw
      l ← validated_local tools raw
      attachments ← prepare_all [] l.attachments
      prepared_manifest e.path l (sort_prepared attachments)

    abbrev opened : Option Envelope → Option PreparedManifest
    opened none = none
    opened (some e) = prepared e

    -- `prepare_manifest`; an envelope of `none` is an OSError
    pub prepare_manifest : Option Envelope → Result PreparedManifest
    prepare_manifest envelope = or_invalid (opened envelope)

abbrev initial_attachment : PreparedAttachment → AttachmentState
initial_attachment a = record {
  kind = a.kind;
  path = a.path;
  filename = a.filename;
  size_bytes = a.size_bytes;
  sha256 = a.sha256;
  part_sha256s = a.part_sha256s;
  content_type = a.content_type;
  attachment_id = none;
  file_id = none;
  upload_id = none;
  completed_parts = [];
  completed = false;
}

-- `initial_entry` of outbox.py
pub initial_entry : Text → Time → PreparedManifest → OutboxEntry
initial_entry origin now m = record {
  normalized_origin = origin;
  idempotency_key = m.idempotency_key;
  manifest_path = m.path;
  manifest_fingerprint = m.fingerprint;
  job_id = none;
  phase = create;
  attachments = map initial_attachment m.attachments;
  evidence = none;
  updated_at = record { time = now; aware = true };
}
