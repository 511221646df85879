-- ===== src/Connector/Cli/Unchanged.antt =====
-- cli.py: whether the manifest and the files of an unfinished operation are still the same.
pub mod Verdict
use super_boss.Base.{Bool, true, false, List, [], ◌∷◌, not, ◌&&◌, ◌==◌, if◌then◌else◌}
use super_boss.Base.Lists.{length}
use super_boss.Base.Texts.{Text, text_eq}
use super_boss.Core.Errors.{connector_error, outbox_invalid, file_changed}
use super_boss.Core.Exec.{Result, ok, err}
use super_boss.Connector.Checks.{kind_eq}
use super_boss.Connector.Outbox.{AttachmentState, OutboxEntry}
use super_boss.Connector.Manifest.{PreparedManifest, PreparedAttachment}

abbrev texts_eq : List Text → List Text → Bool
texts_eq [] [] = true
texts_eq (s ∷ ss) (t ∷ ts) = text_eq s t && texts_eq ss ts
texts_eq _ _ = false

-- one turn of the comparison with the stored attachments
abbrev unchanged : PreparedAttachment → AttachmentState → Result (Unit {0}) → Result (Unit {0})
unchanged p s rest =
    if text_eq p.sha256 s.sha256 && not (texts_eq p.part_sha256s s.part_sha256s)
    then err (connector_error 2 outbox_invalid)
    else if not (
        kind_eq p.kind s.kind
        && (text_eq p.path s.path
            && (text_eq p.filename s.filename
                && (p.size_bytes == s.size_bytes
                    && (text_eq p.sha256 s.sha256
                        && (texts_eq p.part_sha256s s.part_sha256s
                            && text_eq p.content_type s.content_type))))))
    then err (connector_error 4 file_changed)
    else rest

abbrev all_unchanged : List PreparedAttachment → List AttachmentState → Result (Unit {0})
all_unchanged (p ∷ ps) (s ∷ ss) = unchanged p s (all_unchanged ps ss)
all_unchanged _ _ = ok tt

abbrev then_manifest : PreparedManifest → Result (Unit {0}) → Result PreparedManifest
then_manifest m (err e) = err e
then_manifest m (ok u) = ok m

-- `_prepared_for_retry`, of what `prepare_manifest` gives now
unfoldable pub prepared_for_retry : OutboxEntry → Result PreparedManifest → Result PreparedManifest
prepared_for_retry entry (err e) = err (connector_error 4 file_changed)
prepared_for_retry entry (ok m) =
    if not (
      text_eq m.idempotency_key entry.idempotency_key
      && (text_eq m.fingerprint entry.manifest_fingerprint
          && length m.attachments == length entry.attachments))
    then err (connector_error 4 file_changed)
    else then_manifest m (all_unchanged m.attachments entry.attachments)
