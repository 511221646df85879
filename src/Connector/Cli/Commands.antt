-- ===== src/Connector/Cli/Commands.antt =====
-- cli.py: the commands pair, submit, retry and status, under the lock of the origin.
pub mod Retry
use super_boss.Base.{
  ℕ, Bool, true, false, Option, none, some, List, [], ◌∷◌, ◌++◌, map, not, ◌&&◌, ◌||◌, ◌==◌, ltb,
  leb, is_some, opt_eq, Uuid, Digest, Time, if◌then◌else◌,
}
use super_boss.Base.Lists.{length, any}
use super_boss.Base.Texts.{Text, text_eq}
use super_boss.Core.Errors.{
  Error, connector_error, outbox_invalid, outbox_conflict, pair_incomplete, pair_temporary_failure,
  credential_error, file_changed,
}
use super_boss.Core.Exec.{
  Exec, Result, ok, err, pure, raise, lift, or_raise, modify, raise_if, ◌>>=◌, ◌>>◌,
}
use super_boss.Connector.Checks.{kind_eq}
use super_boss.Connector.Outbox.{
  Phase, JobStatus, AttachmentState, EvidenceState, OutboxEntry, is_evidence,
}
use super_boss.Connector.Store.{
  CredentialState, present, missing, ReplacementMarker, PairCompletionMarker, OriginDir,
  load_optional, load, ensure_available, path_for, save, delete, has_file, save_replacement_marker,
  load_replacement_marker, delete_replacement_marker, save_pair_completion_marker,
  load_pair_completion_marker, delete_pair_completion_marker,
}
use super_boss.Connector.Manifest.{PreparedManifest, PreparedAttachment}
use super_boss.Connector.Manifest.Prepare.{initial_entry}
use super_boss.Connector.Client.{Reply, TokenResponse, JobResponse, SubmitResponse}
use super_boss.Connector.Client.Calls.{token, status}
use super_boss.Connector.Cli.Unchanged.{prepared_for_retry}
use super_boss.Connector.Cli.{
  Tools, Answers, Run, Line, result_line, device_paired, replacement_reported, pair_call,
  refresh_call, status_call, log, stored, invalid_state, resume,
}

-- what the keyring, the terminal, the clock and the server answer to one command
pub record Surroundings : Type 0 where
  pub reads_keyring : Bool
  pub writes_keyring : Bool
  pub prints : Bool
  pub writes : Bool
  pub now : Time
  pub tokens : Option Reply
  pub job : Option Reply

-- `_credential_was_replaced`, of the fingerprint of the credential
abbrev pub credential_was_replaced : CredentialState → Option Digest → Option Digest → Bool
credential_was_replaced missing old current = is_some current
credential_was_replaced present old none = false
credential_was_replaced present old (some digest) = not (opt_eq (some digest) old)

-- `error.exit_code == 4`
abbrev pub is_file_change : Error → Bool
is_file_change (connector_error exit_code message) = exit_code == 4
is_file_change e = false

-- `except ConnectorError as error: if error.exit_code == 6`
abbrev temporary : Error → Error
temporary (connector_error exit_code message) =
    if exit_code == 6
    then connector_error 6 pair_temporary_failure
    else connector_error exit_code message
temporary e = e

abbrev renamed : {A : Type 0} → Result A × Run → Result A × Run
renamed (ok a, r) = (ok a, r)
renamed (err e, r) = (err (temporary e), r)

module _ (tools : Tools) (origin : Text) (around : Surroundings) where
  abbrev echo : Line → Exec Run (Unit {0})
  echo line =
      raise_if (not around.prints) (connector_error 2 outbox_invalid)
      >> modify (λ r. record r { printed = r.printed ++ line ∷ [] })

  -- `load_refresh_optional`; an empty value is no credential
  abbrev non_empty : Option Text → Option Text
  non_empty none = none
  non_empty (some []) = none
  non_empty (some (c ∷ rest)) = some (c ∷ rest)

  abbrev load_refresh_optional : Exec Run (Option Text)
  load_refresh_optional r =
      if around.reads_keyring
      then (ok (non_empty r.credential), r)
      else (err (connector_error 3 credential_error), r)

  abbrev save_refresh : Text → Exec Run (Unit {0})
  save_refresh value =
      raise_if (not around.writes_keyring) (connector_error 3 credential_error)
      >> modify (λ r. record r { credential = some value })

  abbrev refresh_fingerprint : Option Text → Option Digest
  refresh_fingerprint none = none
  refresh_fingerprint (some value) = some (tools.refresh_digest value)

  -- `ApiClient.refresh`, to the access token
  pub refresh : Exec Run Text
  refresh = do
    current ← load_refresh_optional
    _ ← or_raise current (connector_error 3 credential_error)
    log refresh_call
    t ← lift (token tools.client around.tokens)
    save_refresh t.refresh_token
    pure t.access_token

  -- `ApiClient.pair`
  pub pair_device : Exec Run (Unit {0})
  pair_device = do
    log pair_call
    t ← lift (token tools.client around.tokens)
    save_refresh t.refresh_token

  abbrev delete_if : Bool → Text → Exec Run (Unit {0})
  delete_if false name = pure tt
  delete_if true name = stored (delete tools.store around.writes name)

  abbrev recovered : (retain replaced : Bool) → Exec Run Bool
  recovered true true = pure true
  recovered retain replaced =
      stored (delete_replacement_marker tools.store around.writes) >> pure replaced

  abbrev recover_marker : (retain : Bool) → Option ReplacementMarker → Exec Run Bool
  recover_marker retain none = pure false
  recover_marker retain (some m) = do
    current ← load_refresh_optional
    let replaced =
        credential_was_replaced m.old_credential_state m.old_refresh_sha256
          (refresh_fingerprint current)
    _ ← (λ r.
        delete_if (replaced && has_file tools.store m.old_outbox_filename r.dir.documents)
          m.old_outbox_filename r)
    recovered retain replaced

  -- `_recover_replacement`
  pub recover_replacement : (retain_completed_marker : Bool) → Exec Run Bool
  recover_replacement retain r =
      ((λ s. (load_replacement_marker tools.store origin s.dir, s)) >>= recover_marker retain) r

  abbrev completed : Bool → Exec Run Bool
  completed true = pure true
  completed false = stored (delete_pair_completion_marker tools.store around.writes) >> pure false

  abbrev recover_completion : Option PairCompletionMarker → Exec Run Bool
  recover_completion none = pure false
  recover_completion (some m) = do
    current ← load_refresh_optional
    completed (
        credential_was_replaced m.old_credential_state m.old_refresh_sha256
          (refresh_fingerprint current))

  -- `_recover_initial_pair`
  pub recover_initial_pair : Exec Run Bool
  recover_initial_pair r =
      ((λ s. (load_pair_completion_marker tools.store origin s.dir, s)) >>= recover_completion) r

  abbrev reject_marker : Option PairCompletionMarker → Exec Run (Unit {0})
  reject_marker none = pure tt
  reject_marker (some m) = raise (connector_error 2 pair_incomplete)

  -- `_reject_pending_initial_pair`
  pub reject_pending_initial_pair : Exec Run (Unit {0})
  reject_pending_initial_pair r =
      ((λ s. (load_pair_completion_marker tools.store origin s.dir, s)) >>= reject_marker) r

  -- `_print_result_and_delete`
  pub print_result_and_delete :
      (job_id : Uuid) → JobStatus → Option Text → (name : Text) → Exec Run (Unit {0})
  print_result_and_delete job_id status result_code name =
      echo (result_line job_id status result_code) >> stored (delete tools.store around.writes name)

  -- `_discard_on_file_change`, then `raise`
  abbrev discard : Text → Error → Exec Run SubmitResponse
  discard name e = delete_if (is_file_change e) name >> raise e

  abbrev caught : Text → Result SubmitResponse × Run → Result SubmitResponse × Run
  caught name (ok a, r) = (ok a, r)
  caught name (err e, r) = discard name e r

  -- `except ConnectorError as error`
  abbrev discarding : Text → Exec Run SubmitResponse → Exec Run SubmitResponse
  discarding name m r = caught name (m r)

  -- `pair`, with the marker of a replacement or of a first pairing around the call
  abbrev marked : Option (Text × OutboxEntry) → Option Digest → Exec Run (Unit {0})
  marked none old = stored (save_pair_completion_marker tools.store origin around.writes old)
  marked (some (name, e)) old =
      stored (save_replacement_marker tools.store origin around.writes old name)

  abbrev paired : Option (Text × OutboxEntry) → Exec Run (Unit {0})
  paired none =
      echo device_paired >> stored (delete_pair_completion_marker tools.store around.writes)
  paired (some (name, e)) = do
    _ ← stored (delete tools.store around.writes name)
    echo replacement_reported
    stored (delete_replacement_marker tools.store around.writes)

  abbrev is_proven : Option (Text × OutboxEntry) → Bool
  is_proven none = false
  is_proven (some (name, e)) = is_evidence e.phase

  abbrev pair_now : Exec Run (Unit {0})
  pair_now = do
    existing ← (λ r. (load_optional tools.store origin r.dir, r))
    raise_if (is_proven existing) (connector_error 2 outbox_conflict)
    old ← load_refresh_optional
    _ ← marked existing (refresh_fingerprint old)
    _ ← (λ r. renamed (pair_device r))
    paired existing

  abbrev pair_unless : Bool → Exec Run (Unit {0})
  pair_unless true =
      echo device_paired >> stored (delete_pair_completion_marker tools.store around.writes)
  pair_unless false = pair_now

  abbrev pair_unless_replaced : Bool → Exec Run (Unit {0})
  pair_unless_replaced true =
      echo replacement_reported >> stored (delete_replacement_marker tools.store around.writes)
  pair_unless_replaced false = recover_initial_pair >>= pair_unless

  pub pair : Exec Run (Unit {0})
  pair = recover_replacement true >>= pair_unless_replaced

  module _ (answers : Answers) where
    abbrev submitted : Text → PreparedManifest → OutboxEntry → Exec Run SubmitResponse
    submitted name m entry = refresh >> resume tools answers name m entry

    -- `submit`, of the manifest that `prepare_manifest` gave
    pub submit : PreparedManifest → Exec Run (Unit {0})
    submit m = do
      reject_pending_initial_pair
      _ ← recover_replacement false
      _ ← (λ r. (ensure_available tools.store origin r.dir, r))
      let entry = initial_entry origin around.now m
      let name = path_for tools.store m.idempotency_key
      _ ← stored (save tools.store around.writes around.now name entry)
      result ← discarding name (submitted name m entry)
      print_result_and_delete result.id result.status result.result_code name

    abbrev replayed : Text → Option EvidenceState → Exec Run (Unit {0})
    replayed name none = invalid_state
    replayed name (some e) = print_result_and_delete e.job_id e.status e.result_code name

    abbrev resumed : (again : Result PreparedManifest) → Text → OutboxEntry → Exec Run (Unit {0})
    resumed again name entry = do
      result ←
          discarding name (lift (prepared_for_retry entry again) >>= λ m. submitted name m entry)
      print_result_and_delete result.id result.status result.result_code name

    -- `retry`; `again` is what `prepare_manifest` gives for the path of the entry.
    unfoldable pub retry : (again : Result PreparedManifest) → Exec Run (Unit {0})
    retry again = do
      reject_pending_initial_pair
      _ ← recover_replacement false
      (name, entry) ← (λ r. (load tools.store origin r.dir, r))
      (if is_evidence entry.phase then replayed name entry.evidence else resumed again name entry)

  -- `status`
  pub read_status : Uuid → Exec Run (Unit {0})
  read_status job_id = do
    reject_pending_initial_pair
    _ ← recover_replacement false
    _ ← refresh
    log status_call
    r ← lift (status tools.client job_id around.job)
    echo (result_line r.id r.status r.result_code)
