-- ===== src/Connector/Cli/Commands/Retry.antt =====
-- How `retry` ends before it asks the server.
use super_boss.Base.{
  ◌≡◌, ◌⊎◌, refl, ◌&&◌, inl, inr, true, false, none, some, [], ◌∷◌, ◌++◌, Bool-cases, if◌then◌else◌,
}
use super_boss.Base.Texts.{Text}
use super_boss.Core.Errors.{connector_error, outbox_invalid, file_changed}
use super_boss.Core.Exec.{Result, ok, err, is_ok}
use super_boss.Connector.Outbox.{OutboxEntry, EvidenceState, is_evidence}
use super_boss.Connector.Store.{
  OriginDir, load, delete, remove_file, load_replacement_marker, load_pair_completion_marker,
}
use super_boss.Connector.Manifest.{PreparedManifest}
use super_boss.Connector.Cli.{Tools, Answers, Run, result_line}
use super_boss.Connector.Cli.Unchanged.Verdict.{IsUnchanged, Contradicts, prepared_for_retry_lem}
use super_boss.Connector.Store.Loaded.{load-Held}
use super_boss.Connector.Cli.Commands.{
  Surroundings, retry, resumed, replayed, reject_pending_initial_pair, recover_replacement,
  print_result_and_delete,
}

module _ (tools : Tools) (origin : Text) (around : Surroundings) (answers : Answers) where
  -- a directory without markers, with the document of one entry
  unfoldable pub Waiting : Text → OutboxEntry → OriginDir → Type 0
  Waiting name entry dir =
      (dir.replacement ≡ none)
      × (dir.completion ≡ none)
      × (load tools.store origin dir ≡ ok (name, entry))

  -- the run after the document was deleted
  abbrev pub deleted : Text → Run → Run
  deleted name r = record r {
    dir = record r.dir { documents = remove_file tools.store name r.dir.documents };
  }

  retry-Waiting :
      (again : Result PreparedManifest) (name : Text) (entry : OutboxEntry) (r : Run)
      → Waiting name entry r.dir
      → retry tools origin around answers again r
        ≡ (if is_evidence entry.phase
              then replayed tools origin around answers name entry.evidence
              else resumed tools origin around answers again name entry)
            r
  unfolding retry Waiting reject_pending_initial_pair recover_replacement load_replacement_marker
      load_pair_completion_marker
  retry-Waiting again name entry r (no_marker, no_pair, found) = simp (no_marker, no_pair, found)

  -- the run of `retry` after it printed the evidence and deleted the file
  abbrev pub reported : Text → EvidenceState → Run → Run
  reported name e r = record (deleted name r) {
    printed = r.printed ++ result_line e.job_id e.status e.result_code ∷ [];
  }

  -- what `retry` of an outbox with evidence comes to
  abbrev pub Replayed : Text → OutboxEntry → Run → Result (Unit {0}) × Run → Type 0
  Replayed name entry r done =
      (done.1.calls ≡ r.calls)
      × (is_ok done.0 ≡ (around.prints && around.writes))
      × (e : EvidenceState) × (entry.evidence ≡ some e)
      × ((done ≡ (ok tt, reported name e r)) ⊎ ((is_ok done.0 ≡ false) × (done.1.dir ≡ r.dir)))

  -- Where the outbox holds an entry in the phase of its evidence and no marker, `retry` makes no call,
  -- and it succeeds exactly when the terminal and the file system do. The entry has evidence; either
  -- that is printed and the file is deleted, or `retry` fails and the directory is as it was.
  pub retry-evidence :
      (again : Result PreparedManifest) (name : Text) (entry : OutboxEntry) (r : Run)
      → Waiting name entry r.dir
      → is_evidence entry.phase ≡ true
      → Replayed name entry r (retry tools origin around answers again r)
  unfolding print_result_and_delete delete Waiting
  retry-evidence again name entry r waiting phase =
      let (there, proven) = load-Held tools.store origin name entry r.dir waiting.2 in
      let (e, proof) = proven phase in
      rw (retry-Waiting again name entry r waiting, phase, proof)
        (elim (Bool-cases around.prints) [
          | inr b ↦ rw b (refl, refl, e, refl, inr (refl, refl))
          | inl b ↦ elim (Bool-cases around.writes) [
            | inr c ↦ rw (b, c) (refl, refl, e, refl, inr (refl, refl))
            | inl c ↦ rw (b, c, there) (refl, refl, e, refl, inl refl)
          ]
        ])

  -- what `retry` of a changed manifest comes to
  abbrev pub Refused :
      Result PreparedManifest → Text → OutboxEntry → Run → Result (Unit {0}) × Run → Type 0
  Refused again name entry r done =
      ((around.writes ≡ true) × (done ≡ (err (connector_error 4 file_changed), deleted name r)))
      ⊎ ((done ≡ (err (connector_error 2 outbox_invalid), r))
          × ((around.writes ≡ false)
              ⊎ ((m : PreparedManifest) × (again ≡ ok m)
                  × Contradicts m.attachments entry.attachments)))

  -- Where the outbox holds an operation without evidence and no marker, either the manifest is
  -- prepared again and has the stored key, fingerprint and attachments, field by field, or `retry`
  -- makes no call and fails: with the exit code 4 and the file deleted; or with the exit code 2 and
  -- nothing changed, and then the file system fails, or an attachment has the stored digest but other
  -- digests of its parts.
  pub retry-changed :
      (again : Result PreparedManifest) (name : Text) (entry : OutboxEntry) (r : Run)
      → Waiting name entry r.dir
      → is_evidence entry.phase ≡ false
      → ((m : PreparedManifest) × (again ≡ ok m) × IsUnchanged m entry)
        ⊎ Refused again name entry r (retry tools origin around answers again r)
  unfolding delete Waiting
  retry-changed again name entry r waiting phase =
      let (there, proven) = load-Held tools.store origin name entry r.dir waiting.2 in
      elim (prepared_for_retry_lem entry again) [
        | inl same ↦ inl same
        | inr (inl e) ↦ inr (
            rw (retry-Waiting again name entry r waiting, phase, e)
              (elim (Bool-cases around.writes) [
                | inl w ↦ rw (w, there) (inl (refl, refl))
                | inr w ↦ rw w (inr (refl, inl refl))
              ]))
        | inr (inr (e, m, now, bad)) ↦ inr (
            rw (retry-Waiting again name entry r waiting, phase, e) (inr (refl, inr (m, now, bad))))
      ]
