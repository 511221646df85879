-- ===== src/Connector/Store/Loaded.antt =====
-- What a successful `load` says of the directory and of the entry.
use super_boss.Base.{
  ◌≡◌, ap, ◌∙◌, refl, inl, inr, true, Option, none, some, List, [], ◌∷◌, Option-cases,
}
use super_boss.Base.Texts.{Text, text_eq_refl}
use super_boss.Core.Exec.{ok, Result-cases, ok-injective}
use super_boss.Connector.Outbox.{OutboxEntry, EvidenceState, is_evidence}
use super_boss.Connector.Outbox.Evidence.{validated-evidence}
use super_boss.Connector.Store.{
  StoreTools, OriginDir, Document, load, load_optional, all_documents, has_file, parsed, read_file,
  sole_of,
}
use super_boss.Connector.Store.Recovery.{sole_one, two_documents}

module _ (tools : StoreTools) (origin : Text) (name : Text) (entry : OutboxEntry) where
  -- the file is there, and an entry in the phase of its evidence holds it
  abbrev pub Held : List Document → Type 0
  Held ds =
      (has_file tools name ds ≡ true)
      × (is_evidence entry.phase ≡ true → (s : EvidenceState) × (entry.evidence ≡ some s))

  parsed-evidence :
      (o : Option Text)
      → parsed tools o ≡ some entry
      → is_evidence entry.phase ≡ true
      → (s : EvidenceState) × (entry.evidence ≡ some s)
  parsed-evidence none h phase = absurd cc
  parsed-evidence (some bytes) h phase = elim (Option-cases (tools.parse_entry bytes)) [
    | inl e ↦ absurd (cc (rw e at h))
    | inr (x, e) ↦ validated-evidence tools.is_space x entry (rw e at h) phase
  ]

  document-Held :
      (ds : List Document)
      → sole_of tools origin (all_documents tools ds) ≡ ok (some (name, entry))
      → Held ds
  unfolding all_documents
  document-Held [] h = absurd cc
  document-Held (c ∷ d ∷ rest) h =
      absurd (two_documents tools origin c d rest (some (name, entry)) h)
  document-Held (d ∷ []) h = elim (Option-cases (parsed tools (read_file d.content))) [
    | inl a ↦ absurd (cc (rw a at h))
    | inr (x, a) ↦
        let same = sole_one tools origin d.name x (some (name, entry)) (rw a at h) in
        let named : name ≡ d.name = cc in
        let it : x ≡ entry = cc in
        (
          rw (named, text_eq_refl d.name) refl,
          parsed-evidence (read_file d.content) (a ∙ ap some it),
        )
  ]

  pub load-Held : (dir : OriginDir) → load tools origin dir ≡ ok (name, entry) → Held dir.documents
  unfolding load load_optional
  load-Held dir h = elim (Result-cases (load_optional tools origin dir)) [
    | inr (x, e) ↦ absurd (cc (rw e at h))
    | inl (none, e) ↦ absurd (cc (rw e at h))
    | inl (some p, e) ↦
        let same : p ≡ (name, entry) = ok-injective _ _ (rw e at h) in
        document-Held dir.documents (rw e (rw same refl))
  ]
