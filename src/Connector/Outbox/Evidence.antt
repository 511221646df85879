-- ===== src/Connector/Outbox/Evidence.antt =====
-- A document in the phase of its evidence holds that evidence.
use super_boss.Base.{
  ℕ, ◌≡◌, inl, inr, Bool, true, some, ◌&&◌, Bool-cases, Option-cases, &&-eq-true, map, not, is_some,
  if◌then◌else◌,
}
use super_boss.Base.Lists.{any, all}
use super_boss.Base.Options.{each}
use super_boss.Connector.Checks.{kind_eq, has_repeat}
use super_boss.Connector.Outbox.{
  OutboxEntry, AttachmentState, EvidenceState, is_evidence, is_create, is_uploaded, lacks_id,
  has_progress, proves, validated_attachment, entry_fields, consistent_phase, validated_entry,
}

shown :
    (e : OutboxEntry)
    → consistent_phase e ≡ true
    → is_evidence e.phase ≡ true
    → (s : EvidenceState) × (e.evidence ≡ some s)
unfolding consistent_phase
shown e c p = elim (Option-cases e.evidence) [
  | inr (s, h) ↦ (s, h)
  | inl h ↦
      let (a, t1) =
        &&-eq-true (not (has_repeat kind_eq (map (λ (a : AttachmentState). a.kind) e.attachments)))
          _ c in
      let (b, t2) =
        &&-eq-true
          (if is_create e.phase
            then not (is_some e.job_id)
              && (all lacks_id e.attachments && not (any has_progress e.attachments))
            else is_some e.job_id && not (any lacks_id e.attachments))
          _ t1 in
      let (d, t3) =
        &&-eq-true
          (if is_uploaded e.phase
            then all (λ (a : AttachmentState). a.completed) e.attachments
            else true)
          (if is_evidence e.phase then proves e.job_id e.evidence else not (is_some e.evidence))
          t2 in
      absurd (cc (rw (p, h) at t3))
]

pub validated-evidence :
    (is_space : ℕ → Bool) (e v : OutboxEntry)
    → validated_entry is_space e ≡ some v
    → is_evidence v.phase ≡ true
    → (s : EvidenceState) × (v.evidence ≡ some s)
unfolding validated_entry
validated-evidence is_space e v good phase =
    elim (Option-cases (each (validated_attachment is_space) e.attachments)) [
      | inl a ↦ absurd (cc (rw a at good))
      | inr (attachments, a) ↦ elim (Bool-cases (entry_fields e && consistent_phase e)) [
        | inr b ↦ absurd (cc (rw (a, b) at good))
        | inl b ↦
            let z : v ≡ record e { attachments = attachments } = cc (rw (a, b) at good) in
            let phase' : is_evidence e.phase ≡ true = rw z at phase in
            let (s, h) = shown e (&&-eq-true (entry_fields e) (consistent_phase e) b).1 phase' in
            (s, rw z h)
      ]
    ]
