-- ===== src/Connector/Cli/Unchanged/Verdict.antt =====
-- What `_prepared_for_retry` accepts, and how it refuses the rest.
use super_boss.Base.{
  ◌≡◌, ◌≢◌, ◌⊎◌, refl, inl, inr, true, List, [], ◌∷◌, arith, ◌&&◌, ◌==◌, not, Bool-cases,
  &&-eq-true, ==_iff,
}
use super_boss.Base.Lists.{length}
use super_boss.Base.Texts.{Text, text_eq, text_eq-eq, text_eq_refl}
use super_boss.Core.Errors.{connector_error, outbox_invalid, file_changed}
use super_boss.Core.Exec.{Result, ok, err}
use super_boss.Connector.Checks.{AttachmentKind, kind_eq}
use super_boss.Connector.Outbox.{AttachmentState, OutboxEntry}
use super_boss.Connector.Manifest.{PreparedManifest, PreparedAttachment}
use super_boss.Connector.Cli.Unchanged.{texts_eq, all_unchanged, prepared_for_retry}

-- one attachment as it is prepared now and as it is stored
pub record IsSame (p : PreparedAttachment) (s : AttachmentState) : Type 0 where
  pub kind : p.kind ≡ s.kind
  pub path : p.path ≡ s.path
  pub filename : p.filename ≡ s.filename
  pub size_bytes : p.size_bytes ≡ s.size_bytes
  pub sha256 : p.sha256 ≡ s.sha256
  pub part_sha256s : p.part_sha256s ≡ s.part_sha256s
  pub content_type : p.content_type ≡ s.content_type

abbrev pub AreSame : List PreparedAttachment → List AttachmentState → Type 0
AreSame [] [] = Unit {0}
AreSame (p ∷ ps) (s ∷ ss) = IsSame p s × AreSame ps ss
AreSame [] (s ∷ ss) = ⊥
AreSame (p ∷ ps) [] = ⊥

-- an attachment with the stored digest of its bytes, and other digests of its parts
abbrev pub Contradicts : List PreparedAttachment → List AttachmentState → Type 0
Contradicts (p ∷ ps) (s ∷ ss) =
    ((p.sha256 ≡ s.sha256) × (p.part_sha256s ≢ s.part_sha256s)) ⊎ Contradicts ps ss
Contradicts [] ss = ⊥
Contradicts (p ∷ ps) [] = ⊥

kind_eq-eq : (a b : AttachmentKind) → kind_eq a b ≡ true → a ≡ b
kind_eq-eq AttachmentKind.original AttachmentKind.original e = refl
kind_eq-eq AttachmentKind.revised AttachmentKind.revised e = refl
kind_eq-eq AttachmentKind.k3_raw AttachmentKind.k3_raw e = refl
kind_eq-eq AttachmentKind.original AttachmentKind.revised e = cc
kind_eq-eq AttachmentKind.original AttachmentKind.k3_raw e = cc
kind_eq-eq AttachmentKind.revised AttachmentKind.original e = cc
kind_eq-eq AttachmentKind.revised AttachmentKind.k3_raw e = cc
kind_eq-eq AttachmentKind.k3_raw AttachmentKind.original e = cc
kind_eq-eq AttachmentKind.k3_raw AttachmentKind.revised e = cc

texts_eq-eq : (s t : List Text) → texts_eq s t ≡ true → s ≡ t
texts_eq-eq [] [] e = refl
texts_eq-eq [] (t ∷ ts) e = cc
texts_eq-eq (s ∷ ss) [] e = cc
texts_eq-eq (s ∷ ss) (t ∷ ts) e =
    let (a, b) = &&-eq-true (text_eq s t) (texts_eq ss ts) e in
    let p = text_eq-eq s t a in let q = texts_eq-eq ss ts b in cc

texts_eq_refl : (s : List Text) → texts_eq s s ≡ true
texts_eq_refl [] = refl
texts_eq_refl (s ∷ ss) = rw (text_eq_refl s) (texts_eq_refl ss)

fields-IsSame :
    (p : PreparedAttachment) (s : AttachmentState)
    → (kind_eq p.kind s.kind
        && (text_eq p.path s.path
            && (text_eq p.filename s.filename
                && (p.size_bytes == s.size_bytes
                    && (text_eq p.sha256 s.sha256
                        && (texts_eq p.part_sha256s s.part_sha256s
                            && text_eq p.content_type s.content_type))))))
      ≡ true
    → IsSame p s
fields-IsSame p s h =
    let (h1, t1) = &&-eq-true (kind_eq p.kind s.kind) _ h in
    let (h2, t2) = &&-eq-true (text_eq p.path s.path) _ t1 in
    let (h3, t3) = &&-eq-true (text_eq p.filename s.filename) _ t2 in
    let (h4, t4) = &&-eq-true (p.size_bytes == s.size_bytes) _ t3 in
    let (h5, t5) = &&-eq-true (text_eq p.sha256 s.sha256) _ t4 in
    let (h6, t6) = &&-eq-true (texts_eq p.part_sha256s s.part_sha256s) _ t5 in
    record {
      kind = kind_eq-eq p.kind s.kind h1;
      path = text_eq-eq p.path s.path h2;
      filename = text_eq-eq p.filename s.filename h3;
      size_bytes = (==_iff p.size_bytes s.size_bytes).0 h4;
      sha256 = text_eq-eq p.sha256 s.sha256 h5;
      part_sha256s = texts_eq-eq p.part_sha256s s.part_sha256s h6;
      content_type = text_eq-eq p.content_type s.content_type t6;
    }

-- the three answers of the comparison
abbrev Compared : List PreparedAttachment → List AttachmentState → Result (Unit {0}) → Type 0
Compared ps ss r =
    ((r ≡ ok tt) × AreSame ps ss)
    ⊎ ((r ≡ err (connector_error 4 file_changed))
        ⊎ ((r ≡ err (connector_error 2 outbox_invalid)) × Contradicts ps ss))

contradiction :
    (p : PreparedAttachment) (s : AttachmentState)
    → (text_eq p.sha256 s.sha256 && not (texts_eq p.part_sha256s s.part_sha256s)) ≡ true
    → (p.sha256 ≡ s.sha256) × (p.part_sha256s ≢ s.part_sha256s)
contradiction p s h =
    let (a, b) = &&-eq-true (text_eq p.sha256 s.sha256) _ h in
    (text_eq-eq p.sha256 s.sha256 a, λ q. cc (rw (q, texts_eq_refl s.part_sha256s) at b))

compared :
    (ps : List PreparedAttachment) (ss : List AttachmentState)
    → (length ps == length ss) ≡ true
    → Compared ps ss (all_unchanged ps ss)
compared [] [] h = inl (refl, tt)
compared [] (s ∷ ss) h = absurd (ground (arith, h))
compared (p ∷ ps) [] h = absurd (ground (arith, h))
compared (p ∷ ps) (s ∷ ss) h =
    elim (Bool-cases (text_eq p.sha256 s.sha256 && not (texts_eq p.part_sha256s s.part_sha256s))) [
      | inl c ↦ inr (inr (rw c refl, inl (contradiction p s c)))
      | inr c ↦
          elim (Bool-cases (
            kind_eq p.kind s.kind
            && (text_eq p.path s.path
                && (text_eq p.filename s.filename
                    && (p.size_bytes == s.size_bytes
                        && (text_eq p.sha256 s.sha256
                            && (texts_eq p.part_sha256s s.part_sha256s
                                && text_eq p.content_type s.content_type))))))) [
                                  | inr d ↦ inr (inl (rw (c, d) refl))
                                  | inl d ↦ elim (compared ps ss (ground (arith, h))) [
                                    | inl (e, same) ↦ inl (rw (c, d) e, (fields-IsSame p s d, same))
                                    | inr (inl e) ↦ inr (inl (rw (c, d) e))
                                    | inr (inr (e, bad)) ↦ inr (inr (rw (c, d) e, inr bad))
                                  ]
                                ]
    ]

-- the manifest as it is prepared now is the one that the outbox stored
pub record IsUnchanged (m : PreparedManifest) (entry : OutboxEntry) : Type 0 where
  pub idempotency_key : m.idempotency_key ≡ entry.idempotency_key
  pub fingerprint : m.fingerprint ≡ entry.manifest_fingerprint
  pub attachments : AreSame m.attachments entry.attachments

abbrev pub Judged : OutboxEntry → Result PreparedManifest → Type 0
Judged entry again =
    ((m : PreparedManifest) × (again ≡ ok m) × IsUnchanged m entry)
    ⊎ ((prepared_for_retry entry again ≡ err (connector_error 4 file_changed))
        ⊎ ((prepared_for_retry entry again ≡ err (connector_error 2 outbox_invalid))
            × (m : PreparedManifest) × (again ≡ ok m)
            × Contradicts m.attachments entry.attachments))

pub prepared_for_retry_lem :
    (entry : OutboxEntry) (again : Result PreparedManifest) → Judged entry again
unfolding prepared_for_retry
prepared_for_retry_lem entry (err e) = inr (inl refl)
prepared_for_retry_lem entry (ok m) =
    elim (Bool-cases (
      text_eq m.idempotency_key entry.idempotency_key
      && (text_eq m.fingerprint entry.manifest_fingerprint
          && length m.attachments == length entry.attachments))) [
            | inr c ↦ inr (inl (rw c refl))
            | inl c ↦
                let (k, t) = &&-eq-true (text_eq m.idempotency_key entry.idempotency_key) _ c in
                let (f, n) = &&-eq-true (text_eq m.fingerprint entry.manifest_fingerprint) _ t in
                elim (compared m.attachments entry.attachments n) [
                  | inl (e, same) ↦ inl (
                    m,
                    refl,
                    record {
                      idempotency_key = text_eq-eq m.idempotency_key entry.idempotency_key k;
                      fingerprint = text_eq-eq m.fingerprint entry.manifest_fingerprint f;
                      attachments = same;
                    },
                  )
                  | inr (inl e) ↦ inr (inl (rw (c, e) refl))
                  | inr (inr (e, bad)) ↦ inr (inr (rw (c, e) refl, m, refl, bad))
                ]
          ]
