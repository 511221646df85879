-- ===== src/Connector/Outbox/Revalidation.antt =====
-- A document that passed the validation passes it again, unchanged.
use super_boss.Base.{
  ℕ, suc, ◌≡◌, refl, sym, ap, ◌∙◌, inl, inr, Bool, true, some, List, [], ◌∷◌, map, arith, ◌&&◌, leb,
  Bool-cases, Option-cases,
}
use super_boss.Base.Lists.{length, any, all}
use super_boss.Base.Options.{each, each-map, each-again}
use super_boss.Base.Strip.{strip, strip-strip, length-strip-le}
use super_boss.Connector.Checks.{has_length, is_plain}
use super_boss.Connector.Outbox.{
  CompletedPart, AttachmentState, OutboxEntry, etag_max_chars, part_numbers, validated_part,
  with_parts, attachment_fields, consistent_progress, validated_attachment, with_attachments,
  entry_fields, consistent_phase, validated_entry, lacks_id, has_progress,
}

any-map : {A : Type 0} (p : A → Bool) (xs : List A) → any p xs ≡ any (λ (b : Bool). b) (map p xs)
any-map p [] = refl
any-map p (x ∷ xs) = rw (any-map p xs) refl

all-map : {A : Type 0} (p : A → Bool) (xs : List A) → all p xs ≡ all (λ (b : Bool). b) (map p xs)
all-map p [] = refl
all-map p (x ∷ xs) = rw (all-map p xs) refl

length-map : {A B : Type 0} (f : A → B) (xs : List A) → length (map f xs) ≡ length xs
length-map f [] = refl
length-map f (x ∷ xs) = ap suc (length-map f xs)

module _ (is_space : ℕ → Bool) where
  part_good : CompletedPart → Bool
  part_good part =
      leb 1 part.part_number
      && (leb part.part_number 10000
          && (has_length 1 etag_max_chars part.etag
              && (leb 1 (length (strip is_space part.etag))
                  && is_plain (strip is_space part.etag))))

  revalidated_part :
      (p q : CompletedPart)
      → validated_part is_space p ≡ some q
      → (q.part_number ≡ p.part_number) × (validated_part is_space q ≡ some q)
  unfolding validated_part part_good
  revalidated_part p q e = elim (Bool-cases (part_good p)) [
    | inr b ↦ absurd (cc (rw b at e))
    | inl b ↦
        let it : record p { etag = strip is_space p.etag } ≡ q = cc (rw b at e) in
        rw⁻¹ it (
          refl,
          rw (strip-strip is_space p.etag) (ground (arith, b, length-strip-le is_space p.etag)),
        )
  ]

  Passed : AttachmentState → AttachmentState → Type 0
  Passed a b =
      (parts : List CompletedPart) × (each (validated_part is_space) a.completed_parts ≡ some parts)
      × ((attachment_fields a && consistent_progress a) ≡ true)
      × (b ≡ record a { completed_parts = parts })

  passed : (a b : AttachmentState) → validated_attachment is_space a ≡ some b → Passed a b
  unfolding validated_attachment Passed
  passed a b e = elim (Option-cases (each (validated_part is_space) a.completed_parts)) [
    | inl x ↦ absurd (cc (rw x at e))
    | inr (parts, x) ↦ elim (Bool-cases (attachment_fields a && consistent_progress a)) [
      | inr y ↦ absurd (cc (rw (x, y) at e))
      | inl y ↦ (parts, x, y, cc (rw (x, y) at e))
    ]
  ]

  same_numbers :
      (xs ys : List CompletedPart)
      → each (validated_part is_space) xs ≡ some ys
      → part_numbers ys ≡ part_numbers xs
  same_numbers =
      each-map (validated_part is_space) (λ p. p.part_number) (λ p. p.part_number)
        (λ p q e. (revalidated_part p q e).0)

  with_same_parts :
      (a : AttachmentState) (parts : List CompletedPart)
      → part_numbers parts ≡ part_numbers a.completed_parts
      → (attachment_fields a && consistent_progress a) ≡ true
      → with_parts is_space (record a { completed_parts = parts }) (some parts)
        ≡ some (record a { completed_parts = parts })
  with_same_parts a parts same y = rw (same, y) refl

  revalidated_attachment :
      (a b : AttachmentState)
      → validated_attachment is_space a ≡ some b
      → validated_attachment is_space b ≡ some b
  unfolding validated_attachment Passed
  revalidated_attachment a b e =
      let (parts, x, y, z) = passed a b e in
      let again =
        each-again (validated_part is_space) (λ p q h. (revalidated_part p q h).1) a.completed_parts
          parts x in
      let same = same_numbers a.completed_parts parts x in
      rw (z, again) (with_same_parts a parts same y)

  same_id :
      (a b : AttachmentState) → validated_attachment is_space a ≡ some b → lacks_id b ≡ lacks_id a
  unfolding Passed
  same_id a b e = let (parts, x, y, z) = passed a b e in rw z refl

  same_kind : (a b : AttachmentState) → validated_attachment is_space a ≡ some b → b.kind ≡ a.kind
  unfolding Passed
  same_kind a b e = let (parts, x, y, z) = passed a b e in rw z refl

  same_completed :
      (a b : AttachmentState) → validated_attachment is_space a ≡ some b → b.completed ≡ a.completed
  unfolding Passed
  same_completed a b e = let (parts, x, y, z) = passed a b e in rw z refl

  same_progress :
      (a b : AttachmentState)
      → validated_attachment is_space a ≡ some b
      → has_progress b ≡ has_progress a
  unfolding Passed
  same_progress a b e =
      let (parts, x, y, z) = passed a b e in
      let same =
        sym (length-map (λ (p : CompletedPart). p.part_number) parts)
        ∙ ap length (same_numbers a.completed_parts parts x)
        ∙ length-map (λ (p : CompletedPart). p.part_number) a.completed_parts in
      rw (z, same) refl

  module _ (h : AttachmentState → Bool)
      (same : (a b : AttachmentState) → validated_attachment is_space a ≡ some b → h b ≡ h a) where
    same_any :
        (xs ys : List AttachmentState)
        → each (validated_attachment is_space) xs ≡ some ys
        → any h ys ≡ any h xs
    same_any xs ys e =
        any-map h ys
        ∙ ap (any (λ (b : Bool). b)) (each-map (validated_attachment is_space) h h same xs ys e)
        ∙ sym (any-map h xs)

    same_all :
        (xs ys : List AttachmentState)
        → each (validated_attachment is_space) xs ≡ some ys
        → all h ys ≡ all h xs
    same_all xs ys e =
        all-map h ys
        ∙ ap (all (λ (b : Bool). b)) (each-map (validated_attachment is_space) h h same xs ys e)
        ∙ sym (all-map h xs)

  same_kinds :
      (xs ys : List AttachmentState)
      → each (validated_attachment is_space) xs ≡ some ys
      → map (λ (a : AttachmentState). a.kind) ys ≡ map (λ (a : AttachmentState). a.kind) xs
  same_kinds = each-map (validated_attachment is_space) (λ a. a.kind) (λ a. a.kind) same_kind

  same_length :
      (xs ys : List AttachmentState)
      → each (validated_attachment is_space) xs ≡ some ys
      → length ys ≡ length xs
  same_length xs ys e =
      sym (length-map (λ (a : AttachmentState). a.kind) ys)
      ∙ ap length (same_kinds xs ys e)
      ∙ length-map (λ (a : AttachmentState). a.kind) xs

  with_same_attachments :
      (e : OutboxEntry) (xs : List AttachmentState)
      → each (validated_attachment is_space) e.attachments ≡ some xs
      → (entry_fields e && consistent_phase e) ≡ true
      → with_attachments is_space (record e { attachments = xs }) (some xs)
        ≡ some (record e { attachments = xs })
  unfolding consistent_phase
  with_same_attachments e xs x y = simp (
    same_kinds e.attachments xs x,
    same_length e.attachments xs x,
    same_any lacks_id same_id e.attachments xs x,
    same_all lacks_id same_id e.attachments xs x,
    same_any has_progress same_progress e.attachments xs x,
    same_all (λ a. a.completed) same_completed e.attachments xs x,
    y,
  )

  -- An entry that the validation returns passes it again, unchanged.
  pub revalidated_entry :
      (e v : OutboxEntry)
      → validated_entry is_space e ≡ some v
      → validated_entry is_space v ≡ some v
  unfolding validated_entry
  revalidated_entry e v h =
      elim (Option-cases (each (validated_attachment is_space) e.attachments)) [
        | inl x ↦ absurd (cc (rw x at h))
        | inr (xs, x) ↦ elim (Bool-cases (entry_fields e && consistent_phase e)) [
          | inr y ↦ absurd (cc (rw (x, y) at h))
          | inl y ↦
              let z : v ≡ record e { attachments = xs } = cc (rw (x, y) at h) in
              let again =
                each-again (validated_attachment is_space) revalidated_attachment e.attachments xs
                  x in
              rw (z, again) (with_same_attachments e xs x y)
        ]
      ]

  -- The validation keeps the origin and the key of an entry.
  pub validated_keeps :
      (e v : OutboxEntry)
      → validated_entry is_space e ≡ some v
      → (v.normalized_origin ≡ e.normalized_origin) × (v.idempotency_key ≡ e.idempotency_key)
  unfolding validated_entry
  validated_keeps e v h = elim (Option-cases (each (validated_attachment is_space) e.attachments)) [
    | inl x ↦ absurd (cc (rw x at h))
    | inr (xs, x) ↦ elim (Bool-cases (entry_fields e && consistent_phase e)) [
      | inr y ↦ absurd (cc (rw (x, y) at h))
      | inl y ↦ let z : v ≡ record e { attachments = xs } = cc (rw (x, y) at h) in rw z (refl, refl)
    ]
  ]
