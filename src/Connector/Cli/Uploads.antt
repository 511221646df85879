-- ===== src/Connector/Cli/Uploads.antt =====
-- An attachment that was uploaded has every part recorded.
use super_boss.Base.{
  ℕ, ◌-◌, ◌≡◌, refl, sym, ap, ◌∙◌, inl, inr, Bool, true, false, Option, none, some, List, [], ◌∷◌,
  ◌++◌, ◌||◌, ◌==◌, ltb, Bool-cases, arith,
}
use super_boss.Base.Lists.{any, All, contains}
use super_boss.Base.Texts.{Text}
use super_boss.Connector.Checks.{insert_by, sort_by, number_repeat}
use super_boss.Connector.Outbox.{
  CompletedPart, AttachmentState, OutboxEntry, part_numbers, total_parts,
}
use super_boss.Core.Errors.{connector_error, outbox_invalid}
use super_boss.Connector.Store.{save}
use super_boss.Connector.Manifest.Prepare.{verify_attachment}
use super_boss.Connector.Client.Calls.{put_part, complete_attachment}
use super_boss.Connector.Client.{AttachmentResponse}
use super_boss.Connector.Cli.Logs.{
  Outcome, Outcome-bind, Outcome-log, Outcome-lift, Outcome-pure, Outcome-stored, Outcome-map,
  Outcome-raise, Outcome-raise_if,
}
use super_boss.Connector.Cli.{
  Tools, Answers, Call, Run, add_part, part_key, begun, completed, pair_call, refresh_call,
  status_call, create_call, submit_call, complete_call, part_url_call, put_call, part, read_part,
  nth, numbers_from, upload_part, part_unless, upload_parts, complete_unless, identified,
  upload_attachment, expected_response,
}

module _ {A : Type 0} (key : A → ℕ) (q : A → Bool) where
  any-insert_by : (a : A) (xs : List A) → any q (insert_by key a xs) ≡ (q a || any q xs)
  any-insert_by a [] = refl
  any-insert_by a (b ∷ rest) = ground (arith, any-insert_by a rest)

  any-sort_by : (xs : List A) → any q (sort_by key xs) ≡ any q xs
  any-sort_by [] = refl
  any-sort_by (a ∷ rest) = rw (any-insert_by a (sort_by key rest), any-sort_by rest) refl

any-append :
    {A : Type 0} (q : A → Bool) (xs ys : List A) → any q (xs ++ ys) ≡ (any q xs || any q ys)
any-append q [] ys = refl
any-append q (x ∷ xs) ys = ground (arith, any-append q xs ys)

-- whether the part of a number is recorded
abbrev pub has_part : ℕ → List CompletedPart → Bool
has_part n = any (λ p. p.part_number == n)

or-false : (b : Bool) → (b || false) ≡ b
or-false true = refl
or-false false = refl

has_part-add_part :
    (n : ℕ) (p : CompletedPart) (parts : List CompletedPart)
    → has_part n (add_part p parts) ≡ (has_part n parts || p.part_number == n)
has_part-add_part n p parts =
    any-sort_by part_key (λ p. p.part_number == n) (parts ++ p ∷ [])
    ∙ any-append (λ p. p.part_number == n) parts (p ∷ [])
    ∙ ap (λ b. has_part n parts || b) (or-false (p.part_number == n))

-- a call that uploads a part does so for this attachment and this part
OnlyPart : AttachmentState → ℕ → Call → Type 0
OnlyPart a n (put_call kind m) = (kind ≡ a.kind) × (m ≡ n)
OnlyPart a n (part_url_call kind m) = (kind ≡ a.kind) × (m ≡ n)
OnlyPart a n _ = ⊥

WithPart : AttachmentState → ℕ → AttachmentState → Type 0
WithPart a n a' =
    (p : CompletedPart) × (p.part_number ≡ n)
    × (a' ≡ record a { completed_parts = add_part p a.completed_parts })

module _ (tools : Tools) (answers : Answers) (path : Text)
    (whole : AttachmentState → OutboxEntry) where
  upload_part-Outcome :
      (n : ℕ) (a : AttachmentState) (r : Run)
      → Outcome (OnlyPart a n) (WithPart a n) r (upload_part tools answers path whole n a r)
  unfolding upload_part OnlyPart WithPart
  upload_part-Outcome n a =
      let P = OnlyPart a n in
      Outcome-bind P _ _ _ _ (Outcome-log P (part_url_call a.kind n) (refl, refl)) λ _ _.
        Outcome-bind P _ _ _ _ (Outcome-lift P (answers.part_url a.kind n)) λ url _.
          Outcome-bind P _ _ _ _
            (Outcome-lift P (
              verify_attachment tools.manifests (answers.probe (part a.kind n)) a.size_bytes
                a.sha256))
            λ _ _.
              Outcome-bind P _ _ _ _
                (Outcome-lift P (
                  read_part tools.manifests.sha256 (answers.content a.kind n) n a.size_bytes
                    (nth (n - 1) a.part_sha256s)))
                λ content _.
                  Outcome-bind P _ _ _ _ (Outcome-log P (put_call a.kind n) (refl, refl)) λ _ _.
                    Outcome-bind P _ _ _ _
                      (Outcome-lift P (
                        put_part tools.client (answers.destination a.kind n)
                          (answers.put a.kind n)))
                      λ etag _.
                        let p : CompletedPart = record { part_number = n; etag = etag } in
                        let a' = record a { completed_parts = add_part p a.completed_parts } in
                        Outcome-bind P _ _ _ _
                          (Outcome-stored P (
                            save tools.store (answers.writes (part a.kind n))
                              (answers.now (part a.kind n)) path (whole a')))
                          λ _ _. Outcome-pure P (WithPart a n) a' (p, refl, refl)

-- the calls that an attachment still needs: for the parts that are not recorded, and its completion
unfoldable pub Needed : AttachmentState → Call → Type 0
Needed a (put_call kind n) = (kind ≡ a.kind) × (has_part n a.completed_parts ≡ false)
Needed a (part_url_call kind n) = (kind ≡ a.kind) × (has_part n a.completed_parts ≡ false)
Needed a (complete_call kind parts) = (kind ≡ a.kind) × (a.completed ≡ false)
Needed a _ = ⊥

-- `b` is the attachment `a` with further parts
Grown : AttachmentState → AttachmentState → Type 0
Grown a b =
    (b.kind ≡ a.kind)
    × (b.size_bytes ≡ a.size_bytes)
    × (b.completed ≡ a.completed)
    × ((n : ℕ) → has_part n a.completed_parts ≡ true → has_part n b.completed_parts ≡ true)

Grown-refl : (a : AttachmentState) → Grown a a
unfolding Grown
Grown-refl a = (refl, refl, refl, λ n h. h)

Grown-trans : (a b c : AttachmentState) → Grown a b → Grown b c → Grown a c
unfolding Grown
Grown-trans a b c (k, s, d, f) (l, t, e, g) = (l ∙ k, t ∙ s, e ∙ d, λ n h. g n (f n h))

WithPart-Grown :
    (n : ℕ) (a b : AttachmentState)
    → WithPart a n b
    → Grown a b × (has_part n b.completed_parts ≡ true)
unfolding WithPart Grown
WithPart-Grown n a b (p, same, e) =
    let added = λ (m : ℕ). has_part-add_part m p a.completed_parts in
    rw e ((refl, refl, refl, λ m h. ground (arith, added m, h)), ground (arith, added n, same))

Grown-has_part :
    (a b : AttachmentState)
    → Grown a b
    → (n : ℕ) → has_part n a.completed_parts ≡ true
    → has_part n b.completed_parts ≡ true
unfolding Grown
Grown-has_part a b (k, s, d, f) n h = f n h

module _ (tools : Tools) (answers : Answers) (path : Text) (whole : AttachmentState → OutboxEntry)
    (start : AttachmentState) where
  abbrev done : List ℕ
  done = part_numbers start.completed_parts

  contains-done :
      (n : ℕ) (parts : List CompletedPart) → contains n (part_numbers parts) ≡ has_part n parts
  contains-done n [] = refl
  contains-done n (p ∷ rest) = ground (arith, contains-done n rest)

  -- what a loop over `ns` gives
  Looped : List ℕ → AttachmentState → AttachmentState → Type 0
  Looped ns a b = Grown a b × All (λ n. has_part n b.completed_parts ≡ true) ns

  OnlyPart-Needed :
      (n : ℕ) (a : AttachmentState)
      → a.kind ≡ start.kind
      → has_part n start.completed_parts ≡ false
      → (c : Call) → OnlyPart a n c
      → Needed start c
  unfolding OnlyPart Needed
  OnlyPart-Needed n a k h (put_call kind m) (l, e) = (l ∙ k, rw e h)
  OnlyPart-Needed n a k h (part_url_call kind m) (l, e) = (l ∙ k, rw e h)
  OnlyPart-Needed n a k h pair_call o = absurd o
  OnlyPart-Needed n a k h refresh_call o = absurd o
  OnlyPart-Needed n a k h status_call o = absurd o
  OnlyPart-Needed n a k h create_call o = absurd o
  OnlyPart-Needed n a k h submit_call o = absurd o
  OnlyPart-Needed n a k h (complete_call kind parts) o = absurd o

  part_unless-Outcome :
      (n : ℕ) (a : AttachmentState)
      → Grown start a
      → (r : Run)
      → Outcome
          (Needed start)
          (λ b. Grown a b × (has_part n b.completed_parts ≡ true))
          r
          (part_unless tools answers path whole (contains n done) n a r)
  unfolding Grown
  part_unless-Outcome n a (k, s, d, f) r = elim (Bool-cases (has_part n start.completed_parts)) [
    | inl e ↦
        rw (contains-done n start.completed_parts, e)
          (Outcome-pure (Needed start) _ a (Grown-refl a, f n e) r)
    | inr e ↦
        rw (contains-done n start.completed_parts, e)
          (Outcome-map (OnlyPart a n) (Needed start) (WithPart a n) _ (OnlyPart-Needed n a k e)
            (WithPart-Grown n a) r _ (upload_part-Outcome tools answers path whole n a r))
  ]

  upload_parts-Outcome :
      (ns : List ℕ) (a : AttachmentState)
      → Grown start a
      → (r : Run)
      → Outcome (Needed start) (Looped ns a) r (upload_parts tools answers path whole done ns a r)
  unfolding upload_parts Looped
  upload_parts-Outcome [] a g = Outcome-pure (Needed start) (Looped [] a) a (Grown-refl a, tt)
  upload_parts-Outcome (n ∷ rest) a g =
      Outcome-bind (Needed start) _ (Looped (n ∷ rest) a) _ _ (part_unless-Outcome n a g)
        λ b (gb, hb) r.
          Outcome-map (Needed start) (Needed start) (Looped rest b) _ (λ c h. h)
            (λ c (gc, all). (Grown-trans a b c gb gc, (Grown-has_part b c gc n hb, all))) r _
            (upload_parts-Outcome rest b (Grown-trans start a b g gb) r)

  -- the completion of an attachment whose parts are all recorded
  pub Finished : AttachmentState → Type 0
  Finished b =
      (b.completed ≡ true)
      × All (λ n. has_part n b.completed_parts ≡ true)
          (numbers_from 1 (total_parts start.size_bytes))

  complete_unless-Outcome :
      (expected : AttachmentResponse) (a : AttachmentState)
      → Looped (numbers_from 1 (total_parts start.size_bytes)) start a
      → (b : Bool) → a.completed ≡ b
      → (r : Run)
      → Outcome (Needed start) Finished r (complete_unless tools answers path whole b expected a r)
  unfolding Finished Looped Grown Needed
  complete_unless-Outcome expected a ((k, s, d, f), all) true e =
      Outcome-pure (Needed start) Finished a (e, all)
  complete_unless-Outcome expected a ((k, s, d, f), all) false e =
      let P = Needed start in
      Outcome-bind P _ _ _ _
        (Outcome-lift P (
          verify_attachment tools.manifests (answers.probe (completed a.kind)) a.size_bytes
            a.sha256))
        λ _ _.
          Outcome-bind P _ _ _ _
            (Outcome-log P (complete_call a.kind a.completed_parts) (k, sym d ∙ e))
            λ _ _.
              Outcome-bind P _ _ _ _
                (Outcome-lift P
                  (complete_attachment tools.client expected (answers.completed a.kind)))
                λ _ _.
                  let a' = record a { completed = true } in
                  Outcome-bind P _ _ _ _
                    (Outcome-stored P (
                      save tools.store (answers.writes (completed a.kind))
                        (answers.now (completed a.kind)) path (whole a')))
                    λ _ _. Outcome-pure P Finished a' (refl, all)

  identified-Outcome :
      (o : Option AttachmentResponse) (r : Run)
      → Outcome (Needed start) Finished r (identified tools answers path whole start o r)
  identified-Outcome none = Outcome-raise (Needed start) Finished _
  identified-Outcome (some expected) =
      let P = Needed start in
      Outcome-bind P _ _ _ _
        (Outcome-raise_if P
          (number_repeat done || any (λ n. ltb (total_parts start.size_bytes) n) done)
          (connector_error 2 outbox_invalid))
        λ _ _.
          Outcome-bind P _ _ _ _
            (upload_parts-Outcome (numbers_from 1 (total_parts start.size_bytes)) start
              (Grown-refl start))
            λ b l. complete_unless-Outcome expected b l b.completed refl

  -- A turn of the upload loop asks for addresses and sends bytes only for parts that the outbox does
  -- not record, and completes the attachment only where it was not completed, whatever the answers
  -- are and also where it raises; if it returns, every part of the attachment is recorded and the
  -- attachment is completed.
  pub upload_attachment-Outcome :
      (r : Run)
      → Outcome (Needed start) Finished r (upload_attachment tools answers path whole start r)
  unfolding upload_attachment
  upload_attachment-Outcome =
      Outcome-bind (Needed start) _ _ _ _
        (Outcome-lift (Needed start) (
          verify_attachment tools.manifests (answers.probe (begun start.kind)) start.size_bytes
            start.sha256))
        λ _ _. identified-Outcome (expected_response start)
