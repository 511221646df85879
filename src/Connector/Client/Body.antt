-- ===== src/Connector/Client/Body.antt =====
-- The reader of a response keeps no more than it may, chunk by chunk.
use super_boss.Base.{
  ℕ, suc, zero, ◌+◌, ◌-◌, ◌≤◌, ◌<◌, ◌≡◌, refl, sym, ap, ◌∙◌, inl, inr, Bool, true, false, List, [],
  ◌∷◌, ◌++◌, ◌||◌, ltb, leb, Bool-cases, if◌then◌else◌, arith,
}
use mathlib.Core.List.{append-nil, append_assoc}
use super_boss.Base.Chunks.{concat}
use super_boss.Base.Lists.{length, take, length-append}
use super_boss.Base.Texts.{Text}
use super_boss.Core.Exec.{Result, ok, err}
use super_boss.Connector.Client.{response_max_bytes, refused, read_body}

take-all : (n : ℕ) (t : Text) → length t ≤ n → take n t ≡ t
take-all zero [] h = refl
take-all zero (c ∷ t) h = absurd (omega arith)
take-all (suc n) [] h = refl
take-all (suc n) (c ∷ t) h = ap (◌∷◌ c) (take-all n t (omega (arith, h)))

abbrev pub whole : Bool → Text → Result Text
whole auth_failure body =
    if leb (length body) response_max_bytes then ok body else err (refused auth_failure)

too_long :
    (auth_failure : Bool) (body : Text)
    → response_max_bytes < length body
    → whole auth_failure body ≡ err (refused auth_failure)
too_long auth_failure body h = ground (arith, h)

long_lem : (a b : ℕ) → ltb a b ≡ true → a < b
long_lem a b h = ground (arith, h)

short_lem : (a b : ℕ) → ltb a b ≡ false → b ≤ a
short_lem a b h = ground (arith, h)

module _ {A : Type 0} (x y : A) where
  if_right : (a b : Bool) → b ≡ true → (if a || b then x else y) ≡ x
  if_right true b h = refl
  if_right false b h = rw h refl

  if_left : (a b : Bool) → a ≡ true → (if a || b then x else y) ≡ x
  if_left a b h = rw h refl

  if_neither : (a b : Bool) → a ≡ false → b ≡ false → (if a || b then x else y) ≡ y
  if_neither a b h k = rw (h, k) refl

read_body_from :
    (auth_failure : Bool) (payload : Text) (chunks : List Text)
    → length payload ≤ response_max_bytes
    → read_body auth_failure payload chunks ≡ whole auth_failure (payload ++ concat chunks)
unfolding read_body
read_body_from auth_failure payload [] h = rw (append-nil payload) (ground (arith, h))
read_body_from auth_failure payload (chunk ∷ rest) h =
    let remaining = response_max_bytes + 1 - length payload in
    let sum = length-append payload (chunk ++ concat rest) in
    let more = length-append chunk (concat rest) in
    elim (Bool-cases (ltb remaining (length chunk))) [
      | inl long ↦
          if_right _ _ _ _ long
          ∙ sym (
              too_long auth_failure (payload ++ (chunk ++ concat rest))
                (omega (arith, sum, more, long_lem remaining (length chunk) long)))
      | inr short ↦
          let fits = short_lem remaining (length chunk) short in
          rw (take-all remaining chunk fits, short)
            (elim (Bool-cases (ltb response_max_bytes (length (payload ++ chunk)))) [
              | inl over ↦
                  let big = long_lem response_max_bytes (length (payload ++ chunk)) over in
                  if_left _ _ _ _ over
                  ∙ sym (
                      too_long auth_failure (payload ++ (chunk ++ concat rest))
                        (omega (arith, sum, more, big, length-append payload chunk)))
              | inr under ↦
                  if_neither _ _ _ _ under refl
                  ∙ read_body_from auth_failure (payload ++ chunk) rest
                      (short_lem response_max_bytes (length (payload ++ chunk)) under)
                  ∙ ap (whole auth_failure) (append_assoc payload chunk (concat rest))
            ])
    ]

-- The body of an answer is read in whatever chunks it comes exactly when its whole length is at
-- most 131072 bytes, and it is then the chunks in order; otherwise the answer is refused.
pub read_body_lem :
    (auth_failure : Bool) (chunks : List Text)
    → read_body auth_failure [] chunks ≡ whole auth_failure (concat chunks)
read_body_lem auth_failure chunks = read_body_from auth_failure [] chunks (omega arith)
