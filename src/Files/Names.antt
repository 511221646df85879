-- ===== src/Files/Names.antt =====
-- The text helpers of server/src/superboss/modules/files/service.py: the safe path segment of an
-- object key, the safe signature of an infection, and the form of an idempotency key.
use super_boss.Base.{
  ℕ, ◌≤◌, ◌≡◌, refl, Bool, true, false, [], ◌∷◌, ◌++◌, map, not, ◌&&◌, ◌||◌, arith, ltb, leb, ◌==◌,
  if◌then◌else◌, Bool-cases, inl, inr, if_either,
}
use super_boss.Base.Lists.{length, take, any, all, keep, All, All-append, All-take, length-take-le}
use super_boss.Base.Strip.{strip, StartsWell, EndsWell, strip-All, strip-StartsWell, strip-EndsWell}
use super_boss.Base.Texts.{Text, codes, text_or, All-text_or, length-text_or}

-- `re.fullmatch(r"[!-~]{1,255}", key)`
unfoldable pub is_idempotency_key : Text → Bool
is_idempotency_key key =
    leb 1 (length key) && (leb (length key) 255 && all (λ c. leb 33 c && leb c 126) key)

abbrev pub is_alnum_ascii : ℕ → Bool
is_alnum_ascii c =
    (leb b'0' c && leb c b'9') || ((leb b'A' c && leb c b'Z') || (leb b'a' c && leb c b'z'))

-- the characters that `[^A-Za-z0-9._: +()\-]` leaves alone
abbrev pub in_signature : ℕ → Bool
in_signature c = is_alnum_ascii c || any (◌==◌ c) (codes "._: +()-")

abbrev sanitize_signature : Text → Text
sanitize_signature = map (λ c. if in_signature c then c else b'_')

abbrev pub max_signature_length : ℕ
max_signature_length = 128

-- `_safe_signature` of a signature that is present
unfoldable pub safe_signature : Text → Text
safe_signature signature =
    text_or (take max_signature_length (sanitize_signature signature)) (codes "INFECTED")

sanitized : (signature : Text) → All (λ c. in_signature c ≡ true) (sanitize_signature signature)
sanitized [] = tt
sanitized (c ∷ s) = (if_else (in_signature c) refl, sanitized s)
  where
    if_else : (b : Bool) → in_signature c ≡ b → in_signature (if b then c else b'_') ≡ true
    if_else true e = e
    if_else false e = refl

-- What is stored of a signature is 1 to 128 characters of the allowed set, whatever the scanner
-- sent.
pub safe_signature_safe :
    (signature : Text)
    → (1 ≤ length (safe_signature signature))
      × (length (safe_signature signature) ≤ 128)
      × All (λ c. in_signature c ≡ true) (safe_signature signature)
unfolding safe_signature
safe_signature_safe signature =
    let safe = sanitized signature in
    (
      length-text_or (take max_signature_length (sanitize_signature signature)) (codes "INFECTED")
          (omega arith),
      short (take max_signature_length (sanitize_signature signature))
          (length-take-le max_signature_length (sanitize_signature signature)),
      All-text_or (λ c. in_signature c ≡ true)
          (take max_signature_length (sanitize_signature signature)) (codes "INFECTED")
          (All-take (λ c. in_signature c ≡ true) max_signature_length (sanitize_signature signature)
            safe)
          (refl, (refl, (refl, (refl, (refl, (refl, (refl, (refl, tt)))))))),
    )
  where
    short : (t : Text) → length t ≤ 128 → length (text_or t (codes "INFECTED")) ≤ 128
    short [] h = omega arith
    short (c ∷ t) h = h

-- `value.replace("\\", "/").split("/")[-1]`
abbrev is_separator : ℕ → Bool
is_separator c = c == b'/' || c == 92

abbrev last_part : Text → Text → Text
last_part part [] = part
last_part part (c ∷ s) = last_part (if is_separator c then [] else part ++ c ∷ []) s

abbrev pub is_unsafe : ℕ → Bool
is_unsafe c = ltb c 32 || (c == 127 || is_separator c)

abbrev pub is_edge : ℕ → Bool
is_edge c = c == b'.' || c == b'_'

-- the characters that are neither controls nor delete
abbrev is_printable : ℕ → Bool
is_printable c = leb 32 c && not (c == 127)

-- `is_alnum` is `str.isalnum` of one character.
module _ (is_alnum : ℕ → Bool) where
  abbrev clean_char : ℕ → ℕ
  clean_char c = if is_alnum c || any (◌==◌ c) (codes "._-") then c else b'_'

  -- `_segment`
  unfoldable pub segment : Text → Text → Text
  segment value fallback =
      text_or (strip is_edge (map clean_char (keep is_printable (last_part [] value)))) fallback

abbrev pub IsSafeText : Text → Type 0
IsSafeText = All (λ c. is_unsafe c ≡ false)

-- One path segment: not empty, no separator and no control character in it, and no dot or
-- underscore at either end, so that it is neither `.` nor `..`.
pub record IsSegment (t : Text) : Type 0 where
  pub nonempty : 1 ≤ length t
  pub safe : IsSafeText t
  pub starts : StartsWell is_edge t
  pub ends : EndsWell is_edge t

abbrev NoSeparator : Text → Type 0
NoSeparator = All (λ c. is_separator c ≡ false)

last_part-NoSeparator : (part s : Text) → NoSeparator part → NoSeparator (last_part part s)
last_part-NoSeparator part [] h = h
last_part-NoSeparator part (c ∷ s) h =
    last_part-NoSeparator (if is_separator c then [] else part ++ c ∷ []) s
      (next (is_separator c) refl)
  where
    next : (b : Bool) → is_separator c ≡ b → NoSeparator (if b then [] else part ++ c ∷ [])
    next true e = tt
    next false e = All-append (λ x. is_separator x ≡ false) part (c ∷ []) h (e, tt)

module _ (is_alnum : ℕ → Bool) where
  clean_char_safe :
      (c : ℕ)
      → is_printable c ≡ true
      → is_separator c ≡ false
      → is_unsafe (clean_char is_alnum c) ≡ false
  clean_char_safe c printable other =
      if_either (λ x. is_unsafe x ≡ false) (is_alnum c || any (◌==◌ c) (codes "._-")) c b'_'
        (ground arith) refl

  cleaned :
      (s : Text) → NoSeparator s → IsSafeText (map (clean_char is_alnum) (keep (is_printable) s))
  cleaned [] h = tt
  cleaned (c ∷ s) h =
      elim (Bool-cases (is_printable c))
        as (λ _. IsSafeText (map (clean_char is_alnum) (keep (is_printable) (c ∷ s)))) [
          | inl e ↦ rw e (clean_char_safe c e h.0, cleaned s h.1)
          | inr e ↦ rw e (cleaned s h.1)
        ]

  -- Whatever text a client names a file or a category by, and whatever characters count as
  -- alphanumeric, the segment made of it is a safe path segment, if the fallback is one.
  pub segment-IsSegment :
      (value fallback : Text) → IsSegment fallback → IsSegment (segment is_alnum value fallback)
  unfolding segment
  segment-IsSegment value fallback h =
      whole (strip is_edge cleaned_text)
        (strip-All is_edge (λ c. is_unsafe c ≡ false) cleaned_text safe)
        (strip-StartsWell is_edge cleaned_text) (strip-EndsWell is_edge cleaned_text)
    where
      cleaned_text : Text
      cleaned_text = map (clean_char is_alnum) (keep (is_printable) (last_part [] value))

      safe : IsSafeText cleaned_text
      safe = cleaned (last_part [] value) (last_part-NoSeparator [] value tt)

      whole :
          (t : Text)
          → IsSafeText t
          → StartsWell is_edge t
          → EndsWell is_edge t
          → IsSegment (text_or t fallback)
      whole [] a b c = h
      whole (x ∷ t) a b c = record { nonempty = omega arith; safe = a; starts = b; ends = c }
