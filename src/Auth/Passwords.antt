-- ===== src/Auth/Passwords.antt =====
-- server/src/superboss/modules/auth/passwords.py. A Python string is the list of its code points,
-- lone surrogates included.
use super_boss.Base.{
  ℕ, ◌+◌, ◌*◌, ◌≤◌, ◌≡◌, refl, ap, ◌↔◌, ◌⊎◌, inl, inr, Option-cases, Bool, true, false, Option,
  none, some, [], ◌∷◌, not, ◌&&◌, ◌||◌, arith, ltb, leb, if◌then◌else◌, Digest,
}
use super_boss.Base.Lists.{length, any, All, any_of_All, All-of_any}
use super_boss.Base.Texts.{Text}
use super_boss.Core.Errors.{password_policy_error}
use super_boss.Core.Exec.{Result, ok, err, is_ok, Result-cases}
use super_boss.Core.Platform.{Platform, IsPlatform}

abbrev pub min_password_codepoints : ℕ
min_password_codepoints = 12

abbrev pub max_password_codepoints : ℕ
max_password_codepoints = 128

abbrev pub max_password_utf8_bytes : ℕ
max_password_utf8_bytes = 512

-- `unicodedata.category(c) == "Cc"`
abbrev pub is_control : ℕ → Bool
is_control c = ltb c 32 || (leb 127 c && ltb c 160)

-- what UTF-8 cannot encode
abbrev pub is_surrogate : ℕ → Bool
is_surrogate c = leb 0xd800 c && ltb c 0xe000

-- the bytes of one code point in UTF-8
pub utf8_size : ℕ → ℕ
utf8_size c = if ltb c 0x80 then 1 else if ltb c 0x800 then 2 else if ltb c 0x10000 then 3 else 4

abbrev add_size : ℕ → Option ℕ → Option ℕ
add_size n none = none
add_size n (some m) = some (n + m)

-- `raw.encode("utf-8", errors="strict")`, its length, or `UnicodeEncodeError`
unfoldable pub encoded_size : Text → Option ℕ
unfolding utf8_size
encoded_size [] = some 0
encoded_size (c ∷ cs) = if is_surrogate c then none else add_size (utf8_size c) (encoded_size cs)

abbrev fits : Option ℕ → Result (Unit {0})
fits none = err password_policy_error
fits (some bytes) = if ltb max_password_utf8_bytes bytes then err password_policy_error else ok tt

unfoldable pub validate_password : Text → Result (Unit {0})
validate_password raw =
    if not (leb min_password_codepoints (length raw) && leb (length raw) max_password_codepoints)
    then err password_policy_error
    else if any is_control raw
    then err password_policy_error
    else fits (encoded_size raw)

pub record PasswordVerification : Type 0 where
  pub valid : Bool
  pub needs_rehash : Bool

abbrev verified :
    {Token : Type 0} → Platform Token → Digest → Text → Result (Unit {0}) → PasswordVerification
verified p encoded_hash raw (err e) = record { valid = false; needs_rehash = false }
verified p encoded_hash raw (ok _) =
    let valid = p.argon_verify encoded_hash raw in
    record { valid = valid; needs_rehash = valid && p.argon_needs_rehash encoded_hash }

abbrev hashed : {Token : Type 0} → Platform Token → ℕ → Text → Result (Unit {0}) → Result Digest
hashed p salt raw (err e) = err e
hashed p salt raw (ok _) = ok (p.argon_hash salt raw)

module _ {Token : Type 0} (p : Platform Token) where
  -- `salt` is what the hasher draws
  unfoldable pub hash_password : (salt : ℕ) → Text → Result Digest
  hash_password salt raw = hashed p salt raw (validate_password raw)

  unfoldable pub verify_password : Digest → Text → PasswordVerification
  verify_password encoded_hash raw = verified p encoded_hash raw (validate_password raw)

  -- Verification accepts nothing that the policy rejects, whatever hash is stored.
  pub valid_needs_policy :
      (encoded_hash : Digest) (raw : Text)
      → (verify_password encoded_hash raw).valid ≡ true
      → validate_password raw ≡ ok tt
  unfolding verify_password
  valid_needs_policy encoded_hash raw h = go (validate_password raw) h
    where
      go : (r : Result (Unit {0})) → (verified p encoded_hash raw r).valid ≡ true → r ≡ ok tt
      go (ok u) e = refl
      go (err x) e = cc

  -- So a password that verified can always be hashed again.
  pub hash_of_valid :
      (encoded_hash : Digest) (salt : ℕ) (raw : Text)
      → (verify_password encoded_hash raw).valid ≡ true
      → hash_password salt raw ≡ ok (p.argon_hash salt raw)
  unfolding hash_password
  hash_of_valid encoded_hash salt raw h =
      ap (hashed p salt raw) (valid_needs_policy encoded_hash raw h)

-- What the policy is meant to admit: 12 to 128 code points, none a control character, all of
-- which UTF-8 can encode. The limit of 512 bytes is not among it.
pub record IsAcceptable (raw : Text) : Type 0 where
  pub long : 12 ≤ length raw
  pub short : length raw ≤ 128
  pub printable : All (λ c. is_control c ≡ false) raw
  pub encodable : All (λ c. is_surrogate c ≡ false) raw

utf8_size_le : (c : ℕ) → utf8_size c ≤ 4
unfolding utf8_size
utf8_size_le c = ground arith

-- A code point takes four bytes at most, so the code points bound the bytes.
encoded_size-le :
    (raw : Text)
    → All (λ c. is_surrogate c ≡ false) raw
    → (n : ℕ) × (encoded_size raw ≡ some n) × (n ≤ 4 * length raw)
unfolding encoded_size
encoded_size-le [] h = (0, refl, omega arith)
encoded_size-le (c ∷ cs) h =
    let (n, e, le) = encoded_size-le cs h.1 in
    (utf8_size c + n, rw (h.0, e), omega (arith, utf8_size_le c))

encoded_size-encodable :
    (raw : Text) (n : ℕ) → encoded_size raw ≡ some n → All (λ c. is_surrogate c ≡ false) raw
unfolding encoded_size
encoded_size-encodable [] n h = tt
encoded_size-encodable (c ∷ cs) n h = elim (Option-cases (encoded_size cs)) [
  | inl e ↦ ground arith
  | inr (m, e) ↦ ground (arith, encoded_size-encodable cs m e)
]

acceptable_passes : (raw : Text) → IsAcceptable raw → validate_password raw ≡ ok tt
unfolding validate_password
acceptable_passes raw h =
    let (n, e, le) = encoded_size-le raw h.encodable in
    rw (e, any_of_All is_control raw h.printable) (ground arith)

IsAcceptable-of_valid : (raw : Text) → validate_password raw ≡ ok tt → IsAcceptable raw
unfolding validate_password
IsAcceptable-of_valid raw h = elim (Option-cases (encoded_size raw)) [
  | inl e ↦ ground arith
  | inr (n, e) ↦ record {
    long = ground arith;
    short = ground arith;
    printable = All-of_any is_control raw (ground arith);
    encodable = encoded_size-encodable raw n e;
  }
]

-- `validate_password` accepts exactly the acceptable passwords: the byte limit rejects none of
-- them.
pub validate_password_iff : (raw : Text) → (validate_password raw ≡ ok tt) ↔ IsAcceptable raw
validate_password_iff raw = (IsAcceptable-of_valid raw, acceptable_passes raw)

module _ {Token : Type 0} (p : Platform Token) where
  -- An acceptable password is hashed, and it verifies against its hash by the library's law. One that
  -- is not acceptable is not hashed, and it verifies against no hash at all.
  pub verify-hash :
      IsPlatform p
      → (salt : ℕ) (raw : Text)
      → (IsAcceptable raw
          × (h : Digest) × (hash_password p salt raw ≡ ok h)
          × ((verify_password p h raw).valid ≡ true))
        ⊎ ((IsAcceptable raw → ⊥)
            × (is_ok (hash_password p salt raw) ≡ false)
            × ((h : Digest) → (verify_password p h raw).valid ≡ false))
  unfolding hash_password verify_password
  verify-hash laws salt raw = elim (Result-cases (validate_password raw)) [
    | inl (u, e) ↦ inl (
      IsAcceptable-of_valid raw e,
      p.argon_hash salt raw,
      rw e refl,
      rw e (laws.verify-hash salt raw),
    )
    | inr (x, e) ↦ inr (λ good. cc (acceptable_passes raw good, e), rw e refl, λ h. rw e refl)
  ]
