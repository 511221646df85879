-- ===== src/Tests/Toy.antt =====
-- A platform by plain functions: a token is the secret with the claims, a digest is the text in
-- a large base, and a UUID is written in unary.
use Prim.Native.String.{String}
use super_boss.Base.{
  ℕ, suc, zero, ◌+◌, ◌*◌, ◌≤◌, ◌<◌, ◌≡◌, refl, Bool, true, false, Option, none, some, [], ◌∷◌,
  arith, ltb, leb, ◌==◌, ==_refl, str_eq, str_eq_refl, if◌then◌else◌, Time, Digest, Uuid, ◌&&◌,
}
use super_boss.Base.Texts.{Text}
use super_boss.Core.Platform.{Platform, IsPlatform, Payload, Claim, date, lookup, wire}

abbrev pub digest : Text → Digest
digest [] = 0
digest (c ∷ cs) = suc (c + 2000000 * digest cs)

abbrev tally : ℕ → String
tally zero = "a"
tally (suc n) = String.◌∷◌ "a" (tally n)

abbrev read_tally : String → Option Uuid
read_tally String.[] = none
read_tally (String.◌∷◌ c String.[]) = some 0
read_tally (String.◌∷◌ c (String.◌∷◌ d s)) = more (read_tally (String.◌∷◌ d s))
  where
    more : Option ℕ → Option ℕ
    more none = none
    more (some n) = some (suc n)

abbrev in_time : Time → Option Claim → Option Claim → Bool
in_time now (some (date issued)) (some (date expires)) = leb issued now && ltb now expires
in_time now _ _ = false

abbrev pub Signed : Type 0
Signed = String × Payload

abbrev decode : String → Bool → Time → Signed → Option Payload
decode secret verify now (signer, claims) =
    if str_eq signer secret
      && (if verify then in_time now (lookup "iat" claims) (lookup "exp" claims) else true)
    then some (wire claims)
    else none

abbrev pub toy : Platform Signed
toy = record {
  sha256 = digest;
  jwt_encode = λ secret claims. (secret, claims);
  jwt_decode = decode;
  uuid_text = tally;
  parse_uuid = read_tally;
  argon_hash = λ salt raw. digest raw;
  argon_verify = λ h raw. h == digest raw;
  argon_needs_rehash = λ h. false;
}

read-tally : (u : Uuid) → read_tally (tally u) ≡ some u
read-tally zero = refl
read-tally (suc zero) = refl
read-tally (suc (suc u)) = rw (read-tally (suc u))

decodes :
    (secret : String) (claims : Payload) (now issued expires : Time)
    → lookup "iat" claims ≡ some (date issued)
    → lookup "exp" claims ≡ some (date expires)
    → issued ≤ now
    → now < expires
    → decode secret true now (secret, claims) ≡ some (wire claims)
decodes secret claims now issued expires iat exp old young =
    rw (str_eq_refl secret, iat, exp) (ground arith)

pub toy-IsPlatform : IsPlatform toy
toy-IsPlatform = record {
  decode-encode = decodes;
  parse-text = read-tally;
  parse-empty = refl;
  verify-hash = λ salt raw. ==_refl (digest raw);
}
