-- ===== src/Core/Platform.antt =====
-- What the server takes from Python packages that are not part of the repository: SHA-256,
-- PyJWT, the UUID text form and Argon2. Each is a parameter; `IsPlatform` names the documented
-- behaviour that theorems rely on.
use super_boss.Base.{
  ℕ, ◌<◌, ◌≤◌, ◌≡◌, Bool, true, false, Option, none, some, List, [], ◌∷◌, String, Time, Digest,
  Uuid, str_eq, str_eq_iff, arith, if◌then◌else◌, second, ◌/◌,
}
use super_boss.Base.Texts.{Text}

-- a JSON value among the claims of a token; `date` is a datetime that is still to be encoded
pub data Claim : Type 0 where
  text : String → Claim
  int : ℕ → Claim
  texts : List String → Claim
  date : Time → Claim
  other : Claim

abbrev pub Payload : Type 0
Payload = List (String × Claim)

abbrev pub lookup : String → Payload → Option Claim
lookup k [] = none
lookup k ((j, v) ∷ rest) = if str_eq j k then some v else lookup k rest

-- PyJWT writes a datetime as whole seconds since the epoch.
abbrev pub wire_claim : Claim → Claim
wire_claim (date t) = int (t / second)
wire_claim c = c

abbrev pub wire : Payload → Payload
wire [] = []
wire ((k, c) ∷ rest) = (k, wire_claim c) ∷ wire rest

-- `Token` is the type of encoded access tokens, which only PyJWT looks into.
pub record Platform (Token : Type 0) : Type 0 where
  pub sha256 : Text → Digest
  pub jwt_encode : String → Payload → Token
  -- `verify` stands for the options `verify_exp` and `verify_iat`
  pub jwt_decode : String → (verify : Bool) → (now : Time) → Token → Option Payload
  pub uuid_text : Uuid → String
  pub parse_uuid : String → Option Uuid
  -- the argument is the random salt
  pub argon_hash : (salt : ℕ) → Text → Digest
  -- `false` stands for a mismatch and for an unreadable hash, which both raise
  pub argon_verify : Digest → Text → Bool
  pub argon_needs_rehash : Digest → Bool

pub record IsPlatform {Token : Type 0} (p : Platform Token) : Type 0 where
  -- A signed token decodes under the same key from its `iat` until before its `exp`.
  pub decode-encode :
      (secret : String) (claims : Payload) (now issued expires : Time)
      → lookup "iat" claims ≡ some (date issued)
      → lookup "exp" claims ≡ some (date expires)
      → issued ≤ now
      → now < expires
      → p.jwt_decode secret true now (p.jwt_encode secret claims) ≡ some (wire claims)
  pub parse-text : (u : Uuid) → p.parse_uuid (p.uuid_text u) ≡ some u
  pub parse-empty : p.parse_uuid "" ≡ none
  pub verify-hash : (salt : ℕ) (raw : Text) → p.argon_verify (p.argon_hash salt raw) raw ≡ true

-- No UUID is written as the empty text.
pub uuid_text_nonempty :
    {Token : Type 0} (p : Platform Token)
    → IsPlatform p
    → (u : Uuid) → str_eq (p.uuid_text u) "" ≡ false
uuid_text_nonempty p laws u =
    ground (arith, str_eq_iff (p.uuid_text u) "", laws.parse-text u, laws.parse-empty)
