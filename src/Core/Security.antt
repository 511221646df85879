-- ===== src/Core/Security.antt =====
-- server/src/superboss/core/security.py: the access tokens of browser sessions and of devices.
use super_boss.Base.{
  ℕ, ◌+◌, ◌≡◌, Bool, true, false, Option, none, some, List, [], ◌∷◌, String, Uuid, Time, ◌&&◌, ◌<◌,
  ◌≤◌, refl, is_some, if◌then◌else◌, str_eq, hours, whole_second,
}
use super_boss.Base.Lists.{any, all}
use super_boss.Core.Errors.{token_error}
use super_boss.Core.Exec.{Result, ok, err}
use super_boss.Core.Platform.{
  Platform, Payload, Claim, IsPlatform, uuid_text_nonempty, wire, text, int, date, lookup,
}
use super_boss.Core.Actors.{Role, owner, staff}

abbrev pub access_lifetime : Time
access_lifetime = hours 2

-- `str(user.role)`, the value of the StrEnum
abbrev pub role_value : Role → String
role_value owner = "OWNER"
role_value staff = "STAFF"

pub role_nonempty : (r : Role) → str_eq (role_value r) "" ≡ false
role_nonempty owner = refl
role_nonempty staff = refl

-- `payload[key]` where it is a non-empty string
abbrev text_of : Option Claim → Option String
text_of (some (text s)) = if str_eq s "" then none else some s
text_of _ = none

abbrev pub text_claim : String → Payload → Option String
text_claim k p = text_of (lookup k p)

abbrev pub is_int : Option Claim → Bool
is_int (some (int n)) = true
is_int _ = false

abbrev pub keys : Payload → List String
keys [] = []
keys ((k, v) ∷ rest) = k ∷ keys rest

-- `set(payload) == expected`
abbrev pub keys_are : List String → Payload → Bool
keys_are expected p =
    all (λ k. any (str_eq k) expected) (keys p) && all (λ k. any (str_eq k) (keys p)) expected

abbrev access_claims : List String
access_claims = "sub" ∷ "role" ∷ "session_id" ∷ "iat" ∷ "exp" ∷ "jti" ∷ []

-- the checks of `decode_access_token` on the decoded payload
abbrev is_access_payload : Payload → Bool
is_access_payload p =
    keys_are access_claims p
    && (all (λ k. is_some (text_claim k p)) ("sub" ∷ "role" ∷ "session_id" ∷ "jti" ∷ [])
        && all (λ k. is_int (lookup k p)) ("iat" ∷ "exp" ∷ []))

module _ {Token : Type 0} (p : Platform Token) where
  abbrev pub access_payload : Uuid → Role → Uuid → Uuid → Time → Payload
  access_payload user_id role session_id jti now =
      ("sub", text (p.uuid_text user_id))
      ∷ ("role", text (role_value role))
      ∷ ("session_id", text (p.uuid_text session_id))
      ∷ ("iat", date (whole_second now))
      ∷ ("exp", date (whole_second now + access_lifetime))
      ∷ ("jti", text (p.uuid_text jti))
      ∷ []

module _ {Token : Type 0} (p : Platform Token) (jwt_secret : String) where
  -- The token and its expiry; `jti` is the `uuid4()` and `now` the `utcnow()` of the call.
  unfoldable pub issue_access_token :
      Uuid → Role → Uuid → (jti : Uuid) → (now : Time) → Result (Token × Time)
  issue_access_token user_id role session_id jti now =
      if str_eq jwt_secret ""
      then err token_error
      else ok (
        p.jwt_encode jwt_secret (access_payload p user_id role session_id jti now),
        whole_second now + access_lifetime,
      )

  abbrev checked_access : Option Payload → Result Payload
  checked_access none = err token_error
  checked_access (some claims) = if is_access_payload claims then ok claims else err token_error

  unfoldable pub decode_access_token : (now : Time) → Token → Result Payload
  decode_access_token now token =
      if str_eq jwt_secret ""
      then err token_error
      else checked_access (p.jwt_decode jwt_secret true now token)

  -- What a token that was just issued decodes to, until it expires.
  pub decode-issue :
      IsPlatform p
      → (user_id : Uuid) (role : Role) (session_id jti issued now : ℕ) → whole_second issued ≤ now
      → now < whole_second issued + access_lifetime
      → str_eq jwt_secret "" ≡ false
      → decode_access_token now
          (p.jwt_encode jwt_secret (access_payload p user_id role session_id jti issued))
        ≡ ok (wire (access_payload p user_id role session_id jti issued))
  unfolding decode_access_token
  decode-issue laws user_id role session_id jti issued now old young secret = rw (
    secret,
    laws.decode-encode jwt_secret (access_payload p user_id role session_id jti issued) now _ _ refl
        refl old young,
    uuid_text_nonempty p laws user_id,
    uuid_text_nonempty p laws session_id,
    uuid_text_nonempty p laws jti,
    role_nonempty role,
  )
