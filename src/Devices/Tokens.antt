-- ===== src/Devices/Tokens.antt =====
-- server/src/superboss/core/security.py: the access tokens of devices.
use super_boss.Base.{
  ◌+◌, Bool, true, false, Option, none, some, List, [], ◌∷◌, String, Uuid, Time, ◌&&◌, ◌==◌,
  is_some, str_eq, opt_eq, hours, second, ◌*◌, if◌then◌else◌,
}
use super_boss.Base.Lists.{all}
use super_boss.Core.Errors.{token_error}
use super_boss.Core.Exec.{Result, ok, err}
use super_boss.Core.Platform.{Platform, Payload, Claim, text, texts, int, date, lookup}
use super_boss.Core.Actors.{Scope, imports_create, imports_read_own, imports_submit, imports_upload}
use super_boss.Core.Security.{keys_are, is_int}

abbrev pub device_lifetime : Time
device_lifetime = hours 2

-- DEVICE_ACCESS_SCOPES, as the token spells them
abbrev pub device_scopes : List Scope
device_scopes = imports_create ∷ imports_read_own ∷ imports_submit ∷ imports_upload ∷ []

abbrev pub scope_texts : List String
scope_texts = "imports:create" ∷ "imports:read-own" ∷ "imports:submit" ∷ "imports:upload" ∷ []

abbrev texts_eq : List String → List String → Bool
texts_eq [] [] = true
texts_eq (s ∷ ss) (t ∷ ts) = str_eq s t && texts_eq ss ts
texts_eq _ _ = false

abbrev device_claims : List String
device_claims =
    "sub" ∷ "device_id" ∷ "owner_id" ∷ "scopes" ∷ "session_id" ∷ "iat" ∷ "exp" ∷ "jti" ∷ []

-- `payload["exp"] == payload["iat"] + 2 * 60 * 60`
abbrev lasts : Option Claim → Option Claim → Bool
lasts (some (int issued)) (some (int expires)) = expires == issued + 7200
lasts _ _ = false

abbrev names_scopes : Option Claim → Bool
names_scopes (some (texts scopes)) = texts_eq scopes scope_texts
names_scopes _ = false

abbrev pub seconds_of : Option Claim → Option Time
seconds_of (some (int n)) = some (n * second)
seconds_of _ = none

module _ {Token : Type 0} (p : Platform Token) where
  -- `UUID(str(payload[key]))` of a claim that is a text; no other is written by the server.
  abbrev uuid_of : Option Claim → Option Uuid
  uuid_of (some (text s)) = p.parse_uuid s
  uuid_of _ = none

  abbrev pub uuid_claim : String → Payload → Option Uuid
  uuid_claim k claims = uuid_of (lookup k claims)

  -- the checks of `decode_device_access_token` on the decoded payload
  abbrev is_device_payload : Payload → Bool
  is_device_payload claims =
      keys_are device_claims claims
      && (is_int (lookup "iat" claims)
          && (is_int (lookup "exp" claims)
              && (lasts (lookup "iat" claims) (lookup "exp" claims)
                  && (names_scopes (lookup "scopes" claims)
                      && (all (λ k. is_some (uuid_claim k claims))
                            ("sub" ∷ "device_id" ∷ "owner_id" ∷ "session_id" ∷ "jti" ∷ [])
                          && opt_eq (uuid_claim "sub" claims) (uuid_claim "device_id" claims))))))

  abbrev checked_device : Option Payload → Result Payload
  checked_device none = err token_error
  checked_device (some claims) = if is_device_payload claims then ok claims else err token_error

  -- `decode_device_access_token`, which leaves the two times to its caller
  unfoldable pub decode_device_access_token : String → Time → Token → Result Payload
  decode_device_access_token jwt_secret now token =
      if str_eq jwt_secret ""
      then err token_error
      else checked_device (p.jwt_decode jwt_secret false now token)

  -- `issue_device_access_token`
  unfoldable pub issue_device_access_token :
      String
      → (device_id owner_id session_id access_jti : Uuid) → (issued_at : Time)
      → Result (Token × Time)
  issue_device_access_token jwt_secret device_id owner_id session_id access_jti issued_at =
      if str_eq jwt_secret ""
      then err token_error
      else ok (
        p.jwt_encode jwt_secret (
            ("sub", text (p.uuid_text device_id))
            ∷ ("device_id", text (p.uuid_text device_id))
            ∷ ("owner_id", text (p.uuid_text owner_id))
            ∷ ("scopes", texts scope_texts)
            ∷ ("session_id", text (p.uuid_text session_id))
            ∷ ("iat", date issued_at)
            ∷ ("exp", date (issued_at + device_lifetime))
            ∷ ("jti", text (p.uuid_text access_jti))
            ∷ []),
        issued_at + device_lifetime,
      )

-- What `authenticate_access_token` reads of a token.
pub record DeviceClaims : Type 0 where
  pub device_id : Uuid
  pub owner_id : Uuid
  pub session_id : Uuid
  pub access_jti : Uuid
  pub issued_at : Time
  pub expires_at : Time
