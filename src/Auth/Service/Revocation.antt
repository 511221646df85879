-- ===== src/Auth/Service/Revocation.antt =====
-- `change_password` of auth/service.py ends every session that the account had.
use super_boss.Base.{
  ℕ, ◌≡◌, ◌≢◌, refl, ap, ◌∙◌, sym, inl, inr, Bool, true, Option, none, some, List, [], ◌∷◌, arith,
  Uuid, Time, Bool-cases, Option-cases, not, ◌&&◌, ◌==◌, is_some, ==_iff, opt_eq, if◌then◌else◌,
}
use super_boss.Base.Lists.{All}
use super_boss.Base.Rows.{find_by-holds, All-find_by, update_where}
use super_boss.Base.Texts.{Text}
use super_boss.Core.Errors.{invalid_session}
use super_boss.Core.Exec.{err, is_ok, Result-cases, state-pure}
use super_boss.Core.Platform.{Platform, Payload}
use super_boss.Core.Directory.{
  Directory, User, AuthSession, is_active, get_user, get_session, put_user,
}
use super_boss.Auth.Passwords.{verify_password, hash_password}
use super_boss.Auth.Service.{
  Draw, Settings, CompletedLogin, pending_session, issue_session, change_password, changed_user,
  replace_password, revoke_all_for_user, authenticate_access_token, read_session_id, claim_text,
  session_refuses,
}
use super_boss.Auth.Service.Sessions.{Starts, issue_session-All}

-- A session of this account, other than the named one, is revoked.
abbrev pub Ended : Uuid → Uuid → AuthSession → Type 0
Ended user_id kept s = s.user_id ≡ some user_id → s.id ≢ kept → is_some s.revoked_at ≡ true

opt_eq-some : (o : Option Uuid) (id : Uuid) → opt_eq o (some id) ≡ true → o ≡ some id
opt_eq-some none id h = cc
opt_eq-some (some a) id h = ap some ((==_iff a id).0 h)

ended_refuses :
    (s : AuthSession) (user_id : Uuid) (claims : Payload) (now : Time)
    → (s.user_id ≡ some user_id → is_some s.revoked_at ≡ true)
    → session_refuses s user_id claims now ≡ true
ended_refuses s user_id claims now h = elim (Bool-cases (opt_eq s.user_id (some user_id))) [
  | inl e ↦ let gone = h (opt_eq-some s.user_id user_id e) in ground arith
  | inr e ↦ ground arith
]

module _ {Token : Type 0} (p : Platform Token) (settings : Settings) where
  revoke_user_ends :
      (user_id kept : Uuid) (now : Time) (d : Directory)
      → All (Ended user_id kept) (revoke_all_for_user user_id now d).sessions
  unfolding revoke_all_for_user
  revoke_user_ends user_id kept now d = go d.sessions
    where
      open_of : AuthSession → Bool
      open_of s = opt_eq s.user_id (some user_id) && not (is_some s.revoked_at)

      one :
          (s : AuthSession)
          → Ended user_id kept (if open_of s then record s { revoked_at = some now } else s)
      one s mine other = ground arith

      go :
          (xs : List AuthSession)
          → All
              (Ended user_id kept)
              (update_where open_of (λ s. record s { revoked_at = some now }) xs)
      go [] = tt
      go (s ∷ xs) = (one s, go xs)

  Ended-Starts :
      (user_id : Uuid) (draw : Draw) → Starts p settings (Ended user_id draw.session_id) draw
  unfolding pending_session
  Ended-Starts user_id draw u jti expires mine other = absurd (other refl)

  replace_ends :
      (u : User) (now : Time) (draw : Draw) (d : Directory)
      → All (Ended u.id draw.session_id) (replace_password p settings u now draw d).1.sessions
  unfolding replace_password
  replace_ends u now draw d =
      rw
        (state-pure {B = CompletedLogin Token} (λ pair. record { pair = pair; user = u })
          (issue_session p settings u draw) (revoke_all_for_user u.id now (put_user u d)))
        (issue_session-All p settings (Ended u.id draw.session_id) u draw _ (Ended-Starts u.id draw)
          (revoke_user_ends u.id draw.session_id now (put_user u d)))

  -- After a password change, every session of the account but the one just issued is revoked.
  pub change_ends_sessions :
      (user_id : Uuid) (current_password new_password : Text) (now salt : ℕ) (draw : Draw)
      (d : Directory)
      → is_ok (change_password p settings user_id current_password new_password now salt draw d).0
        ≡ true
      → All
          (Ended user_id draw.session_id)
          (change_password p settings user_id current_password new_password now salt draw
            d).1.sessions
  unfolding change_password changed_user
  change_ends_sessions user_id current_password new_password now salt draw d done =
      elim (Option-cases (get_user user_id d)) [
        | inl e ↦ absurd (cc (rw e at done))
        | inr (u, e) ↦ elim (Bool-cases (not (is_active u.status))) [
          | inl off ↦ absurd (cc (rw (e, off) at done))
          | inr on ↦
              elim (Bool-cases (not (verify_password p u.password_hash current_password).valid)) [
                | inl wrong ↦ absurd (cc (rw (e, on, wrong) at done))
                | inr right ↦
                    elim (Bool-cases (verify_password p u.password_hash new_password).valid) [
                      | inl reused ↦ absurd (cc (rw (e, on, right, reused) at done))
                      | inr fresh ↦ elim (Result-cases (hash_password p salt new_password)) [
                        | inl (x, hash) ↦
                            let same : u.id ≡ user_id =
                              (==_iff u.id user_id).0
                                (find_by-holds (λ v. v.id == user_id) u d.users e) in
                            rw (e, on, right, fresh, hash)
                              (rw (← same) (replace_ends (changed_user u x now) now draw d))
                        | inr (x, hash) ↦ absurd (cc (rw (e, on, right, fresh, hash) at done))
                      ]
                    ]
              ]
        ]
      ]

  -- So a token of the account that names another session than the new one is refused.
  pub change_refuses_tokens :
      (user_id : Uuid) (current_password new_password : Text) (now salt : ℕ) (draw : Draw)
      (d : Directory)
      → is_ok (change_password p settings user_id current_password new_password now salt draw d).0
        ≡ true
      → (token : Token) (checked later : Time) {id : Uuid} {claims : Payload}
      → read_session_id p settings checked token ≡ some (id, claims)
      → p.parse_uuid (claim_text "sub" claims) ≡ some user_id
      → id ≢ draw.session_id
      → let d' =
          (change_password p settings user_id current_password new_password now salt draw d).1 in
        authenticate_access_token p settings token checked later d' ≡ (err invalid_session, d')
  unfolding authenticate_access_token
  change_refuses_tokens user_id current_password new_password now salt draw d done token checked
        later {id} {claims} read sub other =
      refused (change_password p settings user_id current_password new_password now salt draw d).1
        (change_ends_sessions user_id current_password new_password now salt draw d done)
    where
      refused :
          (d' : Directory)
          → All (Ended user_id draw.session_id) d'.sessions
          → authenticate_access_token p settings token checked later d' ≡ (err invalid_session, d')
      refused d' ended = elim (Option-cases (get_session id d')) [
        | inl e ↦ rw (read, sub, e)
        | inr (s, e) ↦
            let same : s.id ≡ id =
              (==_iff s.id id).0 (find_by-holds (λ x. x.id == id) s d'.sessions e) in
            let gone =
              All-find_by (Ended user_id draw.session_id) (λ x. x.id == id) s d'.sessions ended e in
            rw (
              read,
              sub,
              e,
              ended_refuses s user_id claims later
                  (λ mine. gone mine (λ eq. other (sym same ∙ eq))),
            )
      ]
