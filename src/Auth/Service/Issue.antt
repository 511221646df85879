-- ===== src/Auth/Service/Issue.antt =====
-- What `issue_session` of auth/service.py does to the tables, and the token that it hands out.
use super_boss.Base.{
  ◌+◌, ◌≤◌, ◌<◌, ◌≡◌, refl, ap, ◌∙◌, true, false, none, some, [], ◌∷◌, ◌++◌, arith, String, Uuid,
  Time, str_eq, str_eq_refl, whole_second, ◌==◌, ==_refl, days,
}
use super_boss.Base.Rows.{find_by-append, find_by-save}
use super_boss.Core.Exec.{Result, ok, is_ok, state-pure, is_ok-pure}
use super_boss.Core.Platform.{Platform, Payload, wire, IsPlatform, uuid_text_nonempty}
use super_boss.Core.Security.{
  issue_access_token, access_lifetime, decode-issue, access_payload, role_value, role_nonempty,
}
use super_boss.Core.Directory.{
  Directory, User, AuthSession, UserStatus, get_user, get_session, session_key, put_session,
  put_user, add_session,
}
use super_boss.Auth.Service.{
  SessionPair, Draw, Settings, pending_session, claim_text, issue_session, complete_login,
  authenticate_access_token, read_session_id, session_named, session_claimed, session_refuses,
}

-- The clock of one request: PyJWT reads it no earlier than the second of issue, and within the
-- lifetime of the token.
pub record IsTimely (draw : Draw) : Type 0 where
  pub after : whole_second draw.issued ≤ draw.checked
  pub within : draw.checked < whole_second draw.issued + access_lifetime

module _ {Token : Type 0} (p : Platform Token) (settings : Settings) where
  -- A session is issued, or refused, with no change to any account.
  pub issue_session-users :
      (u : User) (draw : Draw) (d : Directory)
      → (issue_session p settings u draw d).1.users ≡ d.users
  unfolding issue_session
  issue_session-users u draw d = ground arith

  -- What `issue_session` leaves in the table: the session row, with the token's id and expiry.
  abbrev pub issued_session : User → Draw → AuthSession
  issued_session u draw = record (pending_session p settings u.id draw) {
    access_jti = p.uuid_text draw.jti;
    access_expires_at = whole_second draw.issued + access_lifetime;
  }

  abbrev pub issued_pair : User → Draw → SessionPair Token
  issued_pair u draw = record {
    access_token =
        p.jwt_encode settings.jwt_secret
          (access_payload p u.id u.role draw.session_id draw.jti draw.issued);
    refresh_token = draw.refresh;
    access_expires_at = whole_second draw.issued + access_lifetime;
    refresh_expires_at = draw.now + days 14;
  }

  claim_jti :
      IsPlatform p
      → (u : User) (draw : Draw)
      → claim_text "jti" (wire (access_payload p u.id u.role draw.session_id draw.jti draw.issued))
        ≡ p.uuid_text draw.jti
  claim_jti laws u draw = rw (uuid_text_nonempty p laws draw.jti, claim_text)

  claim_session :
      IsPlatform p
      → (u : User) (draw : Draw)
      → claim_text "session_id"
          (wire (access_payload p u.id u.role draw.session_id draw.jti draw.issued))
        ≡ p.uuid_text draw.session_id
  claim_session laws u draw = rw (uuid_text_nonempty p laws draw.session_id, claim_text)

  claim_sub :
      IsPlatform p
      → (u : User) (draw : Draw)
      → claim_text "sub" (wire (access_payload p u.id u.role draw.session_id draw.jti draw.issued))
        ≡ p.uuid_text u.id
  claim_sub laws u draw = rw (uuid_text_nonempty p laws u.id, claim_text)

  claim_role :
      (u : User) (draw : Draw)
      → claim_text "role" (wire (access_payload p u.id u.role draw.session_id draw.jti draw.issued))
        ≡ role_value u.role
  claim_role u draw = rw (role_nonempty u.role, claim_text)

  -- A session is issued by a configured server whenever its clock is sane.
  pub issue_session_lem :
      IsPlatform p
      → (u : User) (draw : Draw) (d : Directory) → IsTimely draw
      → str_eq settings.jwt_secret "" ≡ false
      → issue_session p settings u draw d ≡ (
        ok (issued_pair u draw),
        put_session (issued_session u draw) (add_session (pending_session p settings u.id draw) d),
      )
  unfolding issue_session issue_access_token
  issue_session_lem laws u draw d timely secret =
      rw
        (
          secret,
          decode-issue p settings.jwt_secret laws u.id u.role draw.session_id draw.jti draw.issued
              draw.checked timely.after timely.within secret,
        )
        (ap with_jti (claim_jti laws u draw))
    where
      with_jti : String → Result (SessionPair Token) × Directory
      with_jti jti = (
        ok (issued_pair u draw),
        put_session (record (issued_session u draw) { access_jti = jti })
            (add_session (pending_session p settings u.id draw) d),
      )

  claim_of :
      IsPlatform p
      → (u : User) (draw : Draw) (checked : Time) → str_eq settings.jwt_secret "" ≡ false
      → whole_second draw.issued ≤ checked
      → checked < whole_second draw.issued + access_lifetime
      → read_session_id p settings checked (issued_pair u draw).access_token
        ≡ some (
          draw.session_id,
          wire (access_payload p u.id u.role draw.session_id draw.jti draw.issued),
        )
  unfolding read_session_id
  claim_of laws u draw checked secret after before =
      ap (session_claimed p) (
        decode-issue p settings.jwt_secret laws u.id u.role draw.session_id draw.jti draw.issued
          checked after before secret)
      ∙ ap (session_named _)
          (ap p.parse_uuid (claim_session laws u draw) ∙ laws.parse-text draw.session_id)

  -- A token passes whose session and account pass.
  authenticate_passes :
      (token : Token) (checked now : Time) (d : Directory) {id : Uuid} {claims : Payload}
      {user_id : Uuid} {s : AuthSession} {u : User}
      → read_session_id p settings checked token ≡ some (id, claims)
      → p.parse_uuid (claim_text "sub" claims) ≡ some user_id
      → get_session id d ≡ some s
      → session_refuses s user_id claims now ≡ false
      → get_user user_id d ≡ some u
      → u.status ≡ UserStatus.active
      → str_eq (role_value u.role) (claim_text "role" claims) ≡ true
      → authenticate_access_token p settings token checked now d ≡ (ok u, d)
  unfolding authenticate_access_token
  authenticate_passes token checked now d read sub session accepts user on role =
      rw (read, sub, session, accepts, user, on, role)

  issued_found :
      (u : User) (draw : Draw) (d : Directory)
      → get_session draw.session_id d ≡ none
      → get_session draw.session_id (
          put_session
            (issued_session u draw)
            (add_session (pending_session p settings u.id draw) d))
        ≡ some (issued_session u draw)
  unfolding pending_session
  issued_found u draw d new =
      find_by-save session_key (λ s. s.id == draw.session_id) (pending_session p settings u.id draw)
        (issued_session u draw) (d.sessions ++ pending_session p settings u.id draw ∷ [])
        (find_by-append (λ s. s.id == draw.session_id) d.sessions
            (pending_session p settings u.id draw ∷ [])
          ∙ rw (new, ==_refl draw.session_id))
        refl (==_refl draw.session_id)

  issued_accepts :
      IsPlatform p
      → (u : User) (draw : Draw) (now : Time) → now < whole_second draw.issued + access_lifetime
      → session_refuses
          (issued_session u draw)
          u.id
          (wire (access_payload p u.id u.role draw.session_id draw.jti draw.issued))
          now
        ≡ false
  unfolding pending_session
  issued_accepts laws u draw now live =
      let jti = claim_jti laws u draw in
      rw (jti, session_refuses)
        (rw (str_eq_refl (p.uuid_text draw.jti), ==_refl u.id) (ground arith))

  -- The access token of a session that was just issued authenticates its user, until it expires.
  pub issued_authenticates :
      IsPlatform p
      → (u : User) (draw : Draw) (d : Directory) (checked now : Time)
      → str_eq settings.jwt_secret "" ≡ false
      → get_user u.id d ≡ some u
      → u.status ≡ UserStatus.active
      → get_session draw.session_id d ≡ none
      → IsTimely draw
      → whole_second draw.issued ≤ checked
      → checked < whole_second draw.issued + access_lifetime
      → now < whole_second draw.issued + access_lifetime
      → let (r, d') = issue_session p settings u draw d in
        (r ≡ ok (issued_pair u draw))
        × (authenticate_access_token p settings (issued_pair u draw).access_token checked now d'
            ≡ (ok u, d'))
  unfolding authenticate_access_token
  issued_authenticates laws u draw d checked now secret found on new timely after before live =
      rw (issue_session_lem laws u draw d timely secret) (
        refl,
        authenticate_passes _ checked now _ (claim_of laws u draw checked secret after before)
            (ap p.parse_uuid (claim_sub laws u draw) ∙ laws.parse-text u.id)
            (issued_found u draw d new) (issued_accepts laws u draw now live) found on
            (rw (claim_role u draw) (str_eq_refl (role_value u.role))),
      )

  pub complete_login-users :
      (u : User) (draw : Draw) (d : Directory)
      → (complete_login p settings u draw d).1.users ≡ (put_user u d).users
  unfolding complete_login
  complete_login-users u draw d =
      ap (λ (x : Directory). x.users)
        (state-pure (λ pair. record { pair = pair; user = u }) (issue_session p settings u draw)
          (put_user u d))
      ∙ issue_session-users u draw (put_user u d)

  pub complete_login_ok :
      IsPlatform p
      → (u : User) (draw : Draw) (d : Directory) → IsTimely draw
      → str_eq settings.jwt_secret "" ≡ false
      → is_ok (complete_login p settings u draw d).0 ≡ true
  unfolding complete_login
  complete_login_ok laws u draw d timely secret =
      is_ok-pure (λ pair. record { pair = pair; user = u }) (issue_session p settings u draw)
        (put_user u d)
      ∙ ap (λ (r : Result (SessionPair Token) × Directory). is_ok r.0)
          (issue_session_lem laws u draw (put_user u d) timely secret)

  -- Authentication reads and does not write.
  pub authenticate-state :
      (token : Token) (checked now : Time) (d : Directory)
      → (authenticate_access_token p settings token checked now d).1 ≡ d
  unfolding authenticate_access_token
  authenticate-state token checked now d = ground arith
