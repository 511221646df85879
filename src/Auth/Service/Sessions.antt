-- ===== src/Auth/Service/Sessions.antt =====
-- A property of single session rows that survives every method of auth/service.py, if it holds
-- of new rows and survives the three writes that the methods make to old ones.
use super_boss.Base.{
  ℕ, inl, inr, Option, none, some, [], ◌∷◌, ◌++◌, String, Uuid, Time, Bool-cases, Option-cases, not,
  ◌||◌, str_eq,
}
use super_boss.Base.Lists.{All, All-append}
use super_boss.Base.Rows.{find_by, All-save, All-find_by, All-update_where}
use super_boss.Base.Texts.{Text}
use super_boss.Core.Exec.{Result-cases, state-pure}
use super_boss.Core.Platform.{Platform}
use super_boss.Core.Security.{issue_access_token, decode_access_token}
use super_boss.Core.Directory.{
  Directory, User, AuthSession, session_key, put_user, put_session, is_active, get_user,
}
use super_boss.Auth.Passwords.{verify_password, hash_password}
use super_boss.Auth.Service.{
  Draw, Settings, CompletedLogin, replace_password, pending_session, issue_session, complete_login,
  login_unlocked, login, count_success, rehashed, lift_lock, is_locked, change_password,
  changed_user, revoke_all_for_user, rotate_refresh_token, by_refresh_hash, is_spent, subject,
  logout, access_record, refresh_record, revoke_record,
}

module _ {Token : Type 0} (p : Platform Token) (settings : Settings)
    (P : AuthSession → Type 0) where
  -- `P` holds of every row that is made with this draw.
  abbrev pub Starts : Draw → Type 0
  Starts draw =
      (user_id : Uuid) (jti : String) (expires : Time)
      → P (record (pending_session p settings user_id draw) {
        access_jti = jti;
        access_expires_at = expires;
      })

  abbrev pub Survives : (AuthSession → AuthSession) → Type 0
  Survives f = (s : AuthSession) → P s → P (f s)

  pub issue_session-All :
      (u : User) (draw : Draw) (d : Directory)
      → Starts draw
      → All P d.sessions
      → All P (issue_session p settings u draw d).1.sessions
  unfolding issue_session
  issue_session-All u draw d new h =
      let row = pending_session p settings u.id draw in
      let added : All P (d.sessions ++ row ∷ []) =
        All-append P d.sessions (row ∷ []) h (new u.id row.access_jti row.access_expires_at, tt) in
      elim (Result-cases (
        issue_access_token p settings.jwt_secret u.id u.role draw.session_id draw.jti
          draw.issued)) [
            | inr (x, e) ↦ rw e added
            | inl ((token, expires), e) ↦
                elim (Result-cases (decode_access_token p settings.jwt_secret draw.checked token)) [
                  | inr (x, e') ↦ rw (e, e') added
                  | inl (claims, e') ↦
                      rw (e, e')
                        (All-save P session_key _ (d.sessions ++ row ∷ []) (new u.id _ expires)
                          added)
                ]
          ]

  complete_login-All :
      (u : User) (draw : Draw) (d : Directory)
      → Starts draw
      → All P d.sessions
      → All P (complete_login p settings u draw d).1.sessions
  unfolding complete_login
  complete_login-All u draw d new h =
      rw
        (state-pure {B = CompletedLogin Token} (λ pair. record { pair = pair; user = u })
          (issue_session p settings u draw) (put_user u d))
        (issue_session-All u draw (put_user u d) new h)

  login_unlocked-All :
      (u : User) (password : Text) (now salt : ℕ) (draw : Draw) (d : Directory)
      → Starts draw
      → All P d.sessions
      → All P (login_unlocked p settings u password now salt draw d).1.sessions
  unfolding login_unlocked
  login_unlocked-All u password now salt draw d new h =
      elim (Bool-cases
        (not (verify_password p u.password_hash password).valid || not (is_active u.status))) [
          | inl refused ↦ rw refused h
          | inr passed ↦
              elim (Result-cases (
                rehashed p settings u (verify_password p u.password_hash password) salt password)) [
                  | inl (hash, e) ↦
                      rw (passed, e) (complete_login-All (count_success u hash now) draw d new h)
                  | inr (x, e) ↦ rw (passed, e) h
                ]
        ]

  pub login-All :
      (username : String) (password : Text) (now salt : ℕ) (draw : Draw) (d : Directory)
      → Starts draw
      → All P d.sessions
      → All P (login p settings username password now salt draw d).1.sessions
  unfolding login
  login-All username password now salt draw d new h =
      elim (Option-cases (find_by (λ u. str_eq u.username username) d.users)) [
        | inl e ↦ rw e h
        | inr (u, e) ↦ elim (Bool-cases (is_locked u now)) [
          | inl l ↦ rw (e, l) h
          | inr l ↦ rw (e, l) (login_unlocked-All (lift_lock u) password now salt draw d new h)
        ]
      ]

  pub revoke_user-All :
      (user_id : Uuid) (now : Time) (d : Directory)
      → Survives (λ s. record s { revoked_at = some now })
      → All P d.sessions
      → All P (revoke_all_for_user user_id now d).sessions
  unfolding revoke_all_for_user
  revoke_user-All user_id now d keep h = All-update_where P _ _ d.sessions keep h

  replace_password-All :
      (u : User) (now : Time) (draw : Draw) (d : Directory)
      → Starts draw
      → Survives (λ s. record s { revoked_at = some now })
      → All P d.sessions
      → All P (replace_password p settings u now draw d).1.sessions
  unfolding replace_password
  replace_password-All u now draw d new keep h =
      rw
        (state-pure {B = CompletedLogin Token} (λ pair. record { pair = pair; user = u })
          (issue_session p settings u draw) (revoke_all_for_user u.id now (put_user u d)))
        (issue_session-All u draw _ new (revoke_user-All u.id now (put_user u d) keep h))

  pub change_password-All :
      (user_id : Uuid) (current_password new_password : Text) (now salt : ℕ) (draw : Draw)
      (d : Directory)
      → Starts draw
      → Survives (λ s. record s { revoked_at = some now })
      → All P d.sessions
      → All P
          (change_password p settings user_id current_password new_password now salt draw
            d).1.sessions
  unfolding change_password
  change_password-All user_id current_password new_password now salt draw d new keep h =
      elim (Option-cases (get_user user_id d)) [
        | inl e ↦ rw e h
        | inr (u, e) ↦ elim (Bool-cases (not (is_active u.status))) [
          | inl off ↦ rw (e, off) h
          | inr on ↦
              elim (Bool-cases (not (verify_password p u.password_hash current_password).valid)) [
                | inl wrong ↦ rw (e, on, wrong) h
                | inr right ↦
                    elim (Bool-cases (verify_password p u.password_hash new_password).valid) [
                      | inl reused ↦ rw (e, on, right, reused) h
                      | inr fresh ↦ elim (Result-cases (hash_password p salt new_password)) [
                        | inl (x, hash) ↦
                            rw (e, on, right, fresh, hash)
                              (replace_password-All (changed_user u x now) now draw d new keep h)
                        | inr (x, hash) ↦ rw (e, on, right, fresh, hash) h
                      ]
                    ]
              ]
        ]
      ]

  pub rotate-All :
      (raw : Text) (now : Time) (draw : Draw) (d : Directory)
      → Starts draw
      → Survives (λ s. record s { refresh_used_at = some now; revoked_at = some now })
      → All P d.sessions
      → All P (rotate_refresh_token p settings raw now draw d).1.sessions
  unfolding rotate_refresh_token
  rotate-All raw now draw d new keep h =
      elim (Option-cases (find_by (by_refresh_hash p raw) d.sessions)) [
        | inl e ↦ rw e h
        | inr (s, e) ↦ elim (Bool-cases (is_spent s now)) [
          | inl x ↦ rw (e, x) h
          | inr x ↦
              let used : All P
                  (put_session (record s { refresh_used_at = some now; revoked_at = some now })
                    d).sessions =
                All-save P session_key _ d.sessions
                  (keep s (All-find_by P (by_refresh_hash p raw) s d.sessions h e)) h in
              elim (Option-cases (subject s d)) [
                | inl n ↦ rw (e, x, n) used
                | inr (u, n) ↦ elim (Bool-cases (not (is_active u.status))) [
                  | inl off ↦ rw (e, x, n, off) used
                  | inr on ↦ rw (e, x, n, on) (issue_session-All u draw _ new used)
                ]
              ]
        ]
      ]

  revoke_record-All :
      (o : Option AuthSession) (now : Time) (d : Directory)
      → Survives (λ s. record s { revoked_at = some now })
      → All P d.sessions
      → All P (revoke_record o now d).sessions
  revoke_record-All none now d keep h = h
  revoke_record-All (some s) now d keep h = All-update_where P _ _ d.sessions keep h

  pub logout-All :
      (access : Option Token) (refresh : Option Text) (checked now : Time) (d : Directory)
      → Survives (λ s. record s { revoked_at = some now })
      → All P d.sessions
      → All P (logout p settings access refresh checked now d).1.sessions
  unfolding logout
  logout-All access refresh checked now d keep h =
      let first = refresh_record p settings refresh d in
      revoke_record-All (access_record p settings access checked d) now (revoke_record first now d)
        keep (revoke_record-All first now d keep h)
