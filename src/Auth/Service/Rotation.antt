-- ===== src/Auth/Service/Rotation.antt =====
-- Refresh tokens are used once: `rotate_refresh_token` of auth/service.py.
use super_boss.Base.{
  ℕ, ◌≡◌, ◌≢◌, refl, inl, inr, true, some, arith, Time, Digest, Bool-cases, Option-cases, not, ◌||◌,
  is_some, ==_iff,
}
use super_boss.Base.Lists.{All}
use super_boss.Base.Rows.{
  find_by, find_by-holds, All-find_by, IsUnique, find_by_unique, All-save_unique,
}
use super_boss.Base.Texts.{Text}
use super_boss.Core.Errors.{invalid_session}
use super_boss.Core.Exec.{err, is_ok}
use super_boss.Core.Platform.{Platform}
use super_boss.Core.Directory.{Directory, AuthSession, session_key, put_session, is_active}
use super_boss.Auth.Service.{
  Draw, Settings, pending_session, rotate_refresh_token, by_refresh_hash, is_spent, subject,
}
use super_boss.Auth.Service.Sessions.{Starts, issue_session-All}

-- A row that no longer rotates, if it is the one with this hash.
abbrev pub Spent : Digest → AuthSession → Type 0
Spent h s = s.refresh_token_hash ≡ h → (is_some s.refresh_used_at || is_some s.revoked_at) ≡ true

-- The token of a draw is not the one with this hash.
abbrev pub IsFresh : {Token : Type 0} → Platform Token → Digest → Draw → Type 0
IsFresh p h draw = p.sha256 draw.refresh ≢ h

abbrev pub refresh_hash : AuthSession → ℕ
refresh_hash s = s.refresh_token_hash

pub Spent-Starts :
    {Token : Type 0} (p : Platform Token) (settings : Settings) (h : Digest) (draw : Draw)
    → IsFresh p h draw
    → Starts p settings (Spent h) draw
unfolding pending_session
Spent-Starts p settings h draw new user_id jti expires eq = absurd (new eq)

module _ {Token : Type 0} (p : Platform Token) (settings : Settings) (raw : Text) where
  -- A spent token is refused, and nothing changes.
  pub Spent-refused :
      (now : Time) (draw : Draw) (d : Directory)
      → All (Spent (p.sha256 raw)) d.sessions
      → rotate_refresh_token p settings raw now draw d ≡ (err invalid_session, d)
  unfolding rotate_refresh_token
  Spent-refused now draw d h = elim (Option-cases (find_by (by_refresh_hash p raw) d.sessions)) [
    | inl e ↦ rw e
    | inr (s, e) ↦
        let hash : s.refresh_token_hash ≡ p.sha256 raw =
          (==_iff s.refresh_token_hash (p.sha256 raw)).0
            (find_by-holds (by_refresh_hash p raw) s d.sessions e) in
        let gone =
          All-find_by (Spent (p.sha256 raw)) (by_refresh_hash p raw) s d.sessions h e hash in
        rw (e, spent_row s now gone)
  ]
    where
      spent_row :
          (s : AuthSession) (now : Time)
          → (is_some s.refresh_used_at || is_some s.revoked_at) ≡ true
          → is_spent s now ≡ true
      spent_row s now gone = ground arith

  -- A rotation that succeeds leaves its token spent.
  pub rotated-Spent :
      (now : Time) (draw : Draw) (d : Directory)
      → IsUnique refresh_hash d.sessions
      → IsFresh p (p.sha256 raw) draw
      → is_ok (rotate_refresh_token p settings raw now draw d).0 ≡ true
      → All (Spent (p.sha256 raw)) (rotate_refresh_token p settings raw now draw d).1.sessions
  unfolding rotate_refresh_token
  rotated-Spent now draw d unique new done =
      elim (Option-cases (find_by (by_refresh_hash p raw) d.sessions)) [
        | inl e ↦ absurd (cc (rw e at done))
        | inr (s, e) ↦ elim (Bool-cases (is_spent s now)) [
          | inl x ↦ absurd (cc (rw (e, x) at done))
          | inr x ↦
              let used : All (Spent (p.sha256 raw))
                  (put_session (record s { refresh_used_at = some now; revoked_at = some now })
                    d).sessions =
                All-save_unique refresh_hash session_key (p.sha256 raw) (Spent (p.sha256 raw))
                  (record s { refresh_used_at = some now; revoked_at = some now }) d.sessions
                  (find_by_unique refresh_hash session_key (p.sha256 raw) s d.sessions unique e)
                  (λ _. refl) (λ y ne eq. absurd (ne eq)) in
              elim (Option-cases (subject s d)) [
                | inl n ↦ absurd (cc (rw (e, x, n) at done))
                | inr (u, n) ↦ elim (Bool-cases (not (is_active u.status))) [
                  | inl off ↦ absurd (cc (rw (e, x, n, off) at done))
                  | inr on ↦
                      rw (e, x, n, on)
                        (issue_session-All p settings (Spent (p.sha256 raw)) u draw _
                          (Spent-Starts p settings (p.sha256 raw) draw new) used)
                ]
              ]
        ]
      ]
