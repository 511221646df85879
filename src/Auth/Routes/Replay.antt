-- ===== src/Auth/Routes/Replay.antt =====
-- A refresh token that was rotated never works again, whatever requests follow.
use super_boss.Base.{
  ℕ, ◌≡◌, refl, ap, true, none, some, List, [], ◌∷◌, arith, Uuid, Time, Digest, String,
}
use super_boss.Base.Lists.{All}
use super_boss.Base.Rows.{IsUnique}
use super_boss.Base.Texts.{Text}
use super_boss.Core.Errors.{unauthenticated, invalid_session, login_failure}
use super_boss.Core.Exec.{Result, ok, err, is_ok}
use super_boss.Core.Platform.{Platform}
use super_boss.Core.Directory.{Directory, User, AuthSession}
use super_boss.Auth.Service.{
  Draw, Settings, CompletedLogin, SessionPair, login, rotate_refresh_token, change_password,
  authenticate_access_token,
}
use super_boss.Auth.Service.Sessions.{
  Starts, Survives, login-All, rotate-All, change_password-All, logout-All,
}
use super_boss.Auth.Service.Issue.{authenticate-state}
use super_boss.Auth.Service.Rotation.{
  Spent, IsFresh, Spent-Starts, Spent-refused, rotated-Spent, refresh_hash,
}
use super_boss.Auth.Routes.{
  Request, logs_in, refreshes, changes, logs_out, settle, refreshed, change_as, login_route,
  refresh_route, change_route, logout_route, serve, serve_all,
}

-- A request draws no token with this hash.
abbrev pub DrawsFresh : {Token : Type 0} → Platform Token → Digest → Request Token → Type 0
DrawsFresh p h (logs_in username password now salt draw request_id) = IsFresh p h draw
DrawsFresh p h (refreshes raw now draw) = IsFresh p h draw
DrawsFresh p h (changes token current new checked now salt draw request_id) = IsFresh p h draw
DrawsFresh p h (logs_out access refresh checked now) = Unit

module _ {Token : Type 0} (p : Platform Token) (settings : Settings)
    (P : AuthSession → Type 0) where
  settle-All :
      (action : String) (request_id : Uuid) (d : Directory)
      (r : Result (CompletedLogin Token) × Directory)
      → All P d.sessions
      → All P r.1.sessions
      → All P (settle p settings action request_id d r).1.sessions
  settle-All action request_id d (ok done, d') h h' = h'
  settle-All action request_id d (err (login_failure who reason), d') h h' = h'
  settle-All action request_id d (err invalid_session, d') h h' = h
  settle-All action request_id d (err e, d') h h' = h

  refreshed-All :
      (d : Directory) (r : Result (SessionPair Token) × Directory)
      → All P d.sessions
      → All P r.1.sessions
      → All P (refreshed p settings d r).1.sessions
  refreshed-All d (ok pair, d') h h' = h'
  refreshed-All d (err invalid_session, d') h h' = h
  refreshed-All d (err e, d') h h' = h

module _ {Token : Type 0} (p : Platform Token) (settings : Settings) (h : Digest) where
  used :
      (now : Time)
      → Survives p settings
          (Spent h)
          (λ s. record s { refresh_used_at = some now; revoked_at = some now })
  used now s k eq = refl

  starts : (draw : Draw) → IsFresh p h draw → Starts p settings (Spent h) draw
  starts = Spent-Starts p settings h

  revoked : (now : Time) → Survives p settings (Spent h) (λ s. record s { revoked_at = some now })
  revoked now s k eq = ground arith

  change_as-Spent :
      (current new : Text) (now salt : ℕ) (draw : Draw) (request_id : Uuid) (d : Directory)
      (r : Result User × Directory)
      → IsFresh p h draw
      → All (Spent h) d.sessions
      → All (Spent h) r.1.sessions
      → All (Spent h) (change_as p settings current new now salt draw request_id d r).1.sessions
  change_as-Spent current new now salt draw request_id d (ok u, d') fresh k k' =
      settle-All p settings (Spent h) "auth.password.change" request_id d
        (change_password p settings u.id current new now salt draw d') k
        (change_password-All p settings (Spent h) u.id current new now salt draw d'
          (starts draw fresh) (revoked now) k')
  change_as-Spent current new now salt draw request_id d (err invalid_session, d') fresh k k' = k
  change_as-Spent current new now salt draw request_id d (err e, d') fresh k k' = k

  -- Whatever a request does, a spent token stays spent.
  serve-Spent :
      (r : Request Token) (d : Directory)
      → DrawsFresh p h r
      → All (Spent h) d.sessions
      → All (Spent h) (serve p settings r d).sessions
  unfolding serve login_route refresh_route change_route logout_route
  serve-Spent (logs_in username password now salt draw request_id) d fresh k =
      settle-All p settings (Spent h) "auth.login" request_id d
        (login p settings username password now salt draw d) k
        (login-All p settings (Spent h) username password now salt draw d (starts draw fresh) k)
  serve-Spent (refreshes raw now draw) d fresh k =
      refreshed-All p settings (Spent h) d (rotate_refresh_token p settings raw now draw d) k
        (rotate-All p settings (Spent h) raw now draw d (starts draw fresh) (used now) k)
  serve-Spent (changes none current new checked now salt draw request_id) d fresh k = k
  serve-Spent (changes (some token) current new checked now salt draw request_id) d fresh k =
      change_as-Spent current new now salt draw request_id d
        (authenticate_access_token p settings token checked now d) fresh k
        (rw (authenticate-state p settings token checked now d) k)
  serve-Spent (logs_out access refresh checked now) d fresh k =
      logout-All p settings (Spent h) access refresh checked now d (revoked now) k

  serve_all-Spent :
      (rs : List (Request Token)) (d : Directory)
      → All (DrawsFresh p h) rs
      → All (Spent h) d.sessions
      → All (Spent h) (serve_all p settings rs d).sessions
  unfolding serve_all
  serve_all-Spent [] d fresh k = k
  serve_all-Spent (r ∷ rest) d fresh k =
      serve_all-Spent rest (serve p settings r d) fresh.1 (serve-Spent r d fresh.0 k)

module _ {Token : Type 0} (p : Platform Token) (settings : Settings) (raw : Text) where
  refreshed_ok :
      (before : Directory) (r : Result (SessionPair Token) × Directory)
      → is_ok (refreshed p settings before r).0 ≡ true
      → (is_ok r.0 ≡ true) × ((refreshed p settings before r).1 ≡ r.1)
  refreshed_ok before (ok pair, d) h = (refl, refl)
  refreshed_ok before (err invalid_session, d) h = cc
  refreshed_ok before (err e, d) h = cc

  -- Once a refresh request succeeded, every later refresh request with the same token is
  -- refused and changes nothing, after any requests that draw no token with its hash.
  pub replay_refused :
      (now : Time) (draw : Draw) (d : Directory) (rs : List (Request Token)) (later : Time)
      (draw' : Draw)
      → IsUnique refresh_hash d.sessions
      → IsFresh p (p.sha256 raw) draw
      → All (DrawsFresh p (p.sha256 raw)) rs
      → is_ok (refresh_route p settings raw now draw d).0 ≡ true
      → let d' = serve_all p settings rs (refresh_route p settings raw now draw d).1 in
        refresh_route p settings raw later draw' d' ≡ (err unauthenticated, d')
  unfolding refresh_route
  replay_refused now draw d rs later draw' unique fresh fresh_all done =
      let (rotated, same) = refreshed_ok d (rotate_refresh_token p settings raw now draw d) done in
      let spent = rotated-Spent p settings raw now draw d unique fresh rotated in
      let after : All (Spent (p.sha256 raw))
          (refreshed p settings d (rotate_refresh_token p settings raw now draw d)).1.sessions =
        rw same spent in
      ap (refreshed p settings _) (
        Spent-refused p settings raw later draw' _
          (serve_all-Spent p settings (p.sha256 raw) rs _ fresh_all after))
