-- ===== src/Users/Service/Disabled.antt =====
-- A disabled account has no live session.
use mathlib.Core.Path.{subst}
use super_boss.Base.{
  ◌≡◌, refl, ◌∙◌, inl, inr, Bool, true, false, Option, none, some, List, [], ◌∷◌, not, ◌&&◌, ◌==◌,
  Uuid, Time, String, is_some, Bool-cases, Option-cases, ==_iff,
}
use super_boss.Base.Lists.{All}
use super_boss.Base.Rows.{update_where, find_by-holds, find_by-save}
use super_boss.Core.Exec.{is_ok}
use super_boss.Core.Actors.{is_user, is_owner}
use super_boss.Core.Directory.{
  User, UserStatus, AuthSession, Directory, get_user, put_user, user_key,
}
use super_boss.Core.Platform.{Platform}
use super_boss.Users.Service.{
  Request, is_owner_row, staff_for_update, require_owner_actor, update_staff,
  revoke_browser_sessions, updated, of_user,
}

and-false : (b : Bool) → (b && false) ≡ false
and-false true = refl
and-false false = refl

-- no session of the account is left to use
unfoldable pub SignedOut : Uuid → Directory → Type 0
SignedOut user_id d =
    All (λ s. (of_user user_id s && not (is_some s.revoked_at)) ≡ false) d.sessions

revoke-SignedOut :
    (user_id : Uuid) (now : Time) (d : Directory)
    → SignedOut user_id (revoke_browser_sessions user_id now d)
unfolding SignedOut revoke_browser_sessions
revoke-SignedOut user_id now d = go d.sessions
  where
    go :
        (ss : List AuthSession)
        → All
            (λ s. (of_user user_id s && not (is_some s.revoked_at)) ≡ false)
            (update_where
              (λ s. of_user user_id s && not (is_some s.revoked_at))
              (λ s. record s { revoked_at = some now })
              ss)
    go [] = tt
    go (s ∷ ss) = elim (Bool-cases (of_user user_id s && not (is_some s.revoked_at))) [
      | inl e ↦ rw e (and-false (of_user user_id s), go ss)
      | inr e ↦ rw e (e, go ss)
    ]

module _ {Token : Type 0} (p : Platform Token) where
  -- what an update to DISABLED leaves of a row
  pub Disabled : Uuid → Directory → Type 0
  Disabled user_id d =
      SignedOut user_id d
      × ((u : User) × (get_user user_id d ≡ some u) × (u.status ≡ UserStatus.disabled))

  -- the row that is written, whatever its other fields are
  written-Disabled :
      (now : Time) (user_id : Uuid) (u u' : User) (d : Directory)
      → get_user user_id d ≡ some u
      → u'.id ≡ u.id
      → u'.status ≡ UserStatus.disabled
      → Disabled user_id (revoke_browser_sessions u'.id now (put_user u' d))
  unfolding Disabled revoke_browser_sessions
  written-Disabled now user_id u u' d found same status =
      let test = find_by-holds (λ (v : User). v.id == user_id) u d.users found in
      let named = same ∙ (==_iff u.id user_id).0 test in
      (
        subst (λ i. SignedOut i (revoke_browser_sessions u'.id now (put_user u' d))) named
            (revoke-SignedOut u'.id now (put_user u' d)),
        (
          u',
          find_by-save user_key (λ v. v.id == user_id) u u' d.users found same
              ((==_iff u'.id user_id).1 named),
          status,
        ),
      )

  updated-Disabled :
      (q : Request) (name : Option String) (now : Time) (user_id : Uuid) (u : User) (d : Directory)
      → get_user user_id d ≡ some u
      → Disabled user_id
          (updated p q
            (record { display_name = name; status = some UserStatus.disabled })
            now
            u
            d).1
  updated-Disabled q none now user_id u d found = written-Disabled now user_id u _ d found refl refl
  updated-Disabled q (some n) now user_id u d found =
      written-Disabled now user_id u _ d found refl refl

  -- An update to DISABLED that succeeds leaves the row of the account disabled, and every session of
  -- the account revoked.
  pub disabled_signed_out :
      (q : Request) (user_id : Uuid) (name : Option String) (now : Time) (d : Directory)
      → is_ok
          (update_staff p q user_id
            (record { display_name = name; status = some UserStatus.disabled })
            now
            d).0
        ≡ true
      → Disabled user_id
          (update_staff p q user_id
            (record { display_name = name; status = some UserStatus.disabled })
            now
            d).1
  unfolding update_staff staff_for_update require_owner_actor
  disabled_signed_out q user_id name now d done =
      elim (Bool-cases (is_user q.actor.kind && is_owner q.actor.role)) [
        | inr a ↦ absurd (cc (rw a at done))
        | inl a ↦ elim (Option-cases (get_user user_id d)) [
          | inl b ↦ absurd (cc (rw (a, b) at done))
          | inr (u, b) ↦ elim (Bool-cases (is_owner_row u)) [
            | inl c ↦ absurd (cc (rw (a, b, c) at done))
            | inr c ↦ rw (a, b, c) (updated-Disabled q name now user_id u d b)
          ]
        ]
      ]
