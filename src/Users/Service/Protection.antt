-- ===== src/Users/Service/Protection.antt =====
-- The row of an OWNER is protected from every operation, and a disabled or reset account loses its
-- sessions.
use super_boss.Base.{
  ◌≡◌, ◌≢◌, ==_iff, refl, sym, ◌∙◌, inl, inr, true, false, Option, none, some, List, [], ◌∷◌, ◌++◌,
  ◌&&◌, ◌==◌, Uuid, Time, Digest, String, str_eq, Bool-cases, Option-cases,
}
use super_boss.Base.Lists.{any, length}
use super_boss.Base.Rows.{find_by-append, find_by-holds, find_by-save_other}
use super_boss.Core.Exec.{Exec, Result, ok, err, ◌>>=◌, ◌>>◌}
use super_boss.Core.Directory.{User, UserStatus, Project, Directory, get_user, put_user, user_key}
use super_boss.Core.Actors.{is_user, is_owner}
use super_boss.Core.Platform.{Platform}
use super_boss.Auth.Passwords.{hash_password}
use super_boss.Users.Service.{
  Request, StaffCreate, StaffUpdate, StaffDraw, is_owner_row, record_denial, staff_for_update,
  require_owner_actor, list_users, create_staff, update_staff, replace_projects,
  reset_staff_password, revoke_browser_sessions, replace_project_memberships, with_status, renamed,
  updated, replaced_with, reset_to, is_empty_update, flush_staff, new_staff, create_in,
  projects_for_update,
}

-- one call of the service
pub data Operation : Type 0 where
  list : Operation
  create : StaffCreate → StaffDraw → Operation
  update : Uuid → StaffUpdate → Time → Operation
  replace : Uuid → List Uuid → Operation
  reset : Uuid → StaffDraw → Operation

module _ {Token : Type 0} (p : Platform Token) where
  unfoldable pub perform : Request → Operation → Directory → Directory
  perform q list d = (list_users q d).1
  perform q (create command draw) d = (create_staff p q command draw d).1
  perform q (update id command now) d = (update_staff p q id command now d).1
  perform q (replace id project_ids) d = (replace_projects p q id project_ids d).1
  perform q (reset id draw) d = (reset_staff_password p q id draw d).1

  -- a history of calls, each with its request
  unfoldable pub run : List (Request × Operation) → Directory → Directory
  run [] d = d
  run ((q, op) ∷ rest) d = run rest (perform q op d)

  module _ (id : Uuid) (o : User) where
    Kept : Directory → Type 0
    Kept d = get_user id d ≡ some o

    Kept-record_denial :
        (q : Request) (action : String) (user : Option Uuid) (reason : String) (d : Directory)
        → Kept d
        → Kept (record_denial q action user reason d)
    unfolding record_denial Kept
    Kept-record_denial q action user reason d h = elim (Bool-cases q.audited) [
      | inl e ↦ rw e h
      | inr e ↦ rw e h
    ]

    -- A row that is not an OWNER's has another identifier.
    other :
        (u : User) (user_id : Uuid) (d : Directory)
        → get_user user_id d ≡ some u
        → is_owner_row u ≡ false
        → is_owner_row o ≡ true
        → Kept d
        → u.id ≢ id
    unfolding Kept
    other u user_id d found staff own h e =
        let named =
          (==_iff u.id user_id).0 (find_by-holds (λ (v : User). v.id == user_id) u d.users found) in
        let here : get_user id d ≡ some u = rw⁻¹ (sym named ∙ e) found in
        let same : u ≡ o = cc in cc

    -- the two ends of `_staff_for_update`: a denial, or a row that is not an OWNER's
    Kept-staff_for_update :
        {A : Type 0} (q : Request) (action : String) (user_id : Uuid) (f : User → Exec Directory A)
        (d : Directory)
        → is_owner_row o ≡ true
        → Kept d
        → ((u : User) → get_user user_id d ≡ some u → u.id ≢ id → Kept (f u d).1)
        → Kept ((staff_for_update q action user_id >>= f) d).1
    unfolding staff_for_update require_owner_actor
    Kept-staff_for_update q action user_id f d own h k =
        elim (Bool-cases (is_user q.actor.kind && is_owner q.actor.role)) [
          | inr a ↦ rw a (Kept-record_denial q action (some user_id) "OWNER_REQUIRED" d h)
          | inl a ↦ elim (Option-cases (get_user user_id d)) [
            | inl b ↦ rw (a, b) (Kept-record_denial q action (some user_id) "USER_NOT_FOUND" d h)
            | inr (u, b) ↦ elim (Bool-cases (is_owner_row u)) [
              | inl c ↦
                  rw (a, b, c) (Kept-record_denial q action (some user_id) "OWNER_PROTECTED" d h)
              | inr c ↦ rw (a, b, c) (k u b (other u user_id d b c own h))
            ]
          ]
        ]

    Kept-put_user : (u : User) (d : Directory) → u.id ≢ id → Kept d → Kept (put_user u d)
    unfolding Kept
    Kept-put_user u d k h = find_by-save_other user_key id u d.users k ∙ h

    Kept-require_owner_actor :
        {A : Type 0} (q : Request) (action : String) (user : Option Uuid) (f : Exec Directory A)
        (d : Directory)
        → Kept d
        → Kept (f d).1
        → Kept ((require_owner_actor q action user >> f) d).1
    unfolding require_owner_actor
    Kept-require_owner_actor q action user f d h k =
        elim (Bool-cases (is_user q.actor.kind && is_owner q.actor.role)) [
          | inr a ↦ rw a (Kept-record_denial q action user "OWNER_REQUIRED" d h)
          | inl a ↦ rw a k
        ]

    Kept-revoke :
        (user : Uuid) (now : Time) (d : Directory)
        → Kept d
        → Kept (revoke_browser_sessions user now d)
    unfolding Kept revoke_browser_sessions
    Kept-revoke user now d h = h

    Kept-members :
        (user : Uuid) (ids : List Uuid) (d : Directory)
        → Kept d
        → Kept (replace_project_memberships user ids d)
    unfolding Kept replace_project_memberships
    Kept-members user ids d h = h

    Kept-with_status :
        (u : User) (status : Option UserStatus) (now : Time) (d : Directory)
        → u.id ≢ id
        → Kept d
        → Kept (with_status p u status now d)
    Kept-with_status u none now d k h = Kept-put_user u d k h
    Kept-with_status u (some UserStatus.active) now d k h = Kept-put_user _ d k h
    Kept-with_status u (some UserStatus.disabled) now d k h =
        Kept-revoke u.id now _ (Kept-put_user _ d k h)

    renamed_id : (u : User) (name : Option String) → (renamed p u name).id ≡ u.id
    renamed_id u none = refl
    renamed_id u (some n) = refl

    Kept-updated :
        (q : Request) (command : StaffUpdate) (now : Time) (u : User) (d : Directory)
        → u.id ≢ id
        → Kept d
        → Kept (updated p q command now u d).1
    Kept-updated q command now u d k h = elim (Bool-cases (is_empty_update p command)) [
      | inl a ↦ rw a (Kept-record_denial q "user.update" (some u.id) "EMPTY_UPDATE" d h)
      | inr a ↦ rw a (
          Kept-with_status (renamed p u command.display_name) command.status now d
            (λ e. k (sym (renamed_id u command.display_name) ∙ e)) h)
    ]

    Kept-replaced :
        (q : Request) (user_id : Uuid) (ids : List Uuid) (u : User) (found : List Project)
        (d : Directory)
        → Kept d
        → Kept (replaced_with p q user_id ids u found d).1
    Kept-replaced q user_id ids u found d h = elim (Bool-cases (length found == length ids)) [
      | inl a ↦ rw a (Kept-members u.id _ d h)
      | inr a ↦
          rw a (Kept-record_denial q "user.projects.replace" (some user_id) "PROJECT_NOT_FOUND" d h)
    ]

    Kept-reset :
        (draw : StaffDraw) (u : User) (r : Result Digest) (d : Directory)
        → u.id ≢ id
        → Kept d
        → Kept (reset_to p draw u r d).1
    Kept-reset draw u (err e) d k h = h
    Kept-reset draw u (ok hash) d k h = Kept-revoke u.id draw.now _ (Kept-put_user _ d k h)

    Kept-added : (u : User) (d : Directory) → Kept d → Kept (record d { users = d.users ++ u ∷ [] })
    unfolding Kept
    Kept-added u d h = find_by-append (λ (v : User). v.id == id) d.users (u ∷ []) ∙ rw h refl

    Kept-create :
        (q : Request) (command : StaffCreate) (draw : StaffDraw) (found : List Project)
        (r : Result Digest) (d : Directory)
        → Kept d
        → Kept (flush_staff p q command draw found r d).1
    Kept-create q command draw found (err e) d h = h
    Kept-create q command draw found (ok hash) d h =
        elim (Bool-cases (any (λ (v : User). str_eq v.username command.username) d.users)) [
          | inl a ↦ rw a (Kept-record_denial q "user.create" none "USERNAME_CONFLICT" d h)
          | inr a ↦ rw a (Kept-members draw.id _ _ (Kept-added (new_staff p command draw hash) d h))
        ]

    Kept-create_in :
        (q : Request) (command : StaffCreate) (draw : StaffDraw) (found : List Project)
        (d : Directory)
        → Kept d
        → Kept (create_in p q command draw found d).1
    Kept-create_in q command draw found d h =
        elim (Bool-cases (length found == length command.project_ids)) [
          | inl a ↦ rw a (
              Kept-create q command draw found (hash_password p draw.salt draw.temporary_password) d
                h)
          | inr a ↦ rw a (Kept-record_denial q "user.create" none "PROJECT_NOT_FOUND" d h)
        ]

    Kept-perform :
        (q : Request) (op : Operation) (d : Directory)
        → is_owner_row o ≡ true
        → Kept d
        → Kept (perform q op d)
    unfolding perform list_users create_staff update_staff replace_projects reset_staff_password
    Kept-perform q list d own h = Kept-require_owner_actor q "user.list" none _ d h h
    Kept-perform q (create command draw) d own h =
        Kept-require_owner_actor q "user.create" none _ d h
          (Kept-create_in q command draw (projects_for_update command.project_ids d) d h)
    Kept-perform q (update user_id command now) d own h =
        Kept-staff_for_update q "user.update" user_id (updated p q command now) d own h
          λ u found other. Kept-updated q command now u d other h
    Kept-perform q (replace user_id project_ids) d own h =
        Kept-staff_for_update q "user.projects.replace" user_id
          (λ u d. replaced_with p q user_id project_ids u (projects_for_update project_ids d) d) d
          own h
          λ u found other.
            Kept-replaced q user_id project_ids u (projects_for_update project_ids d) d h
    Kept-perform q (reset user_id draw) d own h =
        Kept-staff_for_update q "user.password.reset" user_id
          (λ u. reset_to p draw u (hash_password p draw.salt draw.temporary_password)) d own h
          λ u found other.
            Kept-reset draw u (hash_password p draw.salt draw.temporary_password) d other h

  -- Whatever calls of the service are made, by whomever, the row of an OWNER is read back unchanged.
  pub owner_kept :
      (history : List (Request × Operation)) (d : Directory) (id : Uuid) (o : User)
      → get_user id d ≡ some o
      → is_owner_row o ≡ true
      → get_user id (run history d) ≡ some o
  unfolding run Kept
  owner_kept [] d id o h own = h
  owner_kept ((q, op) ∷ rest) d id o h own =
      owner_kept rest (perform q op d) id o (Kept-perform id o q op d own h) own
