-- ===== src/Core/Actors/Access.antt =====
-- Who may access a project.
use super_boss.Base.{◌≡◌, ◌↔◌, ◌⊎◌, refl, inl, inr, true, Option, none, some, Uuid, Bool-cases}
use super_boss.Base.Lists.{contains}
use super_boss.Core.Exec.{is_ok}
use super_boss.Core.Actors.{
  Actor, ActorKind, Role, owner, staff, is_user, is_owner, is_staff, require_project_access,
}

-- every project for the OWNER, and those of its memberships for STAFF
pub MayAccess : Actor → Uuid → Type 0
MayAccess actor project_id =
    (actor.kind ≡ ActorKind.user)
    × ((actor.role ≡ some owner)
        ⊎ ((actor.role ≡ some staff) × (contains project_id actor.project_ids ≡ true)))

pub is_user_iff : (k : ActorKind) → (is_user k ≡ true) ↔ (k ≡ ActorKind.user)
is_user_iff ActorKind.user = (λ e. refl, λ e. refl)
is_user_iff ActorKind.device = (λ e. absurd cc, λ e. absurd cc)
is_user_iff ActorKind.system = (λ e. absurd cc, λ e. absurd cc)

pub is_owner_iff : (r : Option Role) → (is_owner r ≡ true) ↔ (r ≡ some owner)
is_owner_iff none = (λ e. absurd cc, λ e. absurd cc)
is_owner_iff (some Role.owner) = (λ e. refl, λ e. refl)
is_owner_iff (some Role.staff) = (λ e. absurd cc, λ e. absurd cc)

pub is_staff_iff : (r : Option Role) → (is_staff r ≡ true) ↔ (r ≡ some staff)
is_staff_iff none = (λ e. absurd cc, λ e. absurd cc)
is_staff_iff (some Role.owner) = (λ e. absurd cc, λ e. absurd cc)
is_staff_iff (some Role.staff) = (λ e. refl, λ e. refl)

pub require_project_access_iff :
    (actor : Actor) (project_id : Uuid)
    → (is_ok (require_project_access actor project_id) ≡ true) ↔ MayAccess actor project_id
unfolding require_project_access MayAccess
require_project_access_iff actor project_id = (to, from)
  where
    to : is_ok (require_project_access actor project_id) ≡ true → MayAccess actor project_id
    to done = elim (Bool-cases (is_user actor.kind)) [
      | inr k ↦ absurd (cc (rw k at done))
      | inl k ↦ (
        (is_user_iff actor.kind).0 k,
        elim (Bool-cases (is_owner actor.role)) [
          | inl o ↦ inl ((is_owner_iff actor.role).0 o)
          | inr o ↦ elim (Bool-cases (is_staff actor.role)) [
            | inr s ↦ absurd (cc (rw (k, o, s) at done))
            | inl s ↦ elim (Bool-cases (contains project_id actor.project_ids)) [
              | inl m ↦ inr ((is_staff_iff actor.role).0 s, m)
              | inr m ↦ absurd (cc (rw (k, o, s, m) at done))
            ]
          ]
        ],
      )
    ]

    from : MayAccess actor project_id → is_ok (require_project_access actor project_id) ≡ true
    from (k, inl o) = rw (k, o) refl
    from (k, inr (s, m)) = rw (k, s, m) refl
