-- ===== src/Projects/Service/Visibility.antt =====
-- Who sees which projects.
use mathlib.Core.List.{Memᴰ}
use mathlib.Core.List.Memᴰ
use super_boss.Base.{◌≡◌, ◌⊎◌, Bool, some, List, ◌&&◌, Uuid, ◌==◌}
use super_boss.Core.Actors.{owner, staff}
use super_boss.Core.Directory.{Project, ProjectMember, Directory}
use super_boss.Projects.Service.{Call}

-- every project for the OWNER, and for STAFF those with a row of membership
pub Sees : Call → Directory → Project → Type 0
Sees c d p =
    (c.actor.role ≡ some owner)
    ⊎ ((c.actor.role ≡ some staff)
        × (m : ProjectMember) × Memᴰ m d.members
        × (m.project_id ≡ p.id)
        × (m.user_id ≡ c.actor.subject_id))

abbrev Membership : Uuid → Uuid → List ProjectMember → Type 0
Membership project_id user_id members =
    (m : ProjectMember) × Memᴰ m members × (m.project_id ≡ project_id) × (m.user_id ≡ user_id)

abbrev joins : Uuid → Uuid → ProjectMember → Bool
joins project_id user_id m = m.project_id == project_id && m.user_id == user_id
