-- ===== src/Tests/Users.antt =====
-- The theorems about accounts and projects at an OWNER, one STAFF account and two projects.
use super_boss.Base.{◌≡◌, refl, true, false, none, some, List, [], ◌∷◌}
use super_boss.Core.Actors.{ActorKind, owner, staff}
use super_boss.Core.Directory.{
  User, UserStatus, SessionKind, Project, ProjectStatus, Directory, get_user,
}
use super_boss.Users.Service.{
  Request, StaffUpdate, update_staff, staff_for_update, require_owner_actor,
}
use super_boss.Users.Service.Protection.{Operation, run, owner_kept}
use super_boss.Users.Service.Disabled.{Disabled, disabled_signed_out}
use super_boss.Projects.Service.{Call}
use super_boss.Tests.Toy.{toy}

abbrev owner_row : User
owner_row = record {
  id = 1;
  username = "boss";
  display_name = "Boss";
  password_hash = 0;
  must_change_password = false;
  password_changed_at = 0;
  failed_login_count = 0;
  locked_until = none;
  role = owner;
  status = UserStatus.active;
  last_login_at = none;
}

abbrev directory : Directory
directory = record {
  users = owner_row ∷ record owner_row { id = 2; username = "clerk"; role = staff } ∷ [];
  sessions =
      record {
        id = 3;
        kind = SessionKind.user;
        user_id = some 2;
        device_id = none;
        access_jti = "j";
        refresh_token_hash = 4;
        access_expires_at = 100;
        refresh_expires_at = 200;
        refresh_used_at = none;
        revoked_at = none;
        created_at = 5;
      }
      ∷ [];
  projects =
      record { id = 5; name = "a"; is_test = false; status = ProjectStatus.active }
      ∷ record { id = 6; name = "b"; is_test = false; status = ProjectStatus.active }
      ∷ [];
  members = record { project_id = 6; user_id = 2 } ∷ [];
  audit = [];
}

abbrev as_owner : Request
as_owner = record {
  actor = record {
    kind = ActorKind.user;
    subject_id = 1;
    role = some owner;
    project_ids = [];
    scopes = [];
  };
  request_id = 50;
  audited = true;
  before = λ s t. false;
}

abbrev disable : StaffUpdate
disable = record { display_name = none; status = some UserStatus.disabled }

owner_kept_example :
    get_user 1 (
      run toy
        ((as_owner, Operation.update 1 disable 9) ∷ (as_owner, Operation.update 2 disable 9) ∷ [])
        directory)
    ≡ some owner_row
owner_kept_example =
    owner_kept toy
      ((as_owner, Operation.update 1 disable 9) ∷ (as_owner, Operation.update 2 disable 9) ∷ [])
      directory 1 owner_row refl refl

disabled_signed_out_example : Disabled toy 2 (update_staff toy as_owner 2 disable 9 directory).1
unfolding update_staff staff_for_update require_owner_actor
disabled_signed_out_example = disabled_signed_out toy as_owner 2 none 9 directory refl

abbrev clerk_call : Call
clerk_call = record {
  actor = record {
    kind = ActorKind.user;
    subject_id = 2;
    role = some staff;
    project_ids = 6 ∷ [];
    scopes = [];
  };
  request_id = none;
  audited = true;
  before = λ s t. false;
  lower = λ s. s;
}

abbrev listed : List Project
listed = record { id = 6; name = "b"; is_test = false; status = ProjectStatus.active } ∷ []

abbrev shared : Project
shared = record { id = 6; name = "b"; is_test = false; status = ProjectStatus.active }
