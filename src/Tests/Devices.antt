-- ===== src/Tests/Devices.antt =====
-- The theorems about devices at one pairing code and one device.
use super_boss.Base.{ℕ, ◌≡◌, ◌≢◌, refl, false, none, some, [], ◌∷◌, ltb, hours, minutes}
use super_boss.Base.Texts.{Text, codes}
use super_boss.Core.Exec.{is_ok}
use super_boss.Core.Actors.{ActorKind, Role}
use super_boss.Core.Directory.{User, UserStatus, ProjectStatus, AuditLog, AuthSession, SessionKind}
use super_boss.Base.Rows.{find_by}
use super_boss.Audit.{write_audit, same_event, has_key}
use super_boss.Audit.Events.{SameEvent, IsDict}
use super_boss.Audit.Keys.{Answered, written_once}
use super_boss.Devices.Tables.{DeviceTables, DeviceConnection}
use super_boss.Devices.Tokens.{scope_texts, issue_device_access_token, decode_device_access_token}
use super_boss.Core.Platform.{text, texts, date}
use super_boss.Devices.Service.{
  DeviceTools, DeviceDraw, revoke, require_active_owner, write_event, audit_event,
  normalize_device_name, credential_hash, new_session,
}
use super_boss.Devices.Pairing.{pair, redeem_code}
use super_boss.Devices.Pairing.Once.{paired_once}
use super_boss.Devices.Access.{authenticate_device_token, read_device_claims}
use super_boss.Devices.Access.Revoked.{revoked_refused}
use super_boss.Tests.Toy.{toy, digest, Signed}

abbrev event : AuditLog
event = record {
  actor_kind = ActorKind.system;
  actor_id = none;
  action = "device.pair";
  object_type = "device";
  object_id = some 3;
  project_id = none;
  outcome = "DENIED";
  metadata = [];
  request_id = some 4;
  event_key = some 8;
}

abbrev denied_again : AuditLog
denied_again = record event { actor_kind = ActorKind.user }

written_once_example :
    (existing : AuditLog) × (find_by (has_key (some 8)) (event ∷ []) ≡ some existing)
    × SameEvent existing event
    × Answered existing denied_again (event ∷ [])
unfolding write_audit same_event IsDict
written_once_example = written_once event denied_again [] (event ∷ []) refl tt refl refl

abbrev tools : DeviceTools
tools = record { jwt_secret = "key"; uuid5 = digest; nfkc = λ t. t; is_other = λ c. ltb c 32 }

abbrev boss : User
boss = record {
  id = 1;
  username = "boss";
  display_name = "Boss";
  password_hash = 0;
  must_change_password = false;
  password_changed_at = 0;
  failed_login_count = 0;
  locked_until = none;
  role = Role.owner;
  status = UserStatus.active;
  last_login_at = none;
}

abbrev code : Text
code = codes "abcdefghijklmnopqrstuvwxyz0123456789"

abbrev device_of : ℕ → DeviceConnection
device_of n = record {
  id = n;
  owner_id = 1;
  name = codes "laptop";
  paired_at = 0;
  last_used_at = none;
  revoked_at = none;
}

abbrev open_session : AuthSession
open_session = record {
  id = 7;
  kind = SessionKind.device;
  user_id = none;
  device_id = some 4;
  access_jti = toy.uuid_text 9;
  refresh_token_hash = 0;
  access_expires_at = hours 2;
  refresh_expires_at = hours 200;
  refresh_used_at = none;
  revoked_at = none;
  created_at = 0;
}

abbrev tables : DeviceTables
tables = record {
  users = boss ∷ [];
  projects = record { id = 5; name = "p"; is_test = false; status = ProjectStatus.active } ∷ [];
  pairing_codes =
      record {
        id = 6;
        owner_id = 1;
        code_hash = digest code;
        expires_at = hours 1;
        used_at = none;
        created_at = 0;
      }
      ∷ [];
  pairing_projects = record { pairing_code_id = 6; project_id = 5 } ∷ [];
  devices = device_of 3 ∷ device_of 4 ∷ [];
  project_grants = [];
  scope_grants = [];
  sessions = open_session ∷ [];
  audit = [];
}

abbrev draw : DeviceDraw
draw = record { refresh = codes "r"; session_id = 12; access_jti = 13 }

paired_once_example :
    is_ok
      (pair toy tools code
        (codes "tablet")
        11
        21
        (minutes 2)
        draw
        (pair toy tools code (codes "phone") 10 20 (minutes 1) draw tables).1).0
    ≡ false
unfolding pair normalize_device_name credential_hash redeem_code new_session write_event audit_event
    write_audit issue_device_access_token
paired_once_example =
    paired_once toy tools code (codes "phone") (codes "tablet") 10 11 20 21 (minutes 1) (minutes 2)
      draw draw tables refl

abbrev token : Signed
token = (
  "key",
  ("sub", text (toy.uuid_text 4))
      ∷ ("device_id", text (toy.uuid_text 4))
      ∷ ("owner_id", text (toy.uuid_text 1))
      ∷ ("scopes", texts scope_texts)
      ∷ ("session_id", text (toy.uuid_text 7))
      ∷ ("iat", date 0)
      ∷ ("exp", date (hours 2))
      ∷ ("jti", text (toy.uuid_text 9))
      ∷ [],
)

abbrev other_device : ℕ
other_device = 4

revoked_refused_example : other_device ≢ 3
unfolding revoke require_active_owner write_event audit_event write_audit authenticate_device_token
    read_device_claims decode_device_access_token
revoked_refused_example =
    revoked_refused toy tools 1 3 20 (minutes 1) (minutes 2) token tables
      (record {
        kind = ActorKind.device;
        subject_id = other_device;
        role = none;
        project_ids = [];
        scopes = [];
      })
      refl refl
