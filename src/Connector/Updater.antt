-- ===== src/Connector/Updater.antt =====
-- updater.py: the replacement of the packaged executable. Each call of the file system succeeds or
-- not, as an argument says.
pub mod Replaced
use super_boss.Base.{Bool, true, false, Option, none, some, if◌then◌else◌}
use super_boss.Base.Texts.{Text}
use super_boss.Core.Errors.{connector_error, update_replace_failed}
use super_boss.Core.Exec.{Exec, ok, err}

-- the three files, by their bytes
pub record Installation : Type 0 where
  pub target : Option Text
  pub incoming : Option Text
  pub previous : Option Text

-- the calls of `replace_executable`, in their order
pub record Success : Type 0 where
  pub writes_incoming : Bool
  pub unlinks_old_previous : Bool
  pub moves_target : Bool
  pub moves_incoming : Bool
  pub unlinks_previous : Bool

-- `except OSError`, where the removal of the new file is taken to succeed
abbrev failed : Exec Installation (Unit {0})
failed s = (err (connector_error 2 update_replace_failed), record s { incoming = none })

-- `previous.unlink(missing_ok=True)`, whose error is dropped
abbrev cleaned : Bool → Exec Installation (Unit {0})
cleaned true s = (ok tt, record s { previous = none })
cleaned false s = (ok tt, s)

abbrev move_incoming : Success → Text → Exec Installation (Unit {0})
move_incoming c payload s =
    let s' = record s { target = some payload; incoming = none } in
    if c.moves_incoming then cleaned c.unlinks_previous s' else failed s

-- `if target.exists(): target.replace(previous)`
abbrev move_target : Success → Text → Option Text → Exec Installation (Unit {0})
move_target c payload none s = move_incoming c payload s
move_target c payload (some old) s =
    let s' = record s { target = none; previous = some old } in
    if c.moves_target then move_incoming c payload s' else failed s

-- `if previous.exists(): previous.unlink()`
abbrev unlink_previous : Success → Text → Option Text → Exec Installation (Unit {0})
unlink_previous c payload none s = move_target c payload s.target s
unlink_previous c payload (some older) s =
    let s' = record s { previous = none } in
    if c.unlinks_old_previous then move_target c payload s'.target s' else failed s

pub replace_executable : Success → Text → Exec Installation (Unit {0})
replace_executable c payload s =
    let s' = record s { incoming = some payload } in
    if c.writes_incoming then unlink_previous c payload s'.previous s' else failed s
