-- ===== src/Connector/Updater/Replaced.antt =====
-- The executable is never lost.
use super_boss.Base.{◌≡◌, ◌⊎◌, refl, inl, inr, Bool, true, false, Option, none, some}
use super_boss.Base.Texts.{Text}
use super_boss.Core.Exec.{Result, ok, err}
use super_boss.Connector.Updater.{Installation, Success, move_target, replace_executable}

-- the new executable after a success; after a failure the old one, in its place or set aside
pub Kept : (old payload : Text) → Result (Unit {0}) × Installation → Type 0
Kept old payload (ok u, s) = s.target ≡ some payload
Kept old payload (err e, s) = (s.target ≡ some old) ⊎ (s.previous ≡ some old)

module _ (payload old : Text) (incoming : Option Text) where
  moved-Kept :
      (a b d e f : Bool)
      → Kept old payload (
          move_target
            (record {
              writes_incoming = a;
              unlinks_old_previous = b;
              moves_target = d;
              moves_incoming = e;
              unlinks_previous = f;
            })
            payload
            (some old)
            (record { target = some old; incoming = some payload; previous = none }))
  unfolding Kept
  moved-Kept a b true true true = refl
  moved-Kept a b true true false = refl
  moved-Kept a b true false f = inr refl
  moved-Kept a b false e f = inl refl

  replaced-Kept :
      (a b d e f : Bool) (previous : Option Text)
      → Kept old payload (
          replace_executable
            (record {
              writes_incoming = a;
              unlinks_old_previous = b;
              moves_target = d;
              moves_incoming = e;
              unlinks_previous = f;
            })
            payload
            (record { target = some old; incoming = incoming; previous = previous }))
  unfolding Kept replace_executable
  replaced-Kept false b d e f previous = inl refl
  replaced-Kept true b d e f none = moved-Kept true b d e f
  replaced-Kept true true d e f (some older) = moved-Kept true true d e f
  replaced-Kept true false d e f (some older) = inl refl

-- Where an executable is installed, a replacement that succeeds installs the new one, and one that
-- fails leaves the old one in its place or beside it under the name of the previous one.
pub replace_executable-Kept :
    (c : Success) (payload old : Text) (incoming previous : Option Text)
    → Kept old payload (
        replace_executable c payload
          (record { target = some old; incoming = incoming; previous = previous }))
replace_executable-Kept c payload old incoming previous =
    replaced-Kept payload old incoming c.writes_incoming c.unlinks_old_previous c.moves_target
      c.moves_incoming c.unlinks_previous previous
