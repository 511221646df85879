-- ===== src/Base/Strip.antt =====
-- `str.strip` with a set of characters.
use Prim.Native.Nat.{ℕ, suc, ◌≤◌}
use mathlib.Core.Path.{◌≡◌, refl, ap, ◌∙◌}
use mathlib.Core.Logic.{inl, inr}
use mathlib.Core.Bool.{Bool, false}
use mathlib.Core.List.{[], ◌∷◌}
use native.Mathlib.Omega.{arith}
use super_boss.Base.Tests.{if◌then◌else◌, if_either, Bool-cases}
use super_boss.Base.Lists.{All, length}
use super_boss.Base.Texts.{Text}

module _ (is_edge : ℕ → Bool) where
  abbrev pub strip_left : Text → Text
  strip_left [] = []
  strip_left (c ∷ s) = let rest = strip_left s in if is_edge c then rest else c ∷ s

  abbrev pub keep_left : ℕ → Text → Text
  keep_left c [] = if is_edge c then [] else c ∷ []
  keep_left c (d ∷ s) = c ∷ d ∷ s

  abbrev pub strip_right : Text → Text
  strip_right [] = []
  strip_right (c ∷ s) = keep_left c (strip_right s)

  abbrev pub strip : Text → Text
  strip s = strip_right (strip_left s)

  abbrev pub StartsWell : Text → Type 0
  StartsWell [] = Unit
  StartsWell (c ∷ s) = is_edge c ≡ false

  abbrev pub EndsWell : Text → Type 0
  EndsWell [] = Unit
  EndsWell (c ∷ []) = is_edge c ≡ false
  EndsWell (c ∷ d ∷ s) = EndsWell (d ∷ s)

  strip_left-StartsWell : (s : Text) → StartsWell (strip_left s)
  strip_left-StartsWell [] = tt
  strip_left-StartsWell (c ∷ s) =
      elim (Bool-cases (is_edge c))
        as (λ _. StartsWell (if is_edge c then strip_left s else c ∷ s)) [
          | inl e ↦ rw e (strip_left-StartsWell s)
          | inr e ↦ rw e e
        ]

  strip_right-StartsWell : (s : Text) → StartsWell s → StartsWell (strip_right s)
  strip_right-StartsWell [] h = tt
  strip_right-StartsWell (c ∷ s) h = kept (strip_right s)
    where
      kept : (r : Text) → StartsWell (keep_left c r)
      kept [] = if_either StartsWell (is_edge c) [] (c ∷ []) tt h
      kept (d ∷ r) = h

  strip_right-EndsWell : (s : Text) → EndsWell (strip_right s)
  strip_right-EndsWell [] = tt
  strip_right-EndsWell (c ∷ s) = kept (strip_right s) (strip_right-EndsWell s)
    where
      kept : (r : Text) → EndsWell r → EndsWell (keep_left c r)
      kept [] k =
          elim (Bool-cases (is_edge c)) as (λ _. EndsWell (if is_edge c then [] else c ∷ [])) [
            | inl e ↦ rw e tt
            | inr e ↦ rw e e
          ]
      kept (d ∷ r) k = k

  -- Neither end of a stripped text is stripped again.
  pub strip-StartsWell : (s : Text) → StartsWell (strip s)
  strip-StartsWell s = strip_right-StartsWell (strip_left s) (strip_left-StartsWell s)

  pub strip-EndsWell : (s : Text) → EndsWell (strip s)
  strip-EndsWell s = strip_right-EndsWell (strip_left s)

  strip_left-fixed : (s : Text) → StartsWell s → strip_left s ≡ s
  strip_left-fixed [] h = refl
  strip_left-fixed (c ∷ s) h = rw h refl

  strip_right-fixed : (s : Text) → EndsWell s → strip_right s ≡ s
  strip_right-fixed [] h = refl
  strip_right-fixed (c ∷ []) h = rw h refl
  strip_right-fixed (c ∷ d ∷ s) h = ap (keep_left c) (strip_right-fixed (d ∷ s) h)

  pub strip-strip : (s : Text) → strip (strip s) ≡ strip s
  strip-strip s =
      ap strip_right (strip_left-fixed (strip s) (strip-StartsWell s))
      ∙ strip_right-fixed (strip s) (strip-EndsWell s)

  -- What holds of every character of a text holds of the stripped one.
  pub strip-All {κ} : (P : ℕ → Type κ) (s : Text) → All P s → All P (strip s)
  strip-All P s h = right (strip_left s) (left s h)
    where
      left : (t : Text) → All P t → All P (strip_left t)
      left [] k = tt
      left (c ∷ t) k = if_either (All P) (is_edge c) (strip_left t) (c ∷ t) (left t k.1) k

      kept : (c : ℕ) (r : Text) → P c → All P r → All P (keep_left c r)
      kept c [] p k = if_either (All P) (is_edge c) [] (c ∷ []) tt (p, tt)
      kept c (d ∷ r) p k = (p, k)

      right : (t : Text) → All P t → All P (strip_right t)
      right [] k = tt
      right (c ∷ t) k = kept c (strip_right t) k.0 (right t k.1)

  pub length-strip-le : (s : Text) → length (strip s) ≤ length s
  length-strip-le s = omega (arith, right (strip_left s), left s)
    where
      left : (t : Text) → length (strip_left t) ≤ length t
      left [] = omega arith
      left (c ∷ t) =
          if_either (λ r. length r ≤ suc (length t)) (is_edge c) (strip_left t) (c ∷ t)
            (omega (arith, left t)) (omega arith)

      kept : (c : ℕ) (r : Text) → length (keep_left c r) ≤ suc (length r)
      kept c [] = if_either (λ t. length t ≤ 1) (is_edge c) [] (c ∷ []) (omega arith) (omega arith)
      kept c (d ∷ r) = omega arith

      right : (t : Text) → length (strip_right t) ≤ length t
      right [] = omega arith
      right (c ∷ t) = omega (arith, kept c (strip_right t), right t)
