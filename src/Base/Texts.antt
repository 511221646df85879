-- ===== src/Base/Texts.antt =====
-- Text as a list of code points, with the operations of Python's `str` that the program uses.
use Prim.Native.Nat.{ℕ, zero, suc, ◌+◌, ◌*◌, ◌/◌, ◌%◌, ◌-◌, ◌<◌, ◌≤◌}
use Prim.Native.Char.{code}
use Prim.Native.String.{String}
use mathlib.Core.Path.{◌≡◌, refl, ap, ◌∙◌}
use mathlib.Core.Logic.{inl, inr}
use mathlib.Core.Bool.{Bool, true, false, ◌&&◌}
use mathlib.Core.List.{List, [], ◌∷◌, ◌++◌}
use native.Mathlib.Omega.{arith}
use super_boss.Base.Lists.{All, length}
use super_boss.Base.Tests.{◌==◌, ltb, if◌then◌else◌, Bool-cases}

abbrev pub Text : Type 0
Text = List ℕ

-- The code points of a fixed text.
abbrev pub codes : String → Text
codes String.[] = []
codes (String.◌∷◌ c s) = code c ∷ codes s

abbrev pub text_eq : Text → Text → Bool
text_eq [] [] = true
text_eq (c ∷ s) (d ∷ t) = c == d && text_eq s t
text_eq _ _ = false

pub text_eq-eq : (s t : Text) → text_eq s t ≡ true → s ≡ t
text_eq-eq [] [] h = refl
text_eq-eq [] (d ∷ t) h = cc
text_eq-eq (c ∷ s) [] h = cc
text_eq-eq (c ∷ s) (d ∷ t) h = ground (arith, text_eq-eq s t)

pub text_eq_refl : (s : Text) → text_eq s s ≡ true
text_eq_refl [] = refl
text_eq_refl (c ∷ s) = ground (arith, text_eq_refl s)

-- `value or fallback`
abbrev pub text_or : Text → Text → Text
text_or [] t = t
text_or (c ∷ s) t = c ∷ s

module _ {κ} (P : ℕ → Type κ) where
  pub All-text_or : (s t : Text) → All P s → All P t → All P (text_or s t)
  All-text_or [] t h k = k
  All-text_or (c ∷ s) t h k = h

pub length-text_or : (s t : Text) → 1 ≤ length t → 1 ≤ length (text_or s t)
length-text_or [] t h = h
length-text_or (c ∷ s) t h = omega arith

-- `separator.join(parts)`
abbrev pub join : Text → List Text → Text
join separator [] = []
join separator (t ∷ []) = t
join separator (t ∷ u ∷ rest) = t ++ (separator ++ join separator (u ∷ rest))

-- `str(n)`, digit by digit from the right; the fuel is above `n`.
pub decimal_digits : ℕ → ℕ → Text → Text
decimal_digits zero n done = done
decimal_digits (suc f) n done =
    let rest = decimal_digits f (n / 10) ((48 + n % 10) ∷ done) in
    if ltb n 10 then (48 + n) ∷ done else rest

pub decimal : ℕ → Text
unfolding decimal_digits
decimal n = decimal_digits (suc n) n []

-- the number that digits stand for, behind one that was already read
abbrev pub read_from : ℕ → Text → ℕ
read_from n [] = n
read_from n (c ∷ s) = read_from (n * 10 + (c - 48)) s

decimal_digits_read :
    (f n : ℕ) (done : Text) → n < f → read_from 0 (decimal_digits f n done) ≡ read_from n done
unfolding decimal_digits
decimal_digits_read zero n done h = absurd (omega arith)
decimal_digits_read (suc f) n done h = elim (Bool-cases (ltb n 10)) [
  | inl small ↦ rw small (ap (λ k. read_from k done) (omega arith))
  | inr large ↦ rw large (
      decimal_digits_read f (n / 10) ((48 + n % 10) ∷ done) (ground arith)
      ∙ ap (λ k. read_from k done) (omega arith))
]

-- Reading the decimal text of a number gives the number back.
pub read-decimal : (n : ℕ) → read_from 0 (decimal n) ≡ n
unfolding decimal
read-decimal n = decimal_digits_read (suc n) n [] (omega arith)
