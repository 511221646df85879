-- ===== src/Base/Chunks.antt =====
-- A list cut into pieces of at most `n` elements, as `range(0, len(xs), n)` and a reader that
-- returns `n` at a time do. The length of the list is fuel enough.
use Prim.Native.Nat.{ℕ, zero, suc, ◌≤◌}
use mathlib.Core.Path.{◌≡◌, refl, ap}
use mathlib.Core.List.{List, [], ◌∷◌, ◌++◌}
use native.Mathlib.Omega.{arith}
use super_boss.Base.Lists.{length, take, drop, All, take-append-drop, length-take-le}

module _ {A : Type 0} where
  abbrev pub concat : List (List A) → List A
  concat [] = []
  concat (xs ∷ rest) = xs ++ concat rest

  -- `fuel` bounds the number of pieces.
  abbrev pub chunks_from : (fuel n : ℕ) → List A → List (List A)
  chunks_from zero n xs = []
  chunks_from (suc fuel) n [] = []
  chunks_from (suc fuel) n (x ∷ xs) = take n (x ∷ xs) ∷ chunks_from fuel n (drop n (x ∷ xs))

  abbrev pub chunks : ℕ → List A → List (List A)
  chunks n xs = chunks_from (length xs) n xs

  length-drop-le : (n : ℕ) (xs : List A) → length (drop n xs) ≤ length xs
  length-drop-le zero xs = omega arith
  length-drop-le (suc n) [] = omega arith
  length-drop-le (suc n) (x ∷ xs) = omega (arith, length-drop-le n xs)

  pub concat-chunks_from :
      (fuel n : ℕ) (xs : List A) → 1 ≤ n → length xs ≤ fuel → concat (chunks_from fuel n xs) ≡ xs
  concat-chunks_from zero n [] p h = refl
  concat-chunks_from zero n (x ∷ xs) p h = absurd (omega arith)
  concat-chunks_from (suc fuel) n [] p h = refl
  concat-chunks_from (suc fuel) zero (x ∷ xs) p h = absurd (omega arith)
  concat-chunks_from (suc fuel) (suc n) (x ∷ xs) p h =
      rw (concat-chunks_from fuel (suc n) (drop n xs) p (omega (arith, length-drop-le n xs, h)))
        (ap (◌∷◌ x) (take-append-drop n xs))

  -- The pieces in order are the list.
  pub concat-chunks : (n : ℕ) (xs : List A) → 1 ≤ n → concat (chunks n xs) ≡ xs
  concat-chunks n xs p = concat-chunks_from (length xs) n xs p (omega arith)

  unfoldable pub Fits : ℕ → List A → Type 0
  Fits n piece = (1 ≤ length piece) × (length piece ≤ n)

  chunks_from-Fits : (fuel n : ℕ) (xs : List A) → 1 ≤ n → All (Fits n) (chunks_from fuel n xs)
  unfolding Fits
  chunks_from-Fits zero n xs p = tt
  chunks_from-Fits (suc fuel) n [] p = tt
  chunks_from-Fits (suc fuel) zero (x ∷ xs) p = absurd (omega arith)
  chunks_from-Fits (suc fuel) (suc n) (x ∷ xs) p =
      ((omega arith, length-take-le (suc n) (x ∷ xs)), chunks_from-Fits fuel (suc n) (drop n xs) p)

  -- No piece is empty, and none has more than `n` elements.
  pub chunks-Fits : (n : ℕ) (xs : List A) → 1 ≤ n → All (Fits n) (chunks n xs)
  chunks-Fits n xs = chunks_from-Fits (length xs) n xs
