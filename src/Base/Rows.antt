-- ===== src/Base/Rows.antt =====
-- A database table as the list of its rows: a query for one row, an insert at the end, the
-- write of a row under its primary key, and `UPDATE … WHERE`.
use mathlib.Core.Path.{◌≡◌, refl, subst, ap}
use mathlib.Core.Logic.{◌≢◌, inl, inr}
use mathlib.Core.Bool.{Bool, true}
use mathlib.Core.Option.{Option, none, some}
use mathlib.Core.List.{List, [], ◌∷◌, ◌++◌}
use Prim.Native.Nat.{ℕ}
use native.Mathlib.Omega.{arith}
use super_boss.Base.Tests.{◌==◌, if◌then◌else◌, Bool-cases, if_either}
use super_boss.Base.Lists.{All, All-map_lem}

module _ {ℓ} {A : Type ℓ} where
  -- `select(T).where(p)`, its first row
  abbrev pub find_by : (A → Bool) → List A → Option A
  find_by p [] = none
  find_by p (x ∷ xs) = if p x then some x else find_by p xs

  -- what a flush writes for a changed row
  abbrev pub save : (A → ℕ) → A → List A → List A
  save key r [] = []
  save key r (x ∷ xs) = (if key x == key r then r else x) ∷ save key r xs

  -- `update(T).where(p).values(f)`
  abbrev pub update_where : (A → Bool) → (A → A) → List A → List A
  update_where p f [] = []
  update_where p f (x ∷ xs) = (if p x then f x else x) ∷ update_where p f xs

  abbrev pub or_else : Option A → Option A → Option A
  or_else (some a) o = some a
  or_else none o = o

  pub find_by-append :
      (p : A → Bool) (xs ys : List A) → find_by p (xs ++ ys) ≡ or_else (find_by p xs) (find_by p ys)
  find_by-append p [] ys = refl
  find_by-append p (x ∷ xs) ys = elim (Bool-cases (p x)) [
    | inl e ↦ rw e refl
    | inr e ↦ rw e (find_by-append p xs ys)
  ]

  -- What a query finds passes its test.
  pub find_by-holds : (p : A → Bool) (r : A) (xs : List A) → find_by p xs ≡ some r → p r ≡ true
  find_by-holds p r [] h = cc
  find_by-holds p r (x ∷ xs) h = ground (arith, find_by-holds p r xs)

  pub All-find_by {κ} :
      (P : A → Type κ) (p : A → Bool) (r : A) (xs : List A) → All P xs → find_by p xs ≡ some r → P r
  All-find_by P p r [] a h = cc
  All-find_by P p r (x ∷ xs) a h = elim (Bool-cases (p x)) [
    | inl e ↦ let same : x ≡ r = ground arith in subst P same a.0
    | inr e ↦ All-find_by P p r xs a.1 (rw e at h)
  ]

  -- A found row, written back with the property that it was found by, is found again.
  pub find_by-save :
      (key : A → ℕ) (p : A → Bool) (r r' : A) (xs : List A)
      → find_by p xs ≡ some r
      → key r' ≡ key r
      → p r' ≡ true
      → find_by p (save key r' xs) ≡ some r'
  find_by-save key p r r' [] h k t = cc
  find_by-save key p r r' (x ∷ xs) h k t = ground (arith, find_by-save key p r r' xs)

  -- A write under another key does not change what is found.
  pub find_by-save_other :
      (key : A → ℕ) (id : ℕ) (r : A) (xs : List A)
      → key r ≢ id
      → find_by (λ x. key x == id) (save key r xs) ≡ find_by (λ x. key x == id) xs
  find_by-save_other key id r [] other = refl
  find_by-save_other key id r (x ∷ xs) other = ground (arith, find_by-save_other key id r xs other)

  pub All-save {κ} :
      (P : A → Type κ) (key : A → ℕ) (r : A) (xs : List A) → P r → All P xs → All P (save key r xs)
  All-save P key r [] h a = tt
  All-save P key r (x ∷ xs) h a = (if_either P _ r x h a.0, All-save P key r xs h a.1)

  pub All-update_where {κ} :
      (P : A → Type κ) (p : A → Bool) (f : A → A) (xs : List A)
      → ((x : A) → P x → P (f x))
      → All P xs
      → All P (update_where p f xs)
  All-update_where P p f [] k a = tt
  All-update_where P p f (x ∷ xs) k a =
      (if_either P (p x) (f x) x (k x a.0) a.0, All-update_where P p f xs k a.1)

module _ {ℓ} {A : Type ℓ} where
  -- a unique constraint on a column
  abbrev pub IsUnique : (A → ℕ) → List A → Type 0
  IsUnique f [] = Unit
  IsUnique f (x ∷ xs) = All (λ y. f y ≢ f x) xs × IsUnique f xs

module _ {ℓ} {A : Type ℓ} (f key : A → ℕ) (v : ℕ) where
  -- Under the constraint, only the row that a query finds has the value that was asked for.
  pub find_by_unique :
      (r : A) (xs : List A)
      → IsUnique f xs
      → find_by (λ x. f x == v) xs ≡ some r
      → All (λ x. f x ≡ v → key x ≡ key r) xs
  find_by_unique r [] u h = tt
  find_by_unique r (x ∷ xs) u h = elim (Bool-cases (f x == v)) [
    | inl e ↦
        let same : x ≡ r = ground arith in
        (λ _. ap key same, All-map_lem _ _ (λ y ne eq. absurd (ne (ground arith))) xs u.0)
    | inr e ↦ (λ eq. absurd (ground arith), find_by_unique r xs u.1 (rw e at h))
  ]

  -- So a write under that row's key leaves no row with the value but the written one.
  pub All-save_unique {κ} :
      (P : A → Type κ) (r : A) (xs : List A)
      → All (λ x. f x ≡ v → key x ≡ key r) xs
      → P r
      → ((x : A) → f x ≢ v → P x)
      → All P (save key r xs)
  All-save_unique P r [] u p other = tt
  All-save_unique P r (x ∷ xs) u p other = (
    elim (Bool-cases (key x == key r)) as (λ _. P (if key x == key r then r else x)) [
      | inl e ↦ rw e p
      | inr e ↦ rw e (other x (λ eq. let same : key x ≡ key r = u.0 eq in absurd (ground arith)))
    ],
    All-save_unique P r xs u.1 p other,
  )
