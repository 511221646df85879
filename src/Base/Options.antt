-- ===== src/Base/Options.antt =====
-- Options in sequence: a chain of steps that may fail, and a step on every element of a list.
use mathlib.Core.Path.{◌≡◌, refl}
use mathlib.Core.Logic.{inl, inr}
use mathlib.Core.Option.{Option, none, some}
use mathlib.Core.List.{List, [], ◌∷◌, map}
use mathlib.Core.Bool.{Bool, true, false}
use super_boss.Base.Tests.{Option-cases}

infixl 5 ◌>>=◌ ◌>>◌
abbrev pub ◌>>=◌ : {A B : Type 0} → Option A → (A → Option B) → Option B
none >>= f = none
some a >>= f = f a

abbrev pub ◌>>◌ : {A B : Type 0} → Option A → Option B → Option B
m >> k = m >>= λ _. k

-- `if not b: raise ValueError`
abbrev pub require : Bool → Option (Unit {0})
require true = some tt
require false = none

abbrev pub put_first : {A : Type 0} → Option A → Option (List A) → Option (List A)
put_first none rest = none
put_first (some a) none = none
put_first (some a) (some rest) = some (a ∷ rest)

module _ {A B : Type 0} (f : A → Option B) where
  abbrev pub each : List A → Option (List B)
  each [] = some []
  each (a ∷ rest) = put_first (f a) (each rest)

module _ {A B : Type 0} (f : A → Option B) where
  -- the head and the tail of a list that passed
  pub each-cons :
      (x : A) (xs : List A) (ys : List B)
      → each f (x ∷ xs) ≡ some ys
      → (y : B) × (zs : List B) × (f x ≡ some y) × (each f xs ≡ some zs) × (ys ≡ y ∷ zs)
  each-cons x xs ys e = elim (Option-cases (f x)) [
    | inl a ↦ absurd (cc (rw a at e))
    | inr (y, a) ↦ elim (Option-cases (each f xs)) [
      | inl b ↦ absurd (cc (rw (a, b) at e))
      | inr (zs, b) ↦ (y, zs, a, b, cc (rw (a, b) at e))
    ]
  ]

  module _ {C : Type 0} (g : A → C) (h : B → C)
      (same : (x : A) (y : B) → f x ≡ some y → h y ≡ g x) where
    pub each-map : (xs : List A) (ys : List B) → each f xs ≡ some ys → map h ys ≡ map g xs
    each-map [] ys e = let it : [] ≡ ys = cc in rw⁻¹ it refl
    each-map (x ∷ xs) ys e =
        let (y, zs, a, b, c) = each-cons x xs ys e in rw (c, same x y a, each-map xs zs b) refl

  pub each-again :
      {r : B → Option B} (again : (x : A) (y : B) → f x ≡ some y → r y ≡ some y) (xs : List A)
      (ys : List B)
      → each f xs ≡ some ys
      → each r ys ≡ some ys
  each-again again [] ys e = let it : [] ≡ ys = cc in rw⁻¹ it refl
  each-again again (x ∷ xs) ys e =
      let (y, zs, a, b, c) = each-cons x xs ys e in
      rw (c, again x y a, each-again again xs zs b) refl
