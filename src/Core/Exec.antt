-- ===== src/Core/Exec.antt =====
-- Methods that read and write a state and may raise. What was written before a raise stays
-- written in the unit of work, so the state comes back beside the error too.
use mathlib.Core.Path.{◌≡◌, refl}
use mathlib.Core.Logic.{◌⊎◌, inl, inr}
use super_boss.Base.{Bool, true, false, Option, none, some, if◌then◌else◌}
use super_boss.Core.Errors.{Error}

pub data Result {ℓ} (A : Type ℓ) : Type ℓ where
  ok : A → Result A
  err : Error → Result A

pub Result-cases {ℓ} :
    {A : Type ℓ} (r : Result A) → ((a : A) × (r ≡ ok a)) ⊎ ((e : Error) × (r ≡ err e))
Result-cases (ok a) = inl (a, refl)
Result-cases (err e) = inr (e, refl)

pub ok-injective : {A : Type 0} (a b : A) → Result.ok a ≡ ok b → a ≡ b
ok-injective a b e = cc

abbrev pub is_ok {ℓ} : {A : Type ℓ} → Result A → Bool
is_ok (ok a) = true
is_ok (err e) = false

abbrev pub Exec : Type 0 → Type 0 → Type 0
Exec S A = S → Result A × S

module _ {S A : Type 0} where
  abbrev pub pure : A → Exec S A
  pure a s = (ok a, s)

  abbrev pub raise : Error → Exec S A
  raise e s = (err e, s)

  abbrev pub gets : (S → A) → Exec S A
  gets f s = (ok (f s), s)

  abbrev pub lift : Result A → Exec S A
  lift r s = (r, s)

  -- the value, or the exception for `None`
  abbrev pub or_raise : Option A → Error → Exec S A
  or_raise none e = raise e
  or_raise (some a) e = pure a

  abbrev pub rolled_back : S → Result A × S → Result A × S
  rolled_back s (ok a, s') = (ok a, s')
  rolled_back s (err e, s') = (err e, s)

  -- `async with session_factory() as session, session.begin()`: an exception rolls back
  abbrev pub transaction : Exec S A → Exec S A
  transaction m s = rolled_back s (m s)

  -- A transaction that succeeded has the effect of its body.
  pub transaction_done :
      (m : Exec S A) (s : S) → is_ok (transaction m s).0 ≡ true → transaction m s ≡ m s
  transaction_done m s done = go (m s) done
    where
      go : (r : Result A × S) → is_ok (rolled_back s r).0 ≡ true → rolled_back s r ≡ r
      go (ok a, t) h = refl
      go (err e, t) h = cc

module _ {S A B : Type 0} where
  abbrev pub and_then : (A → Exec S B) → Result A × S → Result B × S
  and_then f (ok a, s) = f a s
  and_then f (err e, s) = (err e, s)

  infixl 5 ◌>>=◌ ◌>>◌
  abbrev pub ◌>>=◌ : Exec S A → (A → Exec S B) → Exec S B
  ◌>>=◌ m f s = and_then f (m s)

  abbrev pub ◌>>◌ : Exec S A → Exec S B → Exec S B
  m >> k = m >>= λ _. k

module _ {S A B : Type 0} (f : A → B) where
  -- A method that ends by building a value from the last call's has that call's effect.
  pub state-pure : (m : Exec S A) (s : S) → ((m >>= λ a. pure (f a)) s).1 ≡ (m s).1
  state-pure m s = go (m s)
    where
      go : (r : Result A × S) → (and_then (λ a. pure (f a)) r).1 ≡ r.1
      go (ok a, t) = refl
      go (err e, t) = refl

  pub is_ok-pure : (m : Exec S A) (s : S) → is_ok ((m >>= λ a. pure (f a)) s).0 ≡ is_ok (m s).0
  is_ok-pure m s = go (m s)
    where
      go : (r : Result A × S) → is_ok (and_then (λ a. pure (f a)) r).0 ≡ is_ok r.0
      go (ok a, t) = refl
      go (err e, t) = refl

module _ {S : Type 0} where
  abbrev pub modify : (S → S) → Exec S (Unit {0})
  modify f s = (ok tt, f s)

  abbrev pub raise_if : Bool → Error → Exec S (Unit {0})
  raise_if b e s = (if b then err e else ok tt, s)

module _ {S A B : Type 0} where
  -- A chain that succeeded had its first method succeed.
  pub bind_done :
      (m : Exec S A) (f : A → Exec S B) (s : S) (b : B)
      → ((m >>= f) s).0 ≡ ok b
      → (a : A) × (t : S) × (m s ≡ (ok a, t)) × ((f a t).0 ≡ ok b)
  bind_done m f s b done = go (m s) refl done
    where
      go :
          (r : Result A × S)
          → m s ≡ r
          → (and_then f r).0 ≡ ok b
          → (a : A) × (t : S) × (m s ≡ (ok a, t)) × ((f a t).0 ≡ ok b)
      go (ok a, t) e h = (a, t, e, h)
      go (err x, t) e h = absurd cc
