-- ===== src/Connector/Cli/Logs.antt =====
-- What an action of a run may call, and what it returns, by the ways to build one.
use super_boss.Base.{◌≡◌, refl, sym, ap, ◌∙◌, Bool, true, false, List, [], ◌∷◌, ◌++◌}
use mathlib.Core.List.{append-nil, append_assoc}
use super_boss.Base.Lists.{All, All-append, All-map_lem}
use super_boss.Core.Exec.{Exec, Result, ok, err, and_then, lift, pure, raise, raise_if, ◌>>=◌}
use super_boss.Core.Errors.{Error}
use super_boss.Connector.Store.{OriginDir}
use super_boss.Connector.Cli.{Call, Run, log, stored}

-- the calls of a run, after those that were logged before it
unfoldable pub Logged : (Call → Type 0) → Run → Run → Type 0
Logged P r s = (new : List Call) × (s.calls ≡ r.calls ++ new) × All P new

Logged-refl : (P : Call → Type 0) (r s : Run) → s.calls ≡ r.calls → Logged P r s
unfolding Logged
Logged-refl P r s same = ([], same ∙ sym (append-nil r.calls), tt)

Logged-trans : (P : Call → Type 0) (r s t : Run) → Logged P r s → Logged P s t → Logged P r t
unfolding Logged
Logged-trans P r s t (new, same, all) (more, again, rest) = (
  new ++ more,
  again ∙ ap (λ cs. cs ++ more) same ∙ append_assoc r.calls new more,
  All-append P new more all rest,
)

-- Every call is logged under `P`, and what is returned passes `Q`.
unfoldable pub Outcome :
    {A : Type 0} (P : Call → Type 0) (Q : A → Type 0) → Run → Result A × Run → Type 0
Outcome P Q r (ok a, s) = Logged P r s × Q a
Outcome P Q r (err e, s) = Logged P r s

module _ {A B : Type 0} where
  pub Outcome-bind :
      (P : Call → Type 0) (Q : A → Type 0) (R : B → Type 0) (m : Exec Run A) (f : A → Exec Run B)
      → ((r : Run) → Outcome P Q r (m r))
      → ((a : A) → Q a → (r : Run) → Outcome P R r (f a r))
      → (r : Run) → Outcome P R r ((m >>= f) r)
  unfolding Outcome
  Outcome-bind P Q R m f hm hf r = go (m r) (hm r)
    where
      go : (o : Result A × Run) → Outcome P Q r o → Outcome P R r (and_then f o)
      go (ok a, s) (l, q) = after (f a s) (hf a q s)
        where
          after : (o : Result B × Run) → Outcome P R s o → Outcome P R r o
          after (ok b, t) (k, h) = (Logged-trans P r s t l k, h)
          after (err e, t) k = Logged-trans P r s t l k
      go (err e, s) l = l

pub Outcome-log :
    (P : Call → Type 0) (c : Call)
    → P c
    → (r : Run) → Outcome P (λ (u : Unit {0}). Unit {0}) r (log c r)
unfolding Outcome Logged
Outcome-log P c h r = ((c ∷ [], refl, (h, tt)), tt)

pub Outcome-lift :
    {A : Type 0} (P : Call → Type 0) (x : Result A) (r : Run)
    → Outcome P (λ a. x ≡ ok a) r (lift x r)
unfolding Outcome
Outcome-lift P (ok a) r = (Logged-refl P r r refl, refl)
Outcome-lift P (err e) r = Logged-refl P r r refl

pub Outcome-pure :
    {A : Type 0} (P : Call → Type 0) (Q : A → Type 0) (a : A)
    → Q a
    → (r : Run) → Outcome P Q r (pure a r)
unfolding Outcome
Outcome-pure P Q a h r = (Logged-refl P r r refl, h)

module _ {A : Type 0} where
  pub Outcome-stored :
      (P : Call → Type 0) (m : Exec OriginDir A) (r : Run)
      → Outcome P (λ a. Unit {0}) r (stored m r)
  unfolding Outcome
  Outcome-stored P m r = go (m r.dir)
    where
      go : (o : Result A × OriginDir) → Outcome P (λ a. Unit {0}) r (o.0, record r { dir = o.1 })
      go (ok a, d) = (Logged-refl P r _ refl, tt)
      go (err e, d) = Logged-refl P r _ refl

Logged-map :
    (P Q : Call → Type 0) → ((c : Call) → P c → Q c) → (r s : Run) → Logged P r s → Logged Q r s
unfolding Logged
Logged-map P Q f r s (new, same, all) = (new, same, All-map_lem P Q f new all)

pub Outcome-raise_if :
    (P : Call → Type 0) (b : Bool) (e : Error) (r : Run)
    → Outcome P (λ (u : Unit {0}). Unit {0}) r (raise_if b e r)
unfolding Outcome
Outcome-raise_if P true e r = Logged-refl P r r refl
Outcome-raise_if P false e r = (Logged-refl P r r refl, tt)

module _ {A : Type 0} where
  pub Outcome-map :
      (P P' : Call → Type 0) (Q Q' : A → Type 0)
      → ((c : Call) → P c → P' c)
      → ((a : A) → Q a → Q' a)
      → (r : Run) (o : Result A × Run) → Outcome P Q r o
      → Outcome P' Q' r o
  unfolding Outcome
  Outcome-map P P' Q Q' f g r (ok a, s) (l, q) = (Logged-map P P' f r s l, g a q)
  Outcome-map P P' Q Q' f g r (err e, s) l = Logged-map P P' f r s l

  pub Outcome-raise :
      (P : Call → Type 0) (Q : A → Type 0) (e : Error) (r : Run) → Outcome P Q r (raise e r)
  unfolding Outcome
  Outcome-raise P Q e r = Logged-refl P r r refl
