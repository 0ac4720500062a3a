-- ===== src/Worker/Action/Returns.antt =====
-- What an action may return: one rule for each way to build an action.
use hovorun_v.Prelude.{
  ◌≡◌, Bool, true, false, if◌then◌else◌, Option, none, some, Error, Result, ok, err, ok-injective,
}
use mathlib.Core.Path.{subst}
use hovorun_v.Worker.Action.{
  Action, pure, raise, ◌>>=◌, unless_none, catching, resume, recover_from,
}

-- Every value that the action returns satisfies the predicate.
pub record Returns {ℓ} {S A : Type ℓ} (C : A → Type ℓ) (m : Action S A) : Type ℓ where
  pub at : (s : S) (a : A) → (m s).0 ≡ ok a → C a

module _ {ℓ} {S A : Type ℓ} {C : A → Type ℓ} where
  pub pure-Returns : (a : A) → C a → Returns {S = S} C (pure a)
  unfolding pure
  pure-Returns a c = record { at = λ s b h. subst C (ok-injective h) c }

  pub raise-Returns : (e : Error) → Returns {S = S} C (raise e)
  unfolding raise
  raise-Returns e = record { at = λ s b h. cc }

  pub if-Returns :
      (b : Bool) (m n : Action S A) → Returns C m → Returns C n → Returns C (if b then m else n)
  if-Returns true m n km kn = km
  if-Returns false m n km kn = kn

module _ {ℓ} {S A B : Type ℓ} {C : B → Type ℓ} where
  resumed :
      (r : Result A) (next : A → Action S B) (s : S) (b : B)
      → ((a : A) → Returns C (next a))
      → (resume r next s).0 ≡ ok b
      → C b
  resumed (ok a) next s b k h = (k a).at s b h
  resumed (err e) next s b k h = cc

  pub bind-Returns :
      (m : Action S A) (next : A → Action S B)
      → ((a : A) → Returns C (next a))
      → Returns C (m >>= next)
  unfolding ◌>>=◌
  bind-Returns m next k = record { at = λ s b h. let (r, s') = m s in resumed r next s' b k h }

  pub unless_none-Returns :
      (x : Option A) (m : Action S B) (next : A → Action S B)
      → Returns C m
      → ((a : A) → Returns C (next a))
      → Returns C (unless_none x m next)
  unfolding unless_none
  unless_none-Returns none m next km k = km
  unless_none-Returns (some a) m next km k = k a

module _ {ℓ} {S A : Type ℓ} {C : A → Type ℓ} where
  recovered :
      (r : Result A) (handler : Error → Action S A) (s : S) (b : A)
      → ((a : A) → r ≡ ok a → C a)
      → ((e : Error) → Returns C (handler e))
      → (recover_from r handler s).0 ≡ ok b
      → C b
  recovered (ok a) handler s b c k h = c b h
  recovered (err e) handler s b c k h = (k e).at s b h

  pub catching-Returns :
      (m : Action S A) (handler : Error → Action S A)
      → Returns C m
      → ((e : Error) → Returns C (handler e))
      → Returns C (catching m handler)
  unfolding catching
  catching-Returns m handler km k = record {
    at = λ s b h. let (r, s') = m s in recovered r handler s' b (km.at s) k h;
  }

pub ruleset returns_rules =
    (pure-Returns, raise-Returns, if-Returns, bind-Returns, unless_none-Returns, catching-Returns)
