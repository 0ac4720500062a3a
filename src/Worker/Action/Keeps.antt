-- ===== src/Worker/Action/Keeps.antt =====
-- Invariants of actions: one rule for each way to build an action.
use hovorun_v.Prelude.{
  ◌≡◌, refl, Bool, true, false, if◌then◌else◌, Option, none, some, Error, Result, ok, err,
}
use hovorun_v.Worker.Action.{
  Action, pure, raise, lift, ◌>>=◌, unless_none, catching, resume, recover_from,
}

-- Whether it returns or raises, the action leaves a state that satisfies the invariant.
pub record Keeps {ℓ} {S A : Type ℓ} (P : S → Type ℓ) (m : Action S A) : Type ℓ where
  pub at : (s : S) → P s → P (m s).1

module _ {ℓ} {S A : Type ℓ} {P : S → Type ℓ} where
  pub pure-Keeps : (a : A) → Keeps P (pure a)
  unfolding pure
  pure-Keeps a = record { at = λ s h. h }

  pub raise-Keeps : (e : Error) → Keeps P (raise {A = A} e)
  unfolding raise
  raise-Keeps e = record { at = λ s h. h }

  pub lift-Keeps : (r : Result A) → Keeps P (lift r)
  unfolding lift
  lift-Keeps r = record { at = λ s h. h }

  pub if-Keeps :
      (b : Bool) (m n : Action S A) → Keeps P m → Keeps P n → Keeps P (if b then m else n)
  if-Keeps true m n km kn = km
  if-Keeps false m n km kn = kn

resumed_at {ℓ} :
    {S A B : Type ℓ} (P : S → Type ℓ) (r : Result A) (next : A → Action S B) (s : S)
    → P s
    → ((a : A) → r ≡ ok a → P (next a s).1)
    → P (resume r next s).1
resumed_at P (ok a) next s h k = k a refl
resumed_at P (err e) next s h k = h

module _ {ℓ} {S A B : Type ℓ} {P : S → Type ℓ} where
  resumed :
      (r : Result A) (next : A → Action S B) (s : S)
      → ((a : A) → Keeps P (next a))
      → P s
      → P (resume r next s).1
  resumed (ok a) next s k h = (k a).at s h
  resumed (err e) next s k h = h

  pub bind-Keeps :
      (m : Action S A) (next : A → Action S B)
      → Keeps P m
      → ((a : A) → Keeps P (next a))
      → Keeps P (m >>= next)
  unfolding ◌>>=◌
  bind-Keeps m next km k = record {
    at = λ s h. let (r, s') = m s in resumed r next s' k (km.at s h);
  }

  -- What follows may use what the first action returned, and where it left the state.
  pub bind_at-Keeps :
      (m : Action S A) (next : A → Action S B)
      → Keeps P m
      → ((s : S) (a : A) → P s → (m s).0 ≡ ok a → P (next a (m s).1).1)
      → Keeps P (m >>= next)
  unfolding ◌>>=◌
  bind_at-Keeps m next km k = record {
    at = λ s h. resumed_at P (m s).0 next (m s).1 (km.at s h) λ a made. k s a h made;
  }

  -- What follows a check may use that it passed.
  pub bind_lift-Keeps :
      (r : Result A) (next : A → Action S B)
      → ((a : A) → r ≡ ok a → Keeps P (next a))
      → Keeps P (lift r >>= next)
  unfolding ◌>>=◌ lift
  bind_lift-Keeps (ok a) next k = k a refl
  bind_lift-Keeps (err e) next k = record { at = λ s h. h }

  pub unless_none-Keeps :
      (x : Option A) (m : Action S B) (next : A → Action S B)
      → Keeps P m
      → ((a : A) → Keeps P (next a))
      → Keeps P (unless_none x m next)
  unfolding unless_none
  unless_none-Keeps none m next km k = km
  unless_none-Keeps (some a) m next km k = k a

module _ {ℓ} {S A : Type ℓ} {P : S → Type ℓ} where
  recovered :
      (r : Result A) (handler : Error → Action S A) (s : S)
      → ((e : Error) → Keeps P (handler e))
      → P s
      → P (recover_from r handler s).1
  recovered (ok a) handler s k h = h
  recovered (err e) handler s k h = (k e).at s h

  pub catching-Keeps :
      (m : Action S A) (handler : Error → Action S A)
      → Keeps P m
      → ((e : Error) → Keeps P (handler e))
      → Keeps P (catching m handler)
  unfolding catching
  catching-Keeps m handler km k = record {
    at = λ s h. let (r, s') = m s in recovered r handler s' k (km.at s h);
  }

pub ruleset keeps_rules =
    (pure-Keeps, raise-Keeps, lift-Keeps, if-Keeps, bind-Keeps, unless_none-Keeps, catching-Keeps)
