-- ===== src/Worker/Action/Ensures.antt =====
-- What holds where an action has returned: one rule for each way to build an action.
use hovorun_v.Prelude.{
  ◌≡◌, refl, Bool, true, false, if◌then◌else◌, Option, none, some, Error, Result, ok, err,
  ok-injective,
}
use mathlib.Core.Path.{subst}
use hovorun_v.Worker.Action.{Action, pure, raise, ◌>>=◌, unless_none, resume}
use hovorun_v.Worker.Action.Keeps.{Keeps}

-- From a state where `P` holds, what the action returns and the state it leaves satisfy `Q`, if it
-- returns.
pub record Ensures {ℓ} {S A : Type ℓ} (P : S → Type ℓ) (m : Action S A) (Q : A → S → Type ℓ)
    : Type ℓ where
  pub at : (s : S) (a : A) → P s → (m s).0 ≡ ok a → Q a (m s).1

module _ {ℓ} {S A : Type ℓ} {P : S → Type ℓ} {Q : A → S → Type ℓ} where
  pub raise-Ensures : (e : Error) → Ensures P (raise e) Q
  unfolding raise
  raise-Ensures e = record { at = λ s a h made. cc }

  pub pure-Ensures : (a : A) → ((s : S) → P s → Q a s) → Ensures P (pure a) Q
  unfolding pure
  pure-Ensures a q = record { at = λ s b h made. subst (λ c. Q c s) (ok-injective made) (q s h) }

  pub if-Ensures :
      (b : Bool) (m n : Action S A)
      → (b ≡ true → Ensures P m Q)
      → (b ≡ false → Ensures P n Q)
      → Ensures P (if b then m else n) Q
  if-Ensures true m n km kn = km refl
  if-Ensures false m n km kn = kn refl

module _ {ℓ} {S A B : Type ℓ} {R : A → S → Type ℓ} {Q : B → S → Type ℓ} where
  resumed :
      (r : Result A) (next : A → Action S B) (s : S) (b : B)
      → ((a : A) → r ≡ ok a → R a s)
      → ((a : A) → Ensures (R a) (next a) Q)
      → (resume r next s).0 ≡ ok b
      → Q b (resume r next s).1
  resumed (ok a) next s b h k made = (k a).at s b (h a refl) made
  resumed (err e) next s b h k made = cc

  pub bind-Ensures :
      {P : S → Type ℓ} (m : Action S A) (next : A → Action S B)
      → Ensures P m R
      → ((a : A) → Ensures (R a) (next a) Q)
      → Ensures P (m >>= next) Q
  unfolding ◌>>=◌
  bind-Ensures m next km k = record {
    at = λ s b h made. resumed (m s).0 next (m s).1 b (λ a e. km.at s a h e) k made;
  }

module _ {ℓ} {S A B : Type ℓ} {P : S → Type ℓ} {Q : B → S → Type ℓ} where
  -- What an action keeps may be used after it.
  pub kept_bind-Ensures :
      (m : Action S A) (next : A → Action S B)
      → Keeps P m
      → ((a : A) → Ensures P (next a) Q)
      → Ensures P (m >>= next) Q
  kept_bind-Ensures m next km k =
      bind-Ensures {R = λ a. P} m next (record { at = λ s a h made. km.at s h }) k

  pub unless_none-Ensures :
      (x : Option A) (m : Action S B) (next : A → Action S B)
      → Ensures P m Q
      → ((a : A) → x ≡ some a → Ensures P (next a) Q)
      → Ensures P (unless_none x m next) Q
  unfolding unless_none
  unless_none-Ensures none m next km k = km
  unless_none-Ensures (some a) m next km k = k a refl
