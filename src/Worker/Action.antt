-- ===== src/Worker/Action.antt =====
-- Methods of a worker that change the stores and may raise. Each call to a store commits on its own,
-- so what was written before an exception stays written: the state comes back with the error too.
pub mod Keeps
pub mod Answers
pub mod Returns
pub mod Ensures
use hovorun_v.Prelude.{Bool, Option, none, some, Error, Result, ok, err}

abbrev pub Action {ℓ} : Type ℓ → Type ℓ → Type ℓ
Action S A = S → Result A × S

module _ {ℓ} {S A : Type ℓ} where
  unfoldable pub pure : A → Action S A
  pure a s = (ok a, s)

  unfoldable pub raise : Error → Action S A
  raise e s = (err e, s)

  -- What a computation without effects returns or raises.
  unfoldable pub lift : Result A → Action S A
  lift r s = (r, s)

module _ {ℓ} {S A B : Type ℓ} where
  abbrev pub resume : Result A → (A → Action S B) → Action S B
  resume (ok a) next s = next a s
  resume (err e) next s = (err e, s)

  infixl 10 ◌>>=◌ ◌>>◌
  unfoldable pub ◌>>=◌ : Action S A → (A → Action S B) → Action S B
  m >>= next = λ s. let (r, s') = m s in resume r next s'

  abbrev pub ◌>>◌ : Action S A → Action S B → Action S B
  m >> n = m >>= λ _. n

  -- `if x is None`
  unfoldable pub unless_none : Option A → Action S B → (A → Action S B) → Action S B
  unless_none none absent present = absent
  unless_none (some a) absent present = present a

module _ {ℓ} {S A : Type ℓ} where
  abbrev recover_from : Result A → (Error → Action S A) → Action S A
  recover_from (ok a) handler s = (ok a, s)
  recover_from (err e) handler s = handler e s

  -- `try: … except …`
  unfoldable pub catching : Action S A → (Error → Action S A) → Action S A
  catching m handler = λ s. let (r, s') = m s in recover_from r handler s'
