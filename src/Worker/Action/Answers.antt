-- ===== src/Worker/Action/Answers.antt =====
-- Actions that never raise: one rule for each way to build one.
use hovorun_v.Prelude.{◌≡◌, refl, Bool, true, false, if◌then◌else◌, Error, Result, ok, err, is_ok}
use hovorun_v.Worker.Action.{Action, pure, ◌>>=◌, catching, resume, recover_from}

pub record Answers {ℓ} {S A : Type ℓ} (m : Action S A) : Type ℓ where
  pub at : (s : S) → is_ok (m s).0 ≡ true

module _ {ℓ} {S A : Type ℓ} where
  pub pure-Answers : (a : A) → Answers {S = S} (pure a)
  unfolding pure
  pure-Answers a = record { at = λ s. refl }

  pub if-Answers :
      (b : Bool) (m n : Action S A) → Answers m → Answers n → Answers (if b then m else n)
  if-Answers true m n km kn = km
  if-Answers false m n km kn = kn

  recovered :
      (r : Result A) (handler : Error → Action S A) (s : S)
      → ((e : Error) → Answers (handler e))
      → is_ok (recover_from r handler s).0 ≡ true
  recovered (ok a) handler s k = refl
  recovered (err e) handler s k = (k e).at s

  -- What is caught by a handler that never raises never raises.
  pub catching-Answers :
      (m : Action S A) (handler : Error → Action S A)
      → ((e : Error) → Answers (handler e))
      → Answers (catching m handler)
  unfolding catching
  catching-Answers m handler k = record { at = λ s. let (r, s') = m s in recovered r handler s' k }

module _ {ℓ} {S A B : Type ℓ} where
  resumed :
      (r : Result A) (next : A → Action S B) (s : S)
      → is_ok r ≡ true
      → ((a : A) → Answers (next a))
      → is_ok (resume r next s).0 ≡ true
  resumed (ok a) next s h k = (k a).at s
  resumed (err e) next s h k = cc

  pub bind-Answers :
      (m : Action S A) (next : A → Action S B)
      → Answers m
      → ((a : A) → Answers (next a))
      → Answers (m >>= next)
  unfolding ◌>>=◌
  bind-Answers m next km k = record { at = λ s. resumed (m s).0 next (m s).1 (km.at s) k }

pub ruleset answers_rules = (pure-Answers, if-Answers, catching-Answers, bind-Answers)
