-- ===== src/Jobs/Settlement.antt =====
-- src/hovorunv2/application/jobs/admission.py: what a stopped execution has consumed.
use hovorun_v.Prelude.{
  ℕ, Bool, false, not, xor, Option, none, some, List, [], ◌∷◌, map, any, all, distinct, is_some,
  String-discrete, ℕ_discrete, ℤ-discrete, ltb, ◌==◌, Result, ok, ◌>>◌, raise_if, value_error,
}
use hovorun_v.Domain.{TargetKind-discrete}
use hovorun_v.Usage.Policies.{UsageUnit, UsageUnit-discrete, validate_window}
use hovorun_v.Usage.Budgets.{UnitAmount, validate_amount}
use hovorun_v.Usage.Ledger.{
  UsageEvent, UsageCharge, validate_subject, validate_charge, validate_event,
}
use hovorun_v.Jobs.Envelope.{JobOutcome, JobOutcome-discrete, complete, same_outcome}

pub record SettlementIntent : Type 0 where
  pub outcome : JobOutcome
  pub actual : List UnitAmount
  pub event : Option UsageEvent

unfoldable pub SettlementIntent-discrete : Discrete SettlementIntent
unfolding ℕ_discrete ℤ-discrete TargetKind-discrete String-discrete JobOutcome-discrete
    UsageUnit-discrete
SettlementIntent-discrete = hlevel (
  ℕ_discrete, ℤ-discrete, TargetKind-discrete, String-discrete, JobOutcome-discrete,
  UsageUnit-discrete,
)

-- `amounts.get(unit)`. The units are distinct by then, so the first entry is the only one.
unfoldable pub amount_of : UsageUnit → List UnitAmount → Option ℕ
amount_of u [] = none
amount_of u (a ∷ rest) = elim (UsageUnit-discrete u a.unit) [
  | yes _ ↦ some a.amount
  | no _ ↦ amount_of u rest
]

abbrev pub charge_matches : List UnitAmount → UsageCharge → Bool
charge_matches actual c = elim (amount_of c.unit actual) [ none ↦ false | some n ↦ c.amount == n ]

abbrev pub has_consumed : List UnitAmount → Bool
has_consumed = any (λ a. ltb 0 a.amount)

unfoldable pub validate_receipt : SettlementIntent → UsageEvent → Result (Unit {0})
unfolding amount_of
validate_receipt i event = do
  raise_if (not (same_outcome i.outcome complete)) value_error
  raise_if (not (all (charge_matches i.actual) event.charges)) value_error

-- `SettlementIntent.validate_consumption`
unfoldable pub validate_consumption : SettlementIntent → Result (Unit {0})
unfolding validate_receipt
validate_consumption i = do
  raise_if (not (distinct UsageUnit-discrete (map (λ a. a.unit) i.actual))) value_error
  raise_if (xor (has_consumed i.actual) (is_some i.event)) value_error
  elim i.event [ none ↦ ok tt | some event ↦ validate_receipt i event ]

unfoldable pub validate_each {ℓ} :
    {A : Type ℓ} → (A → Result (Unit {0})) → List A → Result (Unit {0})
validate_each check [] = ok tt
validate_each check (x ∷ xs) = check x >> validate_each check xs

-- The dataclasses of a receipt check themselves when they are made.
unfoldable pub validate_whole_event : UsageEvent → Result (Unit {0})
unfolding validate_each
validate_whole_event e = do
  validate_subject e.subject
  validate_each (λ c. validate_window c.window >> validate_charge c) e.charges
  validate_event e

-- What pydantic runs to make an intent: its amounts, its receipt, and `validate_consumption`.
unfoldable pub validate_intent : SettlementIntent → Result (Unit {0})
unfolding validate_each validate_whole_event validate_consumption
validate_intent i = do
  validate_each validate_amount i.actual
  elim i.event [ none ↦ ok tt | some event ↦ validate_whole_event event ]
  validate_consumption i
