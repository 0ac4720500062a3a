-- ===== src/Usage/Budgets.antt =====
-- src/hovorunv2/application/usage/budgets.py: amounts, requests for a reservation, and decisions.
use hovorun_v.Prelude.{
  ℕ, ◌-◌, ◌^◌, ◌*◌, Bool, true, false, not, ◌&&◌, Option, List, [], ◌∷◌, map, String, any, distinct,
  subset, ltb, ◌==◌, full_match, is_technical, Result, err, ◌>>◌, raise_if, value_error,
}
use hovorun_v.Domain.{Timestamp, Instant, at, negative, nonfinite}
use hovorun_v.Usage.Policies.{UsageUnit, UsageUnit-discrete, UsagePolicy, ResolvedUsage}

abbrev pub retention_seconds : ℕ
retention_seconds = 3600

abbrev pub stale_grace_seconds : ℕ
stale_grace_seconds = 10 * 60

-- `TECHNICAL_ID.fullmatch(text) is not None`
unfoldable pub is_technical_id : String → Bool
unfolding full_match
is_technical_id s = full_match is_technical 1 96 s

pub data ReservationState : Type 0 where
  reserved committed released waiting unavailable expired impossible : ReservationState

pub record UnitAmount : Type 0 where
  pub unit : UsageUnit
  pub amount : ℕ

abbrev pub max_exact_integer : ℕ
max_exact_integer = 2 ^ 53 - 1

-- `UnitAmount.__post_init__`
unfoldable pub validate_amount : UnitAmount → Result (Unit {0})
validate_amount a = raise_if (ltb max_exact_integer a.amount) value_error

pub record BudgetRequest : Type 0 where
  pub reservation_id : String
  pub usage : ResolvedUsage
  pub estimates : List UnitAmount
  pub deadline : Instant

unfoldable pub validate_estimates : List UnitAmount → Result (Unit {0})
validate_estimates [] = err value_error
validate_estimates (e ∷ es) = do
  raise_if (not (distinct UsageUnit-discrete (map (λ a. a.unit) (e ∷ es)))) value_error
  raise_if (any (λ a. a.amount == 0) (e ∷ es)) value_error

abbrev pub is_valid_deadline : Instant → Bool
is_valid_deadline (at t) = ltb 0 t
is_valid_deadline negative = false
is_valid_deadline nonfinite = false

-- `units != {policy.unit for policy in self.usage.policies}`
unfoldable pub covers_policies : List UnitAmount → List UsagePolicy → Bool
covers_policies es ps =
    let units = map (λ a. a.unit) es in
    let wanted = map (λ p. p.unit) ps in
    subset UsageUnit-discrete units wanted && subset UsageUnit-discrete wanted units

-- `BudgetRequest.__post_init__`
unfoldable pub validate_request : BudgetRequest → Result (Unit {0})
unfolding is_technical_id validate_estimates covers_policies
validate_request r = do
  raise_if (not (is_technical_id r.reservation_id)) value_error
  validate_estimates r.estimates
  raise_if (not (is_valid_deadline r.deadline)) value_error
  raise_if (not (covers_policies r.estimates r.usage.policies)) value_error

pub record ReservationDecision : Type 0 where
  pub state : ReservationState
  pub next_eligible_at : Option Timestamp

-- `ReservationDecision.allowed`
abbrev pub is_allowed : ReservationDecision → Bool
is_allowed d = elim d.state [ reserved ↦ true | _ ↦ false ]
