-- ===== src/Budget/Verify.antt =====
-- src/hovorunv2/infrastructure/runtime/budget_state.py, `parse_record` and the checks under it: a
-- stored reservation is used only if its keys, windows, estimates and settlement agree.
use hovorun_v.Prelude.{
  ℕ, ◌+◌, ◌-◌, ◌%◌, Bool, true, false, not, ◌&&◌, ◌||◌, xor, Option, none, some, List, [], ◌∷◌,
  String, str_eq, is_some, decided, any, all, distinct, map, length, ltb, ◌==◌, Result, ok, err,
  ◌>>◌, raise_if, unavailable, ℤ,
}
use hovorun_v.Domain.{TargetKind, is_user, Timestamp}
use hovorun_v.Usage.Policies.{UsageUnit, UsageUnit-discrete, requests, resource, tokens, is_scope}
use hovorun_v.Usage.Budgets.{
  ReservationState, reserved, committed, released, expired, waiting,
  unavailable as unavailable_state, impossible, max_exact_integer, retention_seconds,
}
use hovorun_v.Budget.Record.{
  Amounts, amount_at, Scope, Scope-discrete, Subject-discrete, ConcurrencyKey,
  ConcurrencyKey-discrete, global_key, scope_key, QuotaSpec, BudgetRecord, whole_seconds,
}

abbrev pub units : List UsageUnit
units = requests ∷ resource ∷ tokens ∷ []

abbrev pub is_none_amount : Amounts → Bool
is_none_amount a = not (any (λ u. is_some (amount_at a u)) units)

-- `state in {RESERVED, COMMITTED, RELEASED, EXPIRED}`
abbrev pub is_recorded_state : ReservationState → Bool
is_recorded_state reserved = true
is_recorded_state committed = true
is_recorded_state released = true
is_recorded_state expired = true
is_recorded_state waiting = false
is_recorded_state unavailable_state = false
is_recorded_state impossible = false

-- `_require_record_binding`
unfoldable pub require_record_binding : BudgetRecord → String → Result (Unit {0})
require_record_binding r id = do
  raise_if (not (str_eq r.id id)) unavailable
  raise_if (length r.concurrency == 0 || is_none_amount r.estimates) unavailable
  raise_if (not (r.retention == retention_seconds)) unavailable
  raise_if (length r.quotas == 0 && not (is_user r.subject.0)) unavailable
  raise_if (not (is_recorded_state r.state)) unavailable

-- An estimate is positive and exact where it is given.
abbrev pub is_exact_estimate : Option ℕ → Bool
is_exact_estimate none = true
is_exact_estimate (some n) = ltb 0 n && not (ltb max_exact_integer n)

abbrev pub is_estimated : Amounts → QuotaSpec → Bool
is_estimated a q = elim (amount_at a q.unit) [ none ↦ false | some n ↦ q.amount == n ]

-- `_require_estimate_coverage`
unfoldable pub require_estimate_coverage : BudgetRecord → Result (Unit {0})
require_estimate_coverage r = do
  raise_if (not (all (λ u. is_exact_estimate (amount_at r.estimates u)) units)) unavailable
  raise_if (not (all (is_estimated r.estimates) r.quotas)) unavailable

-- `_require_quota_window`, at a window start that is a natural number.
unfoldable pub require_quota_window : QuotaSpec → Timestamp → Result (Unit {0})
require_quota_window q now = do
  raise_if (not (q.key.start % q.seconds == 0)) unavailable
  raise_if (not (q.key.start == whole_seconds now - whole_seconds now % q.seconds)) unavailable
  raise_if (not (q.ends == q.key.start + q.seconds)) unavailable

abbrev same_unit : UsageUnit → UsageUnit → Bool
same_unit a b = decided (UsageUnit-discrete a b)

abbrev same_scope : Scope → Scope → Bool
same_scope a b = decided (Scope-discrete a b)

abbrev same_subject : TargetKind × ℤ → TargetKind × ℤ → Bool
same_subject a b = decided (Subject-discrete a b)

-- `_require_quota_key`
unfoldable pub require_quota_key : QuotaSpec → BudgetRecord → Result (Unit {0})
unfolding require_quota_window is_scope
require_quota_key q r = do
  raise_if (not (same_subject q.key.scope.subject r.subject)) unavailable
  raise_if (not (is_scope q.key.scope.bucket)) unavailable
  raise_if (not (same_unit q.key.scope.unit q.unit) || not (q.key.scope.seconds == q.seconds))
      unavailable
  require_quota_window q r.now
  raise_if (not (same_scope q.rate q.key.scope)) unavailable
  raise_if (ltb q.limit q.burst) unavailable

unfoldable pub require_quota_keys : List QuotaSpec → BudgetRecord → Result (Unit {0})
unfolding require_quota_key
require_quota_keys [] r = ok tt
require_quota_keys (q ∷ qs) r = require_quota_key q r >> require_quota_keys qs r

abbrev pub same_keys : List ConcurrencyKey → List ConcurrencyKey → Bool
same_keys [] [] = true
same_keys (a ∷ as') (b ∷ bs) = decided (ConcurrencyKey-discrete a b) && same_keys as' bs
same_keys _ _ = false

abbrev pub expected_keys : List QuotaSpec → List ConcurrencyKey
expected_keys qs = global_key ∷ map (λ q. scope_key q.key.scope) qs

-- `_verify_record_keys`
unfoldable pub verify_record_keys : BudgetRecord → Result (Unit {0})
unfolding require_quota_keys
verify_record_keys r = do
  require_quota_keys r.quotas r
  raise_if
      (not (same_keys (map (λ c. c.key) r.concurrency) (expected_keys r.quotas))
        || not (distinct ConcurrencyKey-discrete (expected_keys r.quotas)))
      unavailable

-- `actual.keys() == estimates.keys()`
abbrev pub same_units : Amounts → Amounts → Bool
same_units a b = all (λ u. not (xor (is_some (amount_at a u)) (is_some (amount_at b u)))) units

abbrev pub amount_within : Option ℕ → Option ℕ → Bool
amount_within none e = true
amount_within (some n) none = false
amount_within (some n) (some e) = not (ltb e n)

abbrev pub is_positive_amount : Option ℕ → Bool
is_positive_amount none = false
is_positive_amount (some n) = ltb 0 n

-- `any(actual.values())`
abbrev pub any_amount : Amounts → Bool
any_amount a = any (λ u. is_positive_amount (amount_at a u)) units

abbrev is_committed : ReservationState → Bool
is_committed committed = true
is_committed _ = false

unfoldable pub require_settled : BudgetRecord → Option Amounts → Result (Unit {0})
require_settled r none = err unavailable
require_settled r (some actual) = do
  raise_if (not (same_units actual r.estimates)) unavailable
  raise_if (not (all (λ u. amount_within (amount_at actual u) (amount_at r.estimates u)) units))
      unavailable
  raise_if (xor (is_committed r.state) (any_amount actual)) unavailable

-- `_require_settlement`
unfoldable pub require_settlement : BudgetRecord → Result (Unit {0})
unfolding require_settled
require_settlement r = elim r.state [
  | reserved ↦ ok tt
  | expired ↦ raise_if (is_some r.actual) unavailable
  | _ ↦ require_settled r r.actual
]

-- `parse_record`, at a text that is JSON of the right shape.
unfoldable pub verify_record : BudgetRecord → String → Result (Unit {0})
unfolding require_record_binding require_estimate_coverage verify_record_keys require_settlement
verify_record r id = do
  require_record_binding r id
  require_estimate_coverage r
  verify_record_keys r
  require_settlement r
