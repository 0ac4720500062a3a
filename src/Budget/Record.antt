-- ===== src/Budget/Record.antt =====
-- src/hovorunv2/infrastructure/runtime/budget_state.py, the reservation record and how it is built. A
-- key is the fields that its text joins behind the prefix of its role; a dictionary from units to
-- amounts has a place for each unit; the fingerprint is the data that the source hashes. The bounds and
-- patterns that pydantic tests on the fields of a record are left out.
use hovorun_v.Prelude.{
  ℕ, ◌+◌, ◌/◌, Bool, true, false, not, ◌&&◌, ◌||◌, Option, none, some, List, [], ◌∷◌, map, String,
  String-discrete, ℕ_discrete, ℤ, ℤ-discrete, any, distinct, length, ltb, ◌==◌, if◌then◌else◌,
  Result, ok, err, ◌>>=◌, ◌>>◌, raise_if, value_error, key_error,
}
use hovorun_v.Domain.{
  TargetKind, TargetKind-discrete, is_user, Timestamp, Instant, at, negative, nonfinite, second,
}
use hovorun_v.Usage.Policies.{
  UsageUnit, UsageUnit-discrete, requests, resource, tokens, UsagePolicy, window_start,
}
use hovorun_v.Usage.Budgets.{
  UnitAmount, BudgetRequest, ReservationState, reserved, max_exact_integer, is_technical_id,
  retention_seconds,
}

-- `dict[str, int]` keyed by the values of the units.
pub record Amounts : Type 0 where
  pub request_amount : Option ℕ
  pub resource_amount : Option ℕ
  pub token_amount : Option ℕ

unfoldable pub Amounts-discrete : Discrete Amounts
unfolding ℕ_discrete
Amounts-discrete = hlevel ℕ_discrete

abbrev pub no_amounts : Amounts
no_amounts = record { request_amount = none; resource_amount = none; token_amount = none }

abbrev pub amount_at : Amounts → UsageUnit → Option ℕ
amount_at a requests = a.request_amount
amount_at a resource = a.resource_amount
amount_at a tokens = a.token_amount

abbrev pub set_amount : Amounts → UnitAmount → Amounts
set_amount a e = elim e.unit [
  | requests ↦ record a { request_amount = some e.amount }
  | resource ↦ record a { resource_amount = some e.amount }
  | tokens ↦ record a { token_amount = some e.amount }
]

-- `{item.unit.value: item.amount for item in items}`: a later entry replaces an earlier one.
unfoldable pub amounts_of : Amounts → List UnitAmount → Amounts
amounts_of acc [] = acc
amounts_of acc (e ∷ es) = amounts_of (set_amount acc e) es

unfoldable pub Subject-discrete : Discrete (TargetKind × ℤ)
unfolding TargetKind-discrete ℤ-discrete
Subject-discrete = hlevel (TargetKind-discrete, ℤ-discrete)

-- `<kind>:<telegram id>:<bucket>:<unit>:<window seconds>`
pub record Scope : Type 0 where
  pub subject : TargetKind × ℤ
  pub bucket : String
  pub unit : UsageUnit
  pub seconds : ℕ

unfoldable pub Scope-discrete : Discrete Scope
unfolding TargetKind-discrete ℤ-discrete String-discrete UsageUnit-discrete ℕ_discrete
Scope-discrete =
    hlevel (TargetKind-discrete, ℤ-discrete, String-discrete, UsageUnit-discrete, ℕ_discrete)

-- `quota:<scope>:<window start>`
pub record QuotaKey : Type 0 where
  pub scope : Scope
  pub start : ℕ

unfoldable pub QuotaKey-discrete : Discrete QuotaKey
unfolding Scope-discrete ℕ_discrete
QuotaKey-discrete = hlevel (Scope-discrete, ℕ_discrete)

-- `global`, or `concurrency:<scope>`
pub data ConcurrencyKey : Type 0 where
  global_key : ConcurrencyKey
  scope_key : Scope → ConcurrencyKey

unfoldable pub ConcurrencyKey-discrete : Discrete ConcurrencyKey
unfolding Scope-discrete
ConcurrencyKey-discrete = hlevel Scope-discrete

pub record QuotaSpec : Type 0 where
  pub key : QuotaKey
  pub rate : Scope
  pub unit : UsageUnit
  pub amount : ℕ
  pub baseline : ℕ
  pub limit : ℕ
  pub burst : ℕ
  pub seconds : ℕ
  pub ends : ℕ

pub record ConcurrencySpec : Type 0 where
  pub key : ConcurrencyKey
  pub limit : ℕ

-- A quota without `baseline`, `key` and `ends`.
pub record QuotaIdentity : Type 0 where
  pub rate : Scope
  pub unit : UsageUnit
  pub amount : ℕ
  pub limit : ℕ
  pub burst : ℕ
  pub seconds : ℕ

pub record Fingerprint : Type 0 where
  pub subject : TargetKind × ℤ
  pub generation : ℕ
  pub deadline : Timestamp
  pub estimates : Amounts
  pub quotas : List QuotaIdentity
  pub concurrency : List ConcurrencySpec

pub record BudgetRecord : Type 0 where
  pub id : String
  pub subject : TargetKind × ℤ
  pub generation : ℕ
  pub deadline : Timestamp
  pub estimates : Amounts
  pub quotas : List QuotaSpec
  pub concurrency : List ConcurrencySpec
  pub now : Timestamp
  pub retention : ℕ
  pub fingerprint : Fingerprint
  pub state : ReservationState
  pub actual : Option Amounts

abbrev pub identity_of : QuotaSpec → QuotaIdentity
identity_of q = record {
  rate = q.rate;
  unit = q.unit;
  amount = q.amount;
  limit = q.limit;
  burst = q.burst;
  seconds = q.seconds;
}

-- `int(now)`
abbrev pub whole_seconds : Timestamp → ℕ
whole_seconds t = t / second

abbrev pub scope_of : TargetKind × ℤ → UsagePolicy → Scope
scope_of subject p = record {
  subject = subject;
  bucket = p.bucket;
  unit = p.unit;
  seconds = p.window.seconds;
}

unfoldable pub quota_of : TargetKind × ℤ → Timestamp → Amounts → UsagePolicy → ℕ → Result QuotaSpec
unfolding window_start
quota_of subject now estimates p baseline =
    let start = window_start p.window (whole_seconds now) in
    elim (amount_at estimates p.unit) [
      | none ↦ err key_error
      | some amount ↦ ok (record {
        key = record { scope = scope_of subject p; start = start };
        rate = scope_of subject p;
        unit = p.unit;
        amount = amount;
        baseline = baseline;
        limit = p.limit;
        burst = p.burst;
        seconds = p.window.seconds;
        ends = start + p.window.seconds;
      })
    ]

-- The loop of `_build_resource_specs`, with the `strict` zip.
unfoldable pub build_specs :
    Bool
    → TargetKind × ℤ
    → Timestamp
    → Amounts
    → List UsagePolicy
    → List ℕ
    → Result (List QuotaSpec × List ConcurrencySpec)
unfolding quota_of
build_specs bypass subject now estimates [] [] = ok ([], [])
build_specs bypass subject now estimates [] (t ∷ ts) = err value_error
build_specs bypass subject now estimates (p ∷ ps) [] = err value_error
build_specs bypass subject now estimates (p ∷ ps) (t ∷ ts) =
    let rest = build_specs bypass subject now estimates ps ts in
    if bypass then rest else (do
      quota ← quota_of subject now estimates p t
      (quotas, scopes) ← rest
      let spec : ConcurrencySpec = record {
        key = scope_key (scope_of subject p);
        limit = p.concurrency;
      }
      ok (quota ∷ quotas, spec ∷ scopes))

-- `_build_resource_specs`
unfoldable pub build_resource_specs :
    BudgetRequest
    → Timestamp
    → List ℕ
    → TargetKind × ℤ
    → Amounts
    → Result (List QuotaSpec × List ConcurrencySpec)
unfolding build_specs
build_resource_specs r now totals subject estimates = do
  let bypass = r.usage.bypass_personal_quota && is_user r.usage.subject.kind
  (quotas, scopes) ← build_specs bypass subject now estimates r.usage.policies totals
  let global : ConcurrencySpec = record {
    key = global_key;
    limit = r.usage.safety.global_concurrency;
  }
  ok (quotas, global ∷ scopes)

-- The deadline of a request that has passed its own validation.
abbrev pub request_deadline : BudgetRequest → Timestamp
request_deadline r = elim r.deadline [ at t ↦ t | negative ↦ 0 | nonfinite ↦ 0 ]

abbrev pub subject_of : BudgetRequest → TargetKind × ℤ
subject_of r = (r.usage.subject.kind, r.usage.subject.telegram_id)

-- The record at the end of `build_record`.
abbrev pub record_of :
    BudgetRequest → Timestamp → List QuotaSpec × List ConcurrencySpec → BudgetRecord
record_of r now specs = record {
  id = r.reservation_id;
  subject = subject_of r;
  generation = r.usage.subject.generation;
  deadline = request_deadline r;
  estimates = amounts_of no_amounts r.estimates;
  quotas = specs.0;
  concurrency = specs.1;
  now = now;
  retention = retention_seconds;
  fingerprint = record {
    subject = subject_of r;
    generation = r.usage.subject.generation;
    deadline = request_deadline r;
    estimates = amounts_of no_amounts r.estimates;
    quotas = map identity_of specs.0;
    concurrency = specs.1;
  };
  state = reserved;
  actual = none;
}

-- `build_record`
unfoldable pub build_record : BudgetRequest → Timestamp → List ℕ → Result BudgetRecord
unfolding build_resource_specs amounts_of
build_record r now totals = do
  specs ← build_resource_specs r now totals (subject_of r) (amounts_of no_amounts r.estimates)
  ok (record_of r now specs)

abbrev pub is_finite_time : Instant → Bool
is_finite_time (at t) = true
is_finite_time negative = false
is_finite_time nonfinite = false

abbrev pub Dimension : Type 0
Dimension = String × UsageUnit × ℕ

unfoldable pub Dimension-discrete : Discrete Dimension
unfolding String-discrete UsageUnit-discrete ℕ_discrete
Dimension-discrete = hlevel (String-discrete, UsageUnit-discrete, ℕ_discrete)

abbrev too_large : ℕ → Bool
too_large n = ltb max_exact_integer n

-- `validate_reserve_args`
unfoldable pub validate_reserve_args : BudgetRequest → Instant → List ℕ → Result (Unit {0})
unfolding Dimension-discrete
validate_reserve_args r now totals = do
  raise_if
      (not (is_finite_time now)
        || not (length totals == length r.usage.policies)
        || any too_large totals)
      value_error
  raise_if
      (too_large r.usage.safety.global_concurrency
        || any
            (λ p.
              too_large p.limit
              || too_large p.burst
              || too_large p.concurrency
              || too_large p.window.seconds)
            r.usage.policies)
      value_error
  raise_if
      (not (
        distinct Dimension-discrete
          (map (λ p. (p.bucket, p.unit, p.window.seconds)) r.usage.policies)))
      value_error

-- `validate_finish_args`
unfoldable pub validate_finish_args : String → List UnitAmount → Instant → Result Amounts
unfolding is_technical_id amounts_of
validate_finish_args id actual now = do
  raise_if (not (is_technical_id id) || not (is_finite_time now) || length actual == 0) value_error
  raise_if (not (distinct UsageUnit-discrete (map (λ a. a.unit) actual))) value_error
  ok (amounts_of no_amounts actual)
