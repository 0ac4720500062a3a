-- ===== src/Usage/Ledger.antt =====
-- src/hovorunv2/application/usage/usage_ledger.py: the durable receipt of a finished request.
use hovorun_v.Prelude.{
  ℕ, ◌-◌, ◌^◌, Bool, not, ◌||◌, List, map, String, String-discrete, ℕ_discrete, ℤ, abs, is_pos, xor,
  ltb, ◌==◌, length, codes, is_technical, full_match, distinct, Result, ◌>>◌, raise_if, value_error,
}
use hovorun_v.Domain.{TargetKind, is_user}
use hovorun_v.Usage.Policies.{UsageUnit, UsageUnit-discrete, UsageWindow, is_scope}

abbrev pub max_accounting_integer : ℕ
max_accounting_integer = 2 ^ 63 - 1

pub record AccountingSubject : Type 0 where
  pub kind : TargetKind
  pub telegram_id : ℤ

-- `AccountingSubject.__post_init__`
unfoldable pub validate_subject : AccountingSubject → Result (Unit {0})
validate_subject s =
    raise_if
      (abs s.telegram_id == 0
        || ltb max_accounting_integer (abs s.telegram_id)
        || xor (is_user s.kind) (is_pos s.telegram_id))
      value_error

pub record UsageCharge : Type 0 where
  pub bucket : String
  pub amount : ℕ
  pub unit : UsageUnit
  pub window : UsageWindow

-- `UsageCharge.__post_init__`
unfoldable pub validate_charge : UsageCharge → Result (Unit {0})
unfolding is_scope
validate_charge c = do
  raise_if (c.amount == 0 || ltb max_accounting_integer c.amount) value_error
  raise_if (not (is_scope c.bucket) || ltb 160 (length (codes c.bucket))) value_error
  raise_if (ltb max_accounting_integer c.window.seconds) value_error

pub record UsageEvent : Type 0 where
  pub event_id : String
  pub subject : AccountingSubject
  pub occurred_at : ℕ
  pub charges : List UsageCharge

-- `[A-Za-z0-9_.:-]`
abbrev is_event_code : ℕ → Bool
is_event_code c = is_technical c || c == b':'

abbrev Dimension : Type 0
Dimension = String × UsageUnit × ℕ

Dimension-discrete : Discrete Dimension
unfolding String-discrete UsageUnit-discrete ℕ_discrete
Dimension-discrete = hlevel (String-discrete, UsageUnit-discrete, ℕ_discrete)

abbrev dimension : UsageCharge → Dimension
dimension c = (c.bucket, c.unit, c.window.seconds)

-- `UsageEvent.__post_init__`
unfoldable pub validate_event : UsageEvent → Result (Unit {0})
unfolding Dimension-discrete full_match
validate_event e = do
  raise_if (not (full_match is_event_code 1 128 e.event_id)) value_error
  raise_if (length e.charges == 0 || ltb 256 (length e.charges)) value_error
  raise_if (ltb max_accounting_integer e.occurred_at) value_error
  raise_if (not (distinct Dimension-discrete (map dimension e.charges))) value_error
