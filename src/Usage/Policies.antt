-- ===== src/Usage/Policies.antt =====
-- src/hovorunv2/application/usage/policies.py: units, windows, policies and safety caps. An integer
-- that the code requires to be positive is a natural number that may still be 0.
use hovorun_v.Prelude.{
  ℕ, ◌*◌, ◌-◌, ◌%◌, Bool, not, ◌||◌, ◌&&◌, List, [], ◌∷◌, String, ℤ, any, ltb, ◌==◌, codes,
  starts_with, after_colon, is_empty, Result, ◌>>◌, raise_if, value_error,
}
use hovorun_v.Domain.{TargetKind}

pub data UsageUnit : Type 0 where
  requests resource tokens : UsageUnit

unfoldable pub UsageUnit-discrete : Discrete UsageUnit
UsageUnit-discrete = hlevel

abbrev pub minute_seconds : ℕ
minute_seconds = 60

pub record UsageWindow : Type 0 where
  pub seconds : ℕ

-- `UsageWindow.__post_init__`
unfoldable pub validate_window : UsageWindow → Result (Unit {0})
validate_window w = raise_if (w.seconds == 0) value_error

-- `UsageWindow.start`, at an integer that is not negative.
unfoldable pub window_start : UsageWindow → ℕ → ℕ
window_start w timestamp = timestamp - timestamp % w.seconds

pub record UsagePolicy : Type 0 where
  pub bucket : String
  pub limit : ℕ
  pub burst : ℕ
  pub concurrency : ℕ
  pub pending : ℕ
  pub unit : UsageUnit
  pub window : UsageWindow

unfoldable pub validate_limits : UsagePolicy → Result (Unit {0})
validate_limits p = do
  raise_if (any (λ v. v == 0) (p.limit ∷ p.burst ∷ p.concurrency ∷ p.pending ∷ [])) value_error
  raise_if (ltb p.limit p.burst) value_error

-- The test of a bucket that policies and charges share: a feature or family with a name.
unfoldable pub is_scope : String → Bool
is_scope bucket =
    let cs = codes bucket in
    (starts_with cs (codes "feature:") || starts_with cs (codes "family:"))
    && not (is_empty (after_colon cs))

unfoldable pub validate_bucket : UsagePolicy → Result (Unit {0})
unfolding is_scope
validate_bucket p = raise_if (not (is_scope p.bucket)) value_error

-- `UsagePolicy.__post_init__`. The types of `unit` and `window` are those of the fields.
unfoldable pub validate_policy : UsagePolicy → Result (Unit {0})
unfolding validate_limits validate_bucket
validate_policy p = do validate_limits p; validate_bucket p

pub record UsageSubject : Type 0 where
  pub kind : TargetKind
  pub telegram_id : ℤ
  pub entity_id : ℕ
  pub generation : ℕ

pub record UsageSafetyCaps : Type 0 where
  pub global_concurrency : ℕ
  pub global_pending : ℕ
  pub payload_bytes : ℕ
  pub total_payload_bytes : ℕ
  pub deadline_seconds : ℕ
  pub execution_seconds : ℕ

abbrev pub default_caps : UsageSafetyCaps
default_caps = record {
  global_concurrency = 2;
  global_pending = 500;
  payload_bytes = 64 * 1024;
  total_payload_bytes = 32 * 1024 * 1024;
  deadline_seconds = 5 * minute_seconds;
  execution_seconds = 180;
}

unfoldable pub validate_positive_caps : UsageSafetyCaps → Result (Unit {0})
validate_positive_caps c =
    raise_if
      (any (λ v. v == 0)
        (c.global_concurrency ∷ c.global_pending ∷ c.payload_bytes ∷ c.total_payload_bytes
          ∷ c.deadline_seconds ∷ c.execution_seconds ∷ []))
      value_error

-- `UsageSafetyCaps.__post_init__`
unfoldable pub validate_caps : UsageSafetyCaps → Result (Unit {0})
unfolding validate_positive_caps
validate_caps c = do
  validate_positive_caps c
  raise_if (ltb c.total_payload_bytes c.payload_bytes) value_error
  raise_if (ltb c.deadline_seconds c.execution_seconds) value_error

pub record ResolvedUsage : Type 0 where
  pub subject : UsageSubject
  pub policies : List UsagePolicy
  pub bypass_personal_quota : Bool
  pub safety : UsageSafetyCaps
