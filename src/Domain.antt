-- ===== src/Domain.antt =====
-- src/hovorunv2/domain/enums.py and the clock: the kinds of subject, the roles, and the timestamps.
use hovorun_v.Prelude.{ℕ, ◌*◌, Bool, true, false}

pub data TargetKind : Type 0 where
  user group : TargetKind

unfoldable pub TargetKind-discrete : Discrete TargetKind
TargetKind-discrete = hlevel

abbrev pub is_user : TargetKind → Bool
is_user user = true
is_user group = false

abbrev pub is_group : TargetKind → Bool
is_group user = false
is_group group = true

pub data Role : Type 0 where
  plain_user admin owner : Role

-- The integer of each role, which orders them.
abbrev pub role_value : Role → ℕ
role_value plain_user = 1
role_value admin = 10
role_value owner = 100

-- A finite, nonnegative timestamp is a number of microseconds since the epoch.
abbrev pub Timestamp : Type 0
Timestamp = ℕ

abbrev pub second : ℕ
second = 1000000

abbrev pub seconds : ℕ → Timestamp
seconds n = n * second

-- A float that has not been checked yet.
pub data Instant : Type 0 where
  at : Timestamp → Instant
  negative nonfinite : Instant
