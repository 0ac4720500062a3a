-- ===== src/Budget/Calculate.antt =====
-- src/hovorunv2/infrastructure/runtime/budget_state.py, the calculations on a snapshot of the store.
-- A token bucket is counted in credits, `seconds * 1000000` of which are one token, so that a window
-- of `limit` tokens gains `limit` credits in a microsecond: the source's quotients are exact. A credit
-- is finite. A retry time is rounded up to the next microsecond.
use hovorun_v.Prelude.{
  ℕ, ◌+◌, ◌-◌, ◌*◌, ◌/◌, min, max, Bool, true, false, not, ◌&&◌, Option, none, some, List, [], ◌∷◌,
  String, contains, is_some, length, ltb, leb, if◌then◌else◌, Result, ok, err, ◌>>=◌, ◌>>◌,
  raise_if, value_error, unavailable,
}
use hovorun_v.Domain.{Timestamp, second, seconds}
use hovorun_v.Usage.Budgets.{
  ReservationState, ReservationDecision, reserved, waiting, impossible, max_exact_integer,
}
use hovorun_v.Budget.Record.{
  Scope, QuotaKey, QuotaKey-discrete, ConcurrencyKey, QuotaSpec, ConcurrencySpec, BudgetRecord,
}

-- A hash of the store that is not empty; a field is `none` if it is missing or no number.
pub record Window : Type 0 where
  pub used : Option ℕ
  pub held : Option ℕ

pub record Rate : Type 0 where
  pub credits : Option ℕ
  pub at : Option Timestamp

-- The watched values; `none` is the empty hash.
pub record Snapshot : Type 0 where
  pub window : QuotaKey → Option Window
  pub rate : Scope → Option Rate
  pub members : ConcurrencyKey → List String

pub record QuotaUpdate : Type 0 where
  pub quota : QuotaSpec
  pub used : ℕ
  pub held : ℕ
  pub credits : ℕ
  pub at : Timestamp

pub record BudgetMutation : Type 0 where
  pub decision : ReservationDecision
  pub updates : List QuotaUpdate
  pub entry : Option BudgetRecord

-- `_integer`
unfoldable pub read_integer : Option ℕ → Result ℕ
read_integer none = err unavailable
read_integer (some n) = if ltb max_exact_integer n then err unavailable else ok n

-- `_number`
unfoldable pub read_number : Option ℕ → Result ℕ
read_number none = err unavailable
read_number (some n) = ok n

-- The credits of one token.
abbrev pub scale : QuotaSpec → ℕ
scale q = q.seconds * second

abbrev pub full : QuotaSpec → ℕ
full q = q.burst * scale q

-- `min(burst, tokens + max(0, now - at) * limit / seconds)`, and `extra` tokens given back.
abbrev pub refill : QuotaSpec → ℕ → Timestamp → Timestamp → ℕ → ℕ
refill q credits at now extra = min (full q) (credits + (now - at) * q.limit + extra * scale q)

-- `ceil(a / b)`
abbrev pub ceil_div : ℕ → ℕ → ℕ
ceil_div a b = (a + (b - 1)) / b

pub record Reading : Type 0 where
  pub used : ℕ
  pub held : ℕ
  pub credits : ℕ

-- What the source reads of one quota before it decides.
unfoldable pub read_window : Option Window → ℕ → Result (ℕ × ℕ)
unfolding read_integer
read_window none baseline = ok (max 0 baseline, 0)
read_window (some w) baseline = do
  used ← read_integer w.used
  held ← read_integer w.held
  ok (max used baseline, held)

unfoldable pub read_rate : Option Rate → QuotaSpec → Timestamp → Result ℕ
unfolding read_number
read_rate none q now = ok (refill q (full q) now now 0)
read_rate (some r) q now = do
  credits ← read_number r.credits
  at ← read_number r.at
  ok (refill q credits at now 0)

abbrev pub is_known : QuotaKey → List QuotaKey → Bool
is_known = contains QuotaKey-discrete

-- The three refusals of one round of `calculate_reserve`, then the reading.
unfoldable pub read_quota :
    BudgetRecord → QuotaSpec → ConcurrencySpec → Snapshot → List QuotaKey → Result Reading
unfolding read_window read_rate
read_quota r q c s previous = do
  raise_if (is_some (s.window q.key) && not (is_some (s.rate q.rate))) unavailable
  raise_if
      (not (is_some (s.window q.key))
        && ltb 0 (length (s.members c.key))
        && not (is_known q.key previous))
      unavailable
  (used, held) ← read_window (s.window q.key) q.baseline
  credits ← read_rate (s.rate q.rate) q r.now
  raise_if (ltb max_exact_integer (held + q.amount)) unavailable
  ok (record { used = used; held = held; credits = credits })

-- `retry` after one quota.
unfoldable pub quota_retry : BudgetRecord → QuotaSpec → Reading → Timestamp → Timestamp
quota_retry r q x retry =
    let by_window =
      if ltb q.limit (x.used + x.held + q.amount) then max retry (seconds q.ends) else retry in
    if ltb x.credits (q.amount * scale q)
    then max by_window (r.now + ceil_div (q.amount * scale q - x.credits) q.limit)
    else by_window

abbrev pub reserve_update : BudgetRecord → QuotaSpec → Reading → QuotaUpdate
reserve_update r q x = record {
  quota = q;
  used = x.used;
  held = x.held + q.amount;
  credits = x.credits - q.amount * scale q;
  at = r.now;
}

-- The end of the loop over the quotas: refused for good, or a retry time with the updates.
pub data Plan : Type 0 where
  never : Plan
  plan : Timestamp → List QuotaUpdate → Plan

abbrev pub add_update : QuotaUpdate → Plan → Plan
add_update u never = never
add_update u (plan retry us) = plan retry (u ∷ us)

-- The loop of `calculate_reserve`, with the `strict` zip.
unfoldable pub reserve_quotas :
    BudgetRecord
    → Snapshot
    → List QuotaKey
    → Timestamp
    → List QuotaSpec
    → List ConcurrencySpec
    → Result Plan
unfolding read_quota quota_retry
reserve_quotas r s previous retry [] [] = ok (plan retry [])
reserve_quotas r s previous retry [] (c ∷ cs) = err value_error
reserve_quotas r s previous retry (q ∷ qs) [] = err value_error
reserve_quotas r s previous retry (q ∷ qs) (c ∷ cs) = elim (ltb (min q.burst q.limit) q.amount) [
  | true ↦ ok never
  | false ↦ read_quota r q c s previous >>= λ x.
      (reserve_quotas r s previous (quota_retry r q x retry) qs cs >>= λ p.
      ok (add_update (reserve_update r q x) p))
]

-- The loop over the concurrency sets.
unfoldable pub concurrency_retry :
    BudgetRecord → Snapshot → List ConcurrencySpec → Timestamp → Timestamp
concurrency_retry r s [] retry = retry
concurrency_retry r s (c ∷ cs) retry =
    concurrency_retry r s cs
      (if leb c.limit (length (s.members c.key)) then max retry (r.now + second) else retry)

abbrev pub decide : ReservationState → Option Timestamp → ReservationDecision
decide state next = record { state = state; next_eligible_at = next }

abbrev pub tail_of {ℓ} : {A : Type ℓ} → List A → List A
tail_of [] = []
tail_of (x ∷ xs) = xs

unfoldable pub conclude_reserve : BudgetRecord → Snapshot → Plan → BudgetMutation
unfolding concurrency_retry
conclude_reserve r s never = record {
  decision = decide impossible none;
  updates = [];
  entry = none;
}
conclude_reserve r s (plan retry us) =
    let final = concurrency_retry r s r.concurrency retry in
    if ltb r.now final
    then record { decision = decide waiting (some final); updates = []; entry = none }
    else record { decision = decide reserved none; updates = us; entry = some r }

-- `calculate_reserve`
unfoldable pub calculate_reserve : BudgetRecord → Snapshot → List QuotaKey → Result BudgetMutation
unfolding reserve_quotas conclude_reserve
calculate_reserve r s previous =
    reserve_quotas r s previous r.now r.quotas (tail_of r.concurrency) >>= λ p.
    ok (conclude_reserve r s p)
