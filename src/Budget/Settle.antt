-- ===== src/Budget/Settle.antt =====
-- src/hovorunv2/infrastructure/runtime/budget_state.py: ownership, settlement and expiry of a
-- reservation, on a snapshot of the store.
use hovorun_v.Prelude.{
  ℕ, ◌+◌, ◌-◌, Bool, true, false, not, ◌&&◌, Option, none, some, List, [], ◌∷◌, String-discrete,
  decided, contains, all, ltb, if◌then◌else◌, Result, ok, err, ◌>>=◌, ◌>>◌, raise_if, value_error,
  key_error, unavailable,
}
use hovorun_v.Domain.{Timestamp, seconds}
use hovorun_v.Usage.Budgets.{
  ReservationState, reserved, committed, released, expired, max_exact_integer,
}
use hovorun_v.Budget.Record.{
  Amounts, Amounts-discrete, amount_at, QuotaKey-discrete, ConcurrencyKey-discrete, QuotaSpec,
  ConcurrencySpec, BudgetRecord,
}
use hovorun_v.Budget.Verify.{units, same_units, amount_within, any_amount}
use hovorun_v.Budget.Calculate.{
  Window, Rate, Snapshot, QuotaUpdate, BudgetMutation, read_integer, read_number, full, refill,
  decide,
}

abbrev pub is_reserved : ReservationState → Bool
is_reserved reserved = true
is_reserved _ = false

-- `values[key]` of a hash that may be empty.
abbrev pub used_of : Option Window → Option ℕ
used_of none = none
used_of (some w) = w.used

abbrev pub held_of : Option Window → Option ℕ
held_of none = none
held_of (some w) = w.held

abbrev pub credits_of : Option Rate → Option ℕ
credits_of none = none
credits_of (some r) = r.credits

abbrev pub at_of : Option Rate → Option ℕ
at_of none = none
at_of (some r) = r.at

-- One round of `verify_active_ownership`.
unfoldable pub verify_quota : QuotaSpec → Snapshot → Result (Unit {0})
unfolding read_integer read_number
verify_quota q s = do
  held ← read_integer (held_of (s.window q.key))
  raise_if (ltb held q.amount) unavailable
  used ← read_integer (used_of (s.window q.key))
  credits ← read_number (credits_of (s.rate q.rate))
  raise_if (ltb (full q) credits) unavailable
  at ← read_number (at_of (s.rate q.rate))
  ok tt

unfoldable pub verify_quotas : List QuotaSpec → Snapshot → Result (Unit {0})
unfolding verify_quota
verify_quotas [] s = ok tt
verify_quotas (q ∷ qs) s = verify_quota q s >> verify_quotas qs s

-- `verify_active_ownership`
unfoldable pub verify_active_ownership : BudgetRecord → Snapshot → Result (Unit {0})
unfolding verify_quotas
verify_active_ownership r s = do
  verify_quotas r.quotas s
  raise_if (not (all (λ c. contains String-discrete r.id (s.members c.key)) r.concurrency))
      unavailable

-- The loop of `verify_previous_window`, with the `strict` zip.
unfoldable pub find_previous :
    Timestamp
    → QuotaSpec
    → ConcurrencySpec
    → List QuotaSpec
    → List ConcurrencySpec
    → Result (Unit {0})
find_previous now q c [] [] = err unavailable
find_previous now q c [] (s ∷ ss) = err value_error
find_previous now q c (o ∷ os) [] = err value_error
find_previous now q c (o ∷ os) (s ∷ ss) =
    let rest = find_previous now q c os ss in
    if not (decided (ConcurrencyKey-discrete s.key c.key)) then rest else (do
      raise_if (decided (QuotaKey-discrete o.key q.key)) unavailable
      raise_if (ltb now (seconds o.ends)) unavailable)

abbrev tail_specs : List ConcurrencySpec → List ConcurrencySpec
tail_specs [] = []
tail_specs (x ∷ xs) = xs

-- `verify_previous_window`
unfoldable pub verify_previous_window :
    BudgetRecord → QuotaSpec → ConcurrencySpec → BudgetRecord → Result (Unit {0})
unfolding find_previous
verify_previous_window current q c previous = do
  raise_if (not (is_reserved previous.state)) unavailable
  find_previous current.now q c previous.quotas (tail_specs previous.concurrency)

-- What one quota takes back when `consumed` of its amount was used.
unfoldable pub settle_quota : QuotaSpec → ℕ → Timestamp → Snapshot → Result QuotaUpdate
unfolding read_integer read_number
settle_quota q consumed now s = do
  used ← read_integer (used_of (s.window q.key))
  held ← read_integer (held_of (s.window q.key))
  credits ← read_number (credits_of (s.rate q.rate))
  at ← read_number (at_of (s.rate q.rate))
  raise_if (ltb max_exact_integer (used + consumed)) unavailable
  ok (record {
    quota = q;
    used = used + consumed;
    held = held - q.amount;
    credits = refill q credits at now (q.amount - consumed);
    at = now;
  })

-- The loop of `calculate_finish`; `actual[quota.unit]` is there, since the units agree.
unfoldable pub settle_quotas :
    List QuotaSpec → Amounts → Timestamp → Snapshot → Result (List QuotaUpdate)
unfolding settle_quota
settle_quotas [] actual now s = ok []
settle_quotas (q ∷ qs) actual now s = elim (amount_at actual q.unit) [
  | none ↦ err key_error
  | some consumed ↦
      settle_quota q consumed now s >>= λ u. (settle_quotas qs actual now s >>= λ us. ok (u ∷ us))
]

abbrev pub same_amounts : Option Amounts → Amounts → Bool
same_amounts none b = false
same_amounts (some a) b = decided (Amounts-discrete a b)

-- A settlement covers the units of the estimate, and no more of each than was reserved.
abbrev pub fits : Amounts → Amounts → Bool
fits actual estimates =
    same_units actual estimates
    && all (λ u. amount_within (amount_at actual u) (amount_at estimates u)) units

abbrev pub settled_state : Amounts → ReservationState
settled_state actual = if any_amount actual then committed else released

abbrev pub settled : BudgetRecord → Amounts → BudgetRecord
settled r actual = record r { actual = some actual; state = settled_state actual }

unfoldable pub finish_reserved :
    BudgetRecord → Amounts → Timestamp → Snapshot → Result BudgetMutation
unfolding verify_active_ownership settle_quotas
finish_reserved r actual now s = do
  verify_active_ownership r s
  updates ← settle_quotas r.quotas actual now s
  ok (record {
    decision = decide (settled_state actual) none;
    updates = updates;
    entry = some (settled r actual);
  })

-- `calculate_finish`
unfoldable pub calculate_finish :
    BudgetRecord → Amounts → Timestamp → Snapshot → Result BudgetMutation
unfolding finish_reserved
calculate_finish r actual now s =
    if not (fits actual r.estimates)
    then err value_error
    else if is_reserved r.state
    then finish_reserved r actual now s
    else if same_amounts r.actual actual
    then ok (record { decision = decide r.state none; updates = []; entry = none })
    else err value_error

-- One round of `calculate_expire` at a window that survives.
unfoldable pub expire_rate : QuotaSpec → Timestamp → Option Rate → Result ℕ
unfolding read_number
expire_rate q now none = ok (full q)
expire_rate q now (some rate) = do
  credits ← read_number rate.credits
  at ← read_number rate.at
  ok (refill q credits at now q.amount)

unfoldable pub expire_window : QuotaSpec → Timestamp → Window → Option Rate → Result QuotaUpdate
unfolding read_integer expire_rate
expire_window q now w rate = do
  used ← read_integer w.used
  held ← read_integer w.held
  credits ← expire_rate q now rate
  ok (record { quota = q; used = used; held = held - q.amount; credits = credits; at = now })

-- The loop of `calculate_expire`; a window that is gone is skipped.
unfoldable pub expire_quotas : List QuotaSpec → Timestamp → Snapshot → Result (List QuotaUpdate)
unfolding expire_window
expire_quotas [] now s = ok []
expire_quotas (q ∷ qs) now s =
    let rest = expire_quotas qs now s in
    elim (s.window q.key) [
      | none ↦ rest
      | some w ↦ expire_window q now w (s.rate q.rate) >>= λ u. (rest >>= λ us. ok (u ∷ us))
    ]

-- `calculate_expire`
unfoldable pub calculate_expire : BudgetRecord → Timestamp → Snapshot → Result BudgetMutation
unfolding expire_quotas
calculate_expire r now s =
    if is_reserved r.state
    then (do
      updates ← expire_quotas r.quotas now s
      ok (record {
        decision = decide expired none;
        updates = updates;
        entry = some (record r { actual = none; state = expired });
      }))
    else ok (record { decision = decide r.state none; updates = []; entry = some r })
