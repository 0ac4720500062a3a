-- ===== src/Budget/Store.antt =====
-- src/hovorunv2/infrastructure/runtime/budgets.py: the transactions of `ValkeyBudgetStore`, each as a
-- function of the store that its reads see and that its writes replace.
use hovorun_v.Prelude.{
  ℕ, ◌+◌, Bool, true, false, not, ◌&&◌, ◌||◌, Option, none, some, is_some, List, [], ◌∷◌, String,
  String-discrete, ℕ_discrete, ℤ-discrete, decided, contains, length, ltb, leb, ◌==◌, Dict, lookup,
  put, remove, if◌then◌else◌, Result, ok, err, ◌>>=◌, ◌>>◌, raise_if, value_error, unavailable,
}
use hovorun_v.Domain.{Timestamp, Instant, at, negative, nonfinite, seconds, TargetKind-discrete}
use hovorun_v.Usage.Policies.{UsageUnit-discrete}
use hovorun_v.Usage.Budgets.{
  BudgetRequest, ReservationDecision, UnitAmount, expired, unavailable as unavailable_state,
  stale_grace_seconds,
}
use hovorun_v.Budget.Record.{
  Amounts, BudgetRecord, Fingerprint, Scope, Scope-discrete, QuotaKey, QuotaKey-discrete, QuotaSpec,
  ConcurrencyKey, ConcurrencyKey-discrete, ConcurrencySpec, build_record, validate_reserve_args,
  validate_finish_args,
}
use hovorun_v.Budget.Verify.{verify_record}
use hovorun_v.Budget.Calculate.{
  Window, Rate, Snapshot, QuotaUpdate, BudgetMutation, calculate_reserve, decide, tail_of,
}
use hovorun_v.Budget.Settle.{
  is_reserved, verify_active_ownership, verify_previous_window, calculate_finish, calculate_expire,
}

unfoldable pub Fingerprint-discrete : Discrete Fingerprint
unfolding ℕ_discrete ℤ-discrete TargetKind-discrete String-discrete UsageUnit-discrete
Fingerprint-discrete =
    hlevel (ℕ_discrete, ℤ-discrete, TargetKind-discrete, String-discrete, UsageUnit-discrete)

-- What stands under a reservation's key.
pub data Entry : Type 0 where
  unreadable : Entry
  written : BudgetRecord → Entry

-- The keys of one namespace, with what each holds.
pub record BudgetSpace : Type 0 where
  pub reservations : Dict Entry
  pub window : QuotaKey → Option Window
  pub rate : Scope → Option Rate
  pub members : ConcurrencyKey → List String
  pub active : Dict Timestamp

abbrev pub empty_budget : BudgetSpace
empty_budget = record {
  reservations = [];
  window = λ k. none;
  rate = λ k. none;
  members = λ k. [];
  active = [];
}

-- `parse_record`
unfoldable pub parse_record : Option Entry → String → Result BudgetRecord
unfolding verify_record
parse_record none id = err unavailable
parse_record (some unreadable) id = err unavailable
parse_record (some (written r)) id = elim (verify_record r id) [
  | ok _ ↦ ok r
  | err _ ↦ err unavailable
]

-- `_snapshot`
unfoldable pub snapshot : BudgetSpace → BudgetRecord → Bool → Result Snapshot
snapshot sp r require_active = do
  raise_if (require_active && not (is_some (lookup r.id sp.active))) unavailable
  ok (record { window = sp.window; rate = sp.rate; members = sp.members })

-- The inner loop of `_verify_previous_windows`.
unfoldable pub verify_holders :
    BudgetSpace → BudgetRecord → QuotaSpec → ConcurrencySpec → List String → Result (Unit {0})
unfolding parse_record snapshot verify_active_ownership verify_previous_window
verify_holders sp r q c [] = ok tt
verify_holders sp r q c (holder ∷ holders) = do
  previous ← parse_record (lookup holder sp.reservations) holder
  old ← snapshot sp previous true
  verify_active_ownership previous old
  verify_previous_window r q c previous
  verify_holders sp r q c holders

abbrev pub first_limit : List ConcurrencySpec → ℕ
first_limit [] = 0
first_limit (c ∷ cs) = c.limit

-- `_verify_previous_windows`, the loop with its `strict` zip.
unfoldable pub verify_previous_windows :
    BudgetSpace
    → BudgetRecord
    → Snapshot
    → List QuotaSpec
    → List ConcurrencySpec
    → Result (List QuotaKey)
unfolding verify_holders
verify_previous_windows sp r s [] [] = ok []
verify_previous_windows sp r s [] (c ∷ cs) = err value_error
verify_previous_windows sp r s (q ∷ qs) [] = err value_error
verify_previous_windows sp r s (q ∷ qs) (c ∷ cs) =
    let rest = verify_previous_windows sp r s qs cs in
    if is_some (s.window q.key) || length (s.members c.key) == 0 then rest else (do
      raise_if (ltb (first_limit r.concurrency) (length (s.members c.key))) unavailable
      verify_holders sp r q c (s.members c.key)
      verified ← rest
      ok (q.key ∷ verified))

-- `_replay_reservation`
unfoldable pub replay_reservation : BudgetSpace → BudgetRecord → Entry → Result ReservationDecision
unfolding parse_record snapshot verify_active_ownership Fingerprint-discrete
replay_reservation sp r raw = do
  old ← parse_record (some raw) r.id
  raise_if (not (decided (Fingerprint-discrete old.fingerprint r.fingerprint))) value_error
  if not (is_reserved old.state)
      then ok (decide old.state none)
      else if leb r.deadline r.now
      then ok (decide expired none)
      else (do s ← snapshot sp old true; verify_active_ownership old s; ok (decide old.state none))

abbrev pub set_window : QuotaKey → Window → (QuotaKey → Option Window) → QuotaKey → Option Window
set_window k w window j = if decided (QuotaKey-discrete k j) then some w else window j

abbrev pub set_rate : Scope → Rate → (Scope → Option Rate) → Scope → Option Rate
set_rate k w rate j = if decided (Scope-discrete k j) then some w else rate j

-- The loop over the updates, the two HSETs of each.
unfoldable pub write_updates : BudgetSpace → List QuotaUpdate → BudgetSpace
write_updates sp [] = sp
write_updates sp (u ∷ us) =
    write_updates
      (record sp {
        window =
            set_window u.quota.key (record { used = some u.used; held = some u.held }) sp.window;
        rate = set_rate u.quota.rate (record { credits = some u.credits; at = some u.at }) sp.rate;
      })
      us

unfoldable pub has_key : ConcurrencyKey → List ConcurrencySpec → Bool
unfolding ConcurrencyKey-discrete
has_key k [] = false
has_key k (c ∷ cs) = decided (ConcurrencyKey-discrete c.key k) || has_key k cs

-- SADD and SREM on one set.
unfoldable pub add_member : String → List String → List String
add_member id ids = if contains String-discrete id ids then ids else id ∷ ids

unfoldable pub remove_member : String → List String → List String
unfolding String-discrete
remove_member id [] = []
remove_member id (x ∷ xs) =
    let rest = remove_member id xs in if decided (String-discrete id x) then rest else x ∷ rest

-- `_write_reservation_mutation`
unfoldable pub write_reservation : BudgetSpace → BudgetRecord → List QuotaUpdate → BudgetSpace
unfolding write_updates has_key add_member
write_reservation sp r updates =
    let sp' = write_updates sp updates in
    record sp' {
      members =
          λ k. if has_key k r.concurrency then add_member r.id (sp'.members k) else sp'.members k;
      reservations = put r.id (written r) sp'.reservations;
      active = put r.id r.deadline sp'.active;
    }

-- What a calculated reservation writes, by its record.
abbrev pub write_granted :
    BudgetSpace → BudgetRecord → BudgetMutation → Option BudgetRecord → BudgetSpace
write_granted sp r m none = sp
write_granted sp r m (some granted) = write_reservation sp r m.updates

-- What `_reserve_attempt` does for a new reservation before its deadline.
unfoldable pub reserve_new : BudgetSpace → BudgetRecord → Result (ReservationDecision × BudgetSpace)
unfolding snapshot verify_previous_windows calculate_reserve write_reservation
reserve_new sp r = do
  s ← snapshot sp r false
  previous ← verify_previous_windows sp r s r.quotas (tail_of r.concurrency)
  m ← calculate_reserve r s previous
  ok (m.decision, write_granted sp r m m.entry)

-- `_reserve_attempt`
unfoldable pub reserve_attempt :
    BudgetSpace → BudgetRecord → Result (ReservationDecision × BudgetSpace)
unfolding replay_reservation reserve_new
reserve_attempt sp r = elim (lookup r.id sp.reservations) [
  | some raw ↦ replay_reservation sp r raw >>= λ d. ok (d, sp)
  | none ↦ if leb r.deadline r.now then ok (decide expired none, sp) else reserve_new sp r
]

-- `except BudgetStateUnavailableError`
abbrev pub or_unavailable :
    BudgetSpace
    → Result (ReservationDecision × BudgetSpace)
    → Result (ReservationDecision × BudgetSpace)
or_unavailable sp (ok done) = ok done
or_unavailable sp (err unavailable) = ok (decide unavailable_state none, sp)
or_unavailable sp (err other) = err other

abbrev pub moment : Instant → Timestamp
moment (at t) = t
moment negative = 0
moment nonfinite = 0

-- `reserve`, by an attempt that no other client disturbs.
unfoldable pub reserve :
    BudgetSpace → BudgetRequest → Instant → List ℕ → Result (ReservationDecision × BudgetSpace)
unfolding validate_reserve_args build_record reserve_attempt
reserve sp q now totals = do
  validate_reserve_args q now totals
  r ← build_record q (moment now) totals
  or_unavailable sp (reserve_attempt sp r)

-- `_write_settlement_mutation`
unfoldable pub write_settlement :
    BudgetSpace → BudgetRecord → BudgetRecord → List QuotaUpdate → BudgetSpace
unfolding write_updates has_key remove_member
write_settlement sp r settled updates =
    let sp' = write_updates sp updates in
    record sp' {
      members = λ k.
          if has_key k r.concurrency then remove_member r.id (sp'.members k) else sp'.members k;
      reservations = put r.id (written settled) sp'.reservations;
      active = remove r.id sp'.active;
    }

-- What a calculated settlement writes, by its record.
abbrev pub write_settled :
    BudgetSpace → BudgetRecord → BudgetMutation → Option BudgetRecord → BudgetSpace
write_settled sp r m none = sp
write_settled sp r m (some settled) = write_settlement sp r settled m.updates

abbrev pub no_snapshot : Snapshot
no_snapshot = record { window = λ k. none; rate = λ k. none; members = λ k. [] }

-- `_finish_attempt`
unfoldable pub finish_attempt :
    BudgetSpace → String → Amounts → Timestamp → Result (ReservationDecision × BudgetSpace)
unfolding parse_record snapshot calculate_finish write_settlement
finish_attempt sp id actual now = elim (lookup id sp.reservations) [
  | none ↦ ok (decide unavailable_state none, sp)
  | some raw ↦ parse_record (some raw) id >>= λ r.
      ((if is_reserved r.state then snapshot sp r true else ok no_snapshot) >>= λ s.
      (calculate_finish r actual now s >>= λ m. ok (m.decision, write_settled sp r m m.entry)))
]

-- `finish`, by an attempt that no other client disturbs.
unfoldable pub finish :
    BudgetSpace → String → List UnitAmount → Instant → Result (ReservationDecision × BudgetSpace)
unfolding validate_finish_args finish_attempt
finish sp id actual now = do
  amounts ← validate_finish_args id actual now
  or_unavailable sp (finish_attempt sp id amounts (moment now))

-- What `_expire_stale_attempt` does with a stale reservation that has not ended.
unfoldable pub expire_reserved :
    BudgetSpace → BudgetRecord → Timestamp → Result (Bool × BudgetSpace)
unfolding calculate_expire write_settlement
expire_reserved sp r now = do
  m ← calculate_expire r now (record { window = sp.window; rate = sp.rate; members = sp.members })
  ok (is_some m.entry, write_settled sp r m m.entry)

-- What it does with a record that it could read.
unfoldable pub expire_record : BudgetSpace → BudgetRecord → Timestamp → Result (Bool × BudgetSpace)
unfolding expire_reserved
expire_record sp r now =
    if ltb now (r.deadline + seconds stale_grace_seconds)
    then ok (false, sp)
    else if not (is_reserved r.state)
    then ok (true, record sp { active = remove r.id sp.active })
    else expire_reserved sp r now

-- `_expire_stale_attempt`
unfoldable pub expire_attempt : BudgetSpace → String → Timestamp → Result (Bool × BudgetSpace)
unfolding parse_record expire_record
expire_attempt sp id now = elim (lookup id sp.reservations) [
  | none ↦ ok (true, record sp { active = remove id sp.active })
  | some raw ↦ elim (parse_record (some raw) id) [
    | ok r ↦ expire_record sp r now
    | err _ ↦
        ok (
          true,
          record sp { active = remove id sp.active; reservations = remove id sp.reservations },
        )
  ]
]

-- The loop of `expire_stale` over the page that the server returns; what raises is logged and skipped.
unfoldable pub expire_each : BudgetSpace → List String → Timestamp → ℕ × BudgetSpace
unfolding expire_attempt
expire_each sp [] now = (0, sp)
expire_each sp (id ∷ ids) now = elim (expire_attempt sp id now) [
  | err _ ↦ expire_each sp ids now
  | ok done ↦ let rest = expire_each done.1 ids now in ((if done.0 then 1 else 0) + rest.0, rest.1)
]
