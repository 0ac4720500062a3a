-- ===== src/Budget/Settlement.antt =====
-- Proofs about the settlement of a reservation in budget_state.py.
use hovorun_v.Prelude.{
  ltb, raise_if, unavailable, sym, ap, Option, is_some, xor, not, min, ◌*◌, ◌<◌, ◌↔◌, if◌then◌else◌,
  decided, ℕ, ◌+◌, ◌-◌, ◌≤◌, ◌≡◌, refl, true, false, none, some, List, [], ◌∷◌, map, All,
  Bool-cases, Option-cases, inl, inr, ok, err, >>=-eq-ok, >>-eq-ok, >>-then, value_error,
  ok-injective, arith,
}
use mathlib.Core.Path.{subst}
use hovorun_v.Domain.{Timestamp, second}
use hovorun_v.Usage.Budgets.{max_exact_integer, reserved, committed, released}
use hovorun_v.Usage.Policies.{UsageUnit, requests, resource, tokens}
use hovorun_v.Budget.Verify.{any_amount, is_positive_amount, amount_within}
use hovorun_v.Budget.Record.{Amounts, Amounts-discrete, amount_at, QuotaSpec, BudgetRecord}
use hovorun_v.Budget.Calculate.{
  Snapshot, QuotaUpdate, BudgetMutation, full, refill, decide, read_integer, read_number,
}
use hovorun_v.Budget.Settle.{
  credits_of, at_of, verify_active_ownership, verify_quotas, verify_quota, settle_quota,
  settle_quotas, fits, settled, settled_state, finish_reserved, calculate_finish, used_of, held_of,
}

-- What a settled quota keeps to: all of its amount leaves the held count, and only what was consumed
-- enters the used count, so the window never grows; the bucket gets back what time has added and the
-- tokens that were not consumed, up to its burst.
pub record IsReturned (now : Timestamp) (s : Snapshot) (actual : Amounts) (u : QuotaUpdate)
    : Type 0 where
  pub consumed : ℕ
  pub counted : amount_at actual u.quota.unit ≡ some consumed
  pub used : used_of (s.window u.quota.key) ≡ some (u.used - consumed)
  pub spent : consumed ≤ u.used
  pub held : held_of (s.window u.quota.key) ≡ some (u.held + u.quota.amount)
  pub tokens : ℕ
  pub since : ℕ
  pub found_tokens : credits_of (s.rate u.quota.rate) ≡ some tokens
  pub found_since : at_of (s.rate u.quota.rate) ≡ some since
  pub credited :
      u.credits
      ≡ min (full u.quota) (
          tokens
          + (now - since) * u.quota.limit
          + (u.quota.amount - consumed) * (u.quota.seconds * second))
  pub stamped : u.at ≡ now

pub read_integer-some : (o : Option ℕ) {n : ℕ} → read_integer o ≡ ok n → o ≡ some n
unfolding read_integer
read_integer-some o h = ground arith

pub read_number-some : (o : Option ℕ) {n : ℕ} → read_number o ≡ ok n → o ≡ some n
unfolding read_number
read_number-some o h = ground arith

settle_quota-IsReturned :
    (q : QuotaSpec) (actual : Amounts) (n : ℕ) (now : Timestamp) (s : Snapshot) {u : QuotaUpdate}
    → amount_at actual q.unit ≡ some n
    → verify_quota q s ≡ ok tt
    → settle_quota q n now s ≡ ok u
    → IsReturned now s actual u
unfolding settle_quota verify_quota
settle_quota-IsReturned q actual n now s e v h =
    let (used, found_used, rest) = >>=-eq-ok (read_integer (used_of (s.window q.key))) _ h in
    let (held, found_held, rest1) = >>=-eq-ok (read_integer (held_of (s.window q.key))) _ rest in
    let (credits, found_credits, rest2) =
      >>=-eq-ok (read_number (credits_of (s.rate q.rate))) _ rest1 in
    let (since, found_since, rest3) = >>=-eq-ok (read_number (at_of (s.rate q.rate))) _ rest2 in
    let (_, made) = >>-then (raise_if (ltb max_exact_integer (used + n)) unavailable) rest3 in
    let in_store = read_integer-some (held_of (s.window q.key)) found_held in
    let new : QuotaUpdate = record {
      quota = q;
      used = used + n;
      held = held - q.amount;
      credits = refill q credits since now (q.amount - n);
      at = now;
    } in
    let facts : IsReturned now s actual new = record {
      consumed = n;
      counted = e;
      used = ground (arith, read_integer-some (used_of (s.window q.key)) found_used);
      spent = omega arith;
      held = ground (arith, in_store);
      tokens = credits;
      since = since;
      found_tokens = read_number-some (credits_of (s.rate q.rate)) found_credits;
      found_since = read_number-some (at_of (s.rate q.rate)) found_since;
      credited = refl;
      stamped = refl;
    } in
    subst (IsReturned now s actual) (ok-injective made) facts

settle_quota-quota :
    (q : QuotaSpec) (n : ℕ) (now : Timestamp) (s : Snapshot) {u : QuotaUpdate}
    → settle_quota q n now s ≡ ok u
    → u.quota ≡ q
unfolding settle_quota
settle_quota-quota q n now s h = ground arith

settle_quotas-IsReturned :
    (qs : List QuotaSpec) (actual : Amounts) (now : Timestamp) (s : Snapshot)
    {us : List QuotaUpdate}
    → verify_quotas qs s ≡ ok tt
    → settle_quotas qs actual now s ≡ ok us
    → All (IsReturned now s actual) us × (map (λ u. u.quota) us ≡ qs)
unfolding settle_quotas verify_quotas
settle_quotas-IsReturned [] actual now s v h =
    subst (λ us. All (IsReturned now s actual) us × (map (λ u. u.quota) us ≡ [])) (ok-injective h)
      (tt, refl)
settle_quotas-IsReturned (q ∷ qs) actual now s v h = elim (Option-cases (amount_at actual q.unit)) [
  | inl missing ↦ absurd (ground arith)
  | inr (n, e) ↦
      let owned = >>-eq-ok (verify_quota q s) (verify_quotas qs s) v in
      let (u, one, rest) = >>=-eq-ok (settle_quota q n now s) _ (rw (e, settle_quotas) at h) in
      let (us, tail, last) = >>=-eq-ok (settle_quotas qs actual now s) _ rest in
      let ih = settle_quotas-IsReturned qs actual now s owned.1 tail in
      subst (λ l. All (IsReturned now s actual) l × (map (λ u. u.quota) l ≡ q ∷ qs))
        (ok-injective last)
        (
          (settle_quota-IsReturned q actual n now s e owned.0 one, ih.0),
          cc (ih.1, settle_quota-quota q n now s one),
        )
]

-- Something was consumed.
abbrev pub IsConsumed : Amounts → Type 0
IsConsumed actual = (u : UsageUnit) × (n : ℕ) × (amount_at actual u ≡ some n) × (0 < n)

-- The amounts are of exactly the estimated units, and of each at most what was estimated.
abbrev pub IsCovered : Amounts → Amounts → Type 0
IsCovered estimates actual =
    (u : UsageUnit)
    → ((n : ℕ) → amount_at actual u ≡ some n → (e : ℕ) × (amount_at estimates u ≡ some e) × (n ≤ e))
      × ((e : ℕ) → amount_at estimates u ≡ some e → (n : ℕ) × (amount_at actual u ≡ some n))

positive_amount : (o : Option ℕ) → is_positive_amount o ≡ true → (n : ℕ) × (o ≡ some n) × (0 < n)
positive_amount none h = cc
positive_amount (some n) h = (n, refl, ground arith)

any_amount_iff : (actual : Amounts) → (any_amount actual ≡ true) ↔ IsConsumed actual
any_amount_iff actual = (there, back)
  where
    there : any_amount actual ≡ true → IsConsumed actual
    there h = elim (Bool-cases (is_positive_amount actual.request_amount)) [
      | inl yes_requests ↦
          let (n, e, k) = positive_amount actual.request_amount yes_requests in (requests, n, e, k)
      | inr no_requests ↦ elim (Bool-cases (is_positive_amount actual.resource_amount)) [
        | inl yes_resource ↦
            let (n, e, k) = positive_amount actual.resource_amount yes_resource in
            (resource, n, e, k)
        | inr no_resource ↦
            let (n, e, k) = positive_amount actual.token_amount (ground arith) in (tokens, n, e, k)
      ]
    ]

    back : IsConsumed actual → any_amount actual ≡ true
    back (requests, n, e, h) = ground arith
    back (resource, n, e, h) = ground arith
    back (tokens, n, e, h) = ground arith

unit_covered :
    (a e : Option ℕ)
    → not (xor (is_some a) (is_some e)) ≡ true
    → amount_within a e ≡ true
    → ((n : ℕ) → a ≡ some n → (k : ℕ) × (e ≡ some k) × (n ≤ k))
      × ((k : ℕ) → e ≡ some k → (n : ℕ) × (a ≡ some n))
unit_covered none none h w = (λ n x. cc, λ k x. cc)
unit_covered none (some k) h w = cc
unit_covered (some n) none h w = cc
unit_covered (some n) (some k) h w = (λ m x. (k, refl, ground arith), λ j x. (n, refl))

fits-IsCovered :
    (actual estimates : Amounts) → fits actual estimates ≡ true → IsCovered estimates actual
fits-IsCovered actual estimates h requests =
    unit_covered actual.request_amount estimates.request_amount (ground arith) (ground arith)
fits-IsCovered actual estimates h resource =
    unit_covered actual.resource_amount estimates.resource_amount (ground arith) (ground arith)
fits-IsCovered actual estimates h tokens =
    unit_covered actual.token_amount estimates.token_amount (ground arith) (ground arith)

-- What a settlement of a live reservation does.
pub record IsSettlement (r : BudgetRecord) (actual : Amounts) (now : Timestamp) (s : Snapshot)
    (m : BudgetMutation) : Type 0 where
  pub returned : All (IsReturned now s actual) m.updates
  pub complete : map (λ u. u.quota) m.updates ≡ r.quotas
  pub consumed_state : (m.decision.state ≡ committed) ↔ IsConsumed actual
  pub unused_state : (IsConsumed actual → ⊥) → m.decision.state ≡ released
  pub entry : m.entry ≡ some (record r { actual = some actual; state = m.decision.state })

finish_reserved-IsSettlement :
    (r : BudgetRecord) (actual : Amounts) (now : Timestamp) (s : Snapshot) {m : BudgetMutation}
    → finish_reserved r actual now s ≡ ok m
    → IsSettlement r actual now s m
unfolding finish_reserved verify_active_ownership
finish_reserved-IsSettlement r actual now s {m} h =
    let (owned, rest) = >>-then (verify_active_ownership r s) h in
    let (us, made, last) = >>=-eq-ok (settle_quotas r.quotas actual now s) _ rest in
    let quotas = (>>-eq-ok (verify_quotas r.quotas s) _ owned).0 in
    let facts = settle_quotas-IsReturned r.quotas actual now s quotas made in
    let consumed = any_amount_iff actual in
    subst (λ n. IsSettlement r actual now s n) (ok-injective last)
      (record {
        returned = facts.0;
        complete = facts.1;
        consumed_state = (λ e. consumed.0 (ground arith), λ c. rw (consumed.1 c) refl);
        unused_state = λ none_used. elim (Bool-cases (any_amount actual)) [
          | inl some_used ↦ absurd (none_used (consumed.0 some_used))
          | inr unused ↦ rw unused refl
        ];
        entry = refl;
      })

live_finish :
    (r : BudgetRecord) (actual : Amounts) (now : Timestamp) (s : Snapshot) {m : BudgetMutation}
    → fits actual r.estimates ≡ true
    → r.state ≡ reserved
    → calculate_finish r actual now s ≡ ok m
    → finish_reserved r actual now s ≡ ok m
unfolding calculate_finish
live_finish r actual now s good live h = rw (good, live) at h

bad_finish :
    (r : BudgetRecord) (actual : Amounts) (now : Timestamp) (s : Snapshot) {m : BudgetMutation}
    → fits actual r.estimates ≡ false
    → calculate_finish r actual now s ≡ ok m
    → ⊥
unfolding calculate_finish
bad_finish r actual now s bad h = cc (rw bad at h)

settled_entry :
    (r : BudgetRecord) (actual : Amounts) (now : Timestamp) (s : Snapshot) {m : BudgetMutation}
    → finish_reserved r actual now s ≡ ok m
    → m.entry ≡ some (settled r actual)
unfolding finish_reserved
settled_entry r actual now s h =
    let (_, rest) = >>-then (verify_active_ownership r s) h in
    let (_, _, last) = >>=-eq-ok (settle_quotas r.quotas actual now s) _ rest in
    sym (ap (λ m. m.entry) (ok-injective last))

-- A settlement of a live reservation that returns fits, and stores the reservation as settled.
pub calculate_finish_stored :
    (r : BudgetRecord) (actual : Amounts) (now : Timestamp) (s : Snapshot) {m : BudgetMutation}
    → r.state ≡ reserved
    → calculate_finish r actual now s ≡ ok m
    → (fits actual r.estimates ≡ true) × (m.entry ≡ some (settled r actual))
calculate_finish_stored r actual now s live h = elim (Bool-cases (fits actual r.estimates)) [
  | inl good ↦ (good, settled_entry r actual now s (live_finish r actual now s good live h))
  | inr bad ↦ absurd (bad_finish r actual now s bad h)
]

-- A settlement of a live reservation that returns has exactly the units of the estimate, and of each at
-- most what was estimated. It gives back every quota once and in order: its amount leaves what is held,
-- what was consumed is used, and the rest of it returns to the bucket with what time has added, up to
-- the burst. The reservation is stored as committed exactly when something was consumed, and as released
-- when nothing was.
pub calculate_finish-IsSettlement :
    (r : BudgetRecord) (actual : Amounts) (now : Timestamp) (s : Snapshot) {m : BudgetMutation}
    → r.state ≡ reserved
    → calculate_finish r actual now s ≡ ok m
    → IsCovered r.estimates actual × IsSettlement r actual now s m
unfolding calculate_finish
calculate_finish-IsSettlement r actual now s {m} live h =
    elim (Bool-cases (fits actual r.estimates)) [
      | inl good ↦ (
        fits-IsCovered actual r.estimates good,
        finish_reserved-IsSettlement r actual now s (live_finish r actual now s good live h),
      )
      | inr bad ↦ absurd (bad_finish r actual now s bad h)
    ]

-- A reservation that is settled with amounts that fit its estimate answers a settlement with the
-- same amounts by its state, at any time and whatever the store holds, and moves nothing; any
-- other amounts are refused.
pub calculate_finish_replay :
    (r : BudgetRecord) (actual other : Amounts) (now : Timestamp) (s : Snapshot)
    → fits actual r.estimates ≡ true
    → calculate_finish (settled r actual) other now s ≡ (
        if decided (Amounts-discrete actual other)
        then ok
            (record { decision = decide (settled_state actual) none; updates = []; entry = none })
        else err value_error)
unfolding calculate_finish
calculate_finish_replay r actual other now s f = ground arith
