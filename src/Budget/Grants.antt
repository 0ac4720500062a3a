-- ===== src/Budget/Grants.antt =====
-- Proofs about the grant of a reservation in budget_state.py.
use hovorun_v.Prelude.{
  Option, none, >>-then, ℕ, ◌+◌, ◌-◌, ◌*◌, min, max, ◌≤◌, ◌<◌, ◌≡◌, refl, ◌∙◌, ap, false, some,
  List, [], ◌∷◌, map, length, ltb, leb, All, Bool-cases, inl, inr, ok, >>=-eq-ok, ok-injective,
  arith, if◌then◌else◌,
}
use hovorun_v.Domain.{Timestamp, second, seconds}
use hovorun_v.Usage.Budgets.{reserved}
use hovorun_v.Budget.Record.{QuotaSpec, ConcurrencySpec, BudgetRecord, QuotaKey}
use mathlib.Core.Path.{subst}
use hovorun_v.Budget.Settlement.{read_integer-some, read_number-some}
use hovorun_v.Budget.Calculate.{
  Snapshot, QuotaUpdate, BudgetMutation, Reading, Plan, never, plan, add_update, scale, full,
  Window, Rate, read_window, read_rate, read_integer, read_number, ceil_div, read_quota,
  quota_retry, reserve_update, reserve_quotas, concurrency_retry, conclude_reserve,
  calculate_reserve, tail_of,
}

-- A retry time only grows along the loops.
quota_retry-ge :
    (r : BudgetRecord) (q : QuotaSpec) (x : Reading) (retry : Timestamp)
    → retry ≤ quota_retry r q x retry
unfolding quota_retry
quota_retry-ge r q x retry = ground arith

concurrency_retry-ge :
    (r : BudgetRecord) (s : Snapshot) (cs : List ConcurrencySpec) (retry : Timestamp)
    → retry ≤ concurrency_retry r s cs retry
unfolding concurrency_retry
concurrency_retry-ge r s [] retry = omega arith
concurrency_retry-ge r s (c ∷ cs) retry = ground (
  arith,
  concurrency_retry-ge r s cs
      (if leb c.limit (length (s.members c.key)) then max retry (r.now + second) else retry),
)

-- A window that has not ended yet, with a limit.
pub record IsCurrent (now : Timestamp) (q : QuotaSpec) : Type 0 where
  pub open_window : now < seconds q.ends
  pub limited : 0 < q.limit

-- What the store has for a quota: a window that is missing holds nothing and has used the baseline, and
-- one that is there has used at least the baseline.
abbrev pub IsUsage : Option Window → ℕ → ℕ → ℕ → Type 0
IsUsage none baseline used held = (used ≡ baseline) × (held ≡ 0)
IsUsage (some w) baseline used held =
    (n : ℕ) × (w.used ≡ some n) × (used ≡ max n baseline) × (w.held ≡ some held)

-- A bucket that is missing is full, and one that is there has what time has added, up to its burst.
abbrev pub IsBucket : Option Rate → QuotaSpec → Timestamp → ℕ → Type 0
IsBucket none q now credits = credits ≡ full q
IsBucket (some rate) q now credits =
    (c : ℕ) × (since : ℕ) × (rate.credits ≡ some c)
    × (rate.at ≡ some since)
    × (credits ≡ min (full q) (c + (now - since) * q.limit))

-- What the update of a granted quota keeps to: of what the store has for it, the amount is held and its
-- tokens are taken.
pub record IsGranted (r : BudgetRecord) (s : Snapshot) (u : QuotaUpdate) : Type 0 where
  pub found_held : ℕ
  pub found_credits : ℕ
  pub usage : IsUsage (s.window u.quota.key) u.quota.baseline u.used found_held
  pub holding : u.held ≡ found_held + u.quota.amount
  pub bucket : IsBucket (s.rate u.quota.rate) u.quota r.now found_credits
  pub taken : u.credits + u.quota.amount * scale u.quota ≡ found_credits
  pub within : u.used + u.held ≤ u.quota.limit
  pub burst : u.quota.amount ≤ u.quota.burst
  pub charged : u.quota.baseline ≤ u.used
  pub held : u.quota.amount ≤ u.held
  pub credited : u.credits + u.quota.amount * scale u.quota ≤ full u.quota
  pub stamped : u.at ≡ r.now

ceil_div-pos : (a b : ℕ) → 0 < a → 0 < b → 0 < ceil_div a b
ceil_div-pos a b h k = grind arith

read_quota_bounds :
    (r : BudgetRecord) (q : QuotaSpec) (c : ConcurrencySpec) (s : Snapshot)
    (previous : List QuotaKey) {x : Reading}
    → read_quota r q c s previous ≡ ok x
    → (q.baseline ≤ x.used) × (x.credits ≤ full q)
unfolding read_quota
read_quota_bounds r q c s previous h = ground arith

window-IsUsage :
    (o : Option Window) (baseline : ℕ) {x : ℕ × ℕ}
    → read_window o baseline ≡ ok x
    → IsUsage o baseline x.0 x.1
unfolding read_window
window-IsUsage none baseline {x} h =
    subst (λ x. (x.0 ≡ baseline) × (x.1 ≡ 0)) (ok-injective h) (omega arith, refl)
window-IsUsage (some w) baseline {x} h =
    let (used, found, rest) = >>=-eq-ok (read_integer w.used) _ h in
    let (held, found_held, made) = >>=-eq-ok (read_integer w.held) _ rest in
    subst (λ x. IsUsage (some w) baseline x.0 x.1) (ok-injective made)
      (used, read_integer-some w.used found, refl, read_integer-some w.held found_held)

rate-IsBucket :
    (o : Option Rate) (q : QuotaSpec) (now : Timestamp) {n : ℕ}
    → read_rate o q now ≡ ok n
    → IsBucket o q now n
unfolding read_rate
rate-IsBucket none q now h = ground (arith, ok-injective h)
rate-IsBucket (some rate) q now h =
    let (c, found, rest) = >>=-eq-ok (read_number rate.credits) _ h in
    let (since, found_since, made) = >>=-eq-ok (read_number rate.at) _ rest in
    (
      c,
      since,
      read_number-some rate.credits found,
      read_number-some rate.at found_since,
      omega (arith, ok-injective made),
    )

-- A reading is what the store has.
record IsRead (s : Snapshot) (q : QuotaSpec) (now : Timestamp) (x : Reading) : Type 0 where
  usage : IsUsage (s.window q.key) q.baseline x.used x.held
  bucket : IsBucket (s.rate q.rate) q now x.credits

read_quota-IsRead :
    (r : BudgetRecord) (q : QuotaSpec) (c : ConcurrencySpec) (s : Snapshot)
    (previous : List QuotaKey) {x : Reading}
    → read_quota r q c s previous ≡ ok x
    → IsRead s q r.now x
unfolding read_quota
read_quota-IsRead r q c s previous h =
    let (_, rest) = >>-then _ h in
    let (_, rest1) = >>-then _ rest in
    let (w, found, rest2) = >>=-eq-ok (read_window (s.window q.key) q.baseline) _ rest1 in
    let (credits, found_rate, rest3) = >>=-eq-ok (read_rate (s.rate q.rate) q r.now) _ rest2 in
    let (_, made) = >>-then _ rest3 in
    let x : Reading = record { used = w.0; held = w.1; credits = credits } in
    let facts : IsRead s q r.now x = record {
      usage = window-IsUsage (s.window q.key) q.baseline found;
      bucket = rate-IsBucket (s.rate q.rate) q r.now found_rate;
    } in
    subst (IsRead s q r.now) (ok-injective made) facts

granted_update :
    (r : BudgetRecord) (q : QuotaSpec) (x : Reading) (s : Snapshot) (retry : Timestamp)
    → IsCurrent r.now q
    → ltb (min q.burst q.limit) q.amount ≡ false
    → q.baseline ≤ x.used
    → x.credits ≤ full q
    → IsRead s q r.now x
    → quota_retry r q x retry ≤ r.now
    → IsGranted r s (reserve_update r q x)
unfolding quota_retry
granted_update r q x s retry cur fits base cred read le =
    let enough : q.amount * scale q ≤ x.credits =
      ground (arith, ceil_div-pos (q.amount * scale q - x.credits) q.limit) in
    record {
      found_held = x.held;
      found_credits = x.credits;
      usage = read.usage;
      holding = refl;
      bucket = read.bucket;
      taken = omega arith;
      within = ground arith;
      burst = ground arith;
      charged = base;
      held = omega arith;
      credited = omega arith;
      stamped = refl;
    }

-- A plan of the loop, for the quotas that it was made for.
record IsPlanned (r : BudgetRecord) (s : Snapshot) (qs : List QuotaSpec) (us : List QuotaUpdate)
    : Type 0 where
  granted : All (IsGranted r s) us
  complete : map (λ u. u.quota) us ≡ qs

reserve_step :
    (r : BudgetRecord) (q : QuotaSpec) (qs : List QuotaSpec) (x : Reading) {final : Timestamp}
    {us : List QuotaUpdate} (p : Plan)
    → add_update (reserve_update r q x) p ≡ plan final us
    → (vs : List QuotaUpdate) × (p ≡ plan final vs) × (us ≡ reserve_update r q x ∷ vs)
reserve_step r q qs x never h = cc
reserve_step r q qs x (plan retry vs) h = (vs, cc, cc)

reserve_quotas-IsPlanned :
    (r : BudgetRecord) (s : Snapshot) (previous : List QuotaKey) (retry : Timestamp)
    (qs : List QuotaSpec) (cs : List ConcurrencySpec) {final : Timestamp} {us : List QuotaUpdate}
    → All (IsCurrent r.now) qs
    → reserve_quotas r s previous retry qs cs ≡ ok (plan final us)
    → (retry ≤ final) × (final ≤ r.now → IsPlanned r s qs us)
unfolding reserve_quotas
reserve_quotas-IsPlanned r s previous retry [] [] cur h = ground arith
reserve_quotas-IsPlanned r s previous retry [] (c ∷ cs) cur h = cc
reserve_quotas-IsPlanned r s previous retry (q ∷ qs) [] cur h = cc
reserve_quotas-IsPlanned r s previous retry (q ∷ qs) (c ∷ cs) cur h =
    elim (Bool-cases (ltb (min q.burst q.limit) q.amount)) [
      | inl big ↦ absurd (ground arith)
      | inr fits ↦
          let round = rw (fits, reserve_quotas) at h in
          let (x, read, rest) = >>=-eq-ok (read_quota r q c s previous) _ round in
          let (p, tail, last) =
            >>=-eq-ok (reserve_quotas r s previous (quota_retry r q x retry) qs cs) _ rest in
          let (vs, is_plan, split) = reserve_step r q qs x p (ok-injective last) in
          let ih =
            reserve_quotas-IsPlanned r s previous (quota_retry r q x retry) qs cs cur.1
              (tail ∙ ap ok is_plan) in
          let bounds = read_quota_bounds r q c s previous read in
          (
            omega (arith, ih.0, quota_retry-ge r q x retry),
            λ le. rw split (record {
              granted = (
                granted_update r q x s retry cur.0 fits bounds.0 bounds.1
                    (read_quota-IsRead r q c s previous read) (omega (arith, ih.0)),
                (ih.1 le).granted,
              );
              complete = ap (λ l. q ∷ l) (ih.1 le).complete;
            }),
          )
    ]

pub concurrency_free :
    (r : BudgetRecord) (s : Snapshot) (cs : List ConcurrencySpec) (retry : Timestamp)
    → concurrency_retry r s cs retry ≤ r.now
    → All (λ c. length (s.members c.key) < c.limit) cs
unfolding concurrency_retry
concurrency_free r s [] retry h = tt
concurrency_free r s (c ∷ cs) retry h =
    let next : Timestamp =
      if leb c.limit (length (s.members c.key)) then max retry (r.now + second) else retry in
    (ground (arith, concurrency_retry-ge r s cs next), concurrency_free r s cs next h)

abbrev plan_time : Plan → Timestamp
plan_time never = 0
plan_time (plan t us) = t

-- The decision that a plan leads to.
conclude_reserved :
    (r : BudgetRecord) (s : Snapshot) (p : Plan)
    → (conclude_reserve r s p).decision.state ≡ reserved
    → (us : List QuotaUpdate) × (p ≡ plan (plan_time p) us)
      × (concurrency_retry r s r.concurrency (plan_time p) ≤ r.now)
      × ((conclude_reserve r s p).updates ≡ us)
      × ((conclude_reserve r s p).entry ≡ some r)
unfolding conclude_reserve
conclude_reserved r s never h = absurd (ground arith)
conclude_reserved r s (plan retry us) h = (us, refl, ground arith, ground arith, ground arith)

-- A reservation that is granted.
pub record IsReservation (r : BudgetRecord) (s : Snapshot) (m : BudgetMutation) : Type 0 where
  pub granted : All (IsGranted r s) m.updates
  pub complete : map (λ u. u.quota) m.updates ≡ r.quotas
  pub free : All (λ c. length (s.members c.key) < c.limit) r.concurrency
  pub entry : m.entry ≡ some r

-- A reservation that is granted while its quotas have limits above 0 and windows that have not
-- ended updates every quota once and in order: what the store had used and held for it stays, raised to
-- the baseline, its amount is held beside that, and its tokens leave what the bucket had at that moment.
-- Each is within its window's limit, its burst and its bucket. Every concurrency set was found below its
-- limit, and the record is stored.
pub calculate_reserve-IsReservation :
    (r : BudgetRecord) (s : Snapshot) (previous : List QuotaKey) {m : BudgetMutation}
    → All (IsCurrent r.now) r.quotas
    → calculate_reserve r s previous ≡ ok m
    → m.decision.state ≡ reserved
    → IsReservation r s m
unfolding calculate_reserve
calculate_reserve-IsReservation r s previous {m} cur h state =
    let (p, planned, made) =
      >>=-eq-ok (reserve_quotas r s previous r.now r.quotas (tail_of r.concurrency)) _ h in
    let same : conclude_reserve r s p ≡ m = ok-injective made in
    let (us, is_plan, free, updates, entry) =
      conclude_reserved r s p (ap (λ n. n.decision.state) same ∙ state) in
    let facts =
      reserve_quotas-IsPlanned r s previous r.now r.quotas (tail_of r.concurrency) cur
        (planned ∙ ap ok is_plan) in
    let done =
      facts.1 (omega (arith, free, concurrency_retry-ge r s r.concurrency (plan_time p))) in
    rw (← same) (record {
      granted = rw updates done.granted;
      complete = rw updates done.complete;
      free = concurrency_free r s r.concurrency (plan_time p) free;
      entry = entry;
    })
