-- ===== src/Budget/Totality.antt =====
-- Proofs about the settlements of budget_state.py that return.
use hovorun_v.Prelude.{
  ℕ, ◌+◌, ◌≤◌, ◌≡◌, refl, true, some, List, [], ◌∷◌, All, ok, >>-eq-ok, arith, is_ok, is_ok->>=,
}
use hovorun_v.Domain.{Timestamp}
use hovorun_v.Usage.Budgets.{reserved, max_exact_integer}
use hovorun_v.Budget.Record.{Amounts, amount_at, QuotaSpec, BudgetRecord}
use hovorun_v.Budget.Calculate.{Snapshot}
use hovorun_v.Budget.Settle.{
  used_of, verify_quota, verify_quotas, verify_active_ownership, settle_quota, settle_quotas, fits,
  finish_reserved, calculate_finish,
}

-- A quota whose consumption can be counted exactly.
abbrev pub IsCountable : Amounts → Snapshot → QuotaSpec → Type 0
IsCountable actual s q =
    (n : ℕ) × (m : ℕ) × (amount_at actual q.unit ≡ some n)
    × (used_of (s.window q.key) ≡ some m)
    × (m + n ≤ max_exact_integer)

settle_quota-returns :
    (q : QuotaSpec) (n m : ℕ) (now : Timestamp) (s : Snapshot)
    → verify_quota q s ≡ ok tt
    → used_of (s.window q.key) ≡ some m
    → m + n ≤ max_exact_integer
    → is_ok (settle_quota q n now s) ≡ true
unfolding settle_quota verify_quota
settle_quota-returns q n m now s v e h = ground arith

settle_quotas-returns :
    (qs : List QuotaSpec) (actual : Amounts) (now : Timestamp) (s : Snapshot)
    → verify_quotas qs s ≡ ok tt
    → All (IsCountable actual s) qs
    → is_ok (settle_quotas qs actual now s) ≡ true
unfolding settle_quotas verify_quotas
settle_quotas-returns [] actual now s v c = refl
settle_quotas-returns (q ∷ qs) actual now s v c =
    let owned = >>-eq-ok (verify_quota q s) (verify_quotas qs s) v in
    let (n, m, e, f, h) = c.0 in
    rw (e, settle_quotas)
      (is_ok->>= (settle_quota q n now s) _ (settle_quota-returns q n m now s owned.0 f h) (λ u.
        is_ok->>= (settle_quotas qs actual now s) _
          (settle_quotas-returns qs actual now s owned.1 c.1) (λ us. refl)))

-- A settlement of a live reservation returns, where its amounts fit the estimate, the store still
-- shows that the reservation owns what it took, and every count stays exact.
pub calculate_finish-returns :
    (r : BudgetRecord) (actual : Amounts) (now : Timestamp) (s : Snapshot)
    → r.state ≡ reserved
    → fits actual r.estimates ≡ true
    → verify_active_ownership r s ≡ ok tt
    → All (IsCountable actual s) r.quotas
    → is_ok (calculate_finish r actual now s) ≡ true
unfolding calculate_finish finish_reserved verify_active_ownership
calculate_finish-returns r actual now s live good owned c =
    let quotas = (>>-eq-ok (verify_quotas r.quotas s) _ owned).0 in
    let settled = settle_quotas-returns r.quotas actual now s quotas c in
    rw (good, live, owned) (is_ok->>= (settle_quotas r.quotas actual now s) _ settled (λ us. refl))
