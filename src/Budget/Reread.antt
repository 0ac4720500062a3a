-- ===== src/Budget/Reread.antt =====
-- Proofs that budget_state.py accepts a reservation again after it has ended.
use hovorun_v.Prelude.{
  ◌≡◌, refl, true, Option, none, some, List, [], ◌∷◌, String, ok, ◌>>◌, arith, >>-eq-ok, ok->>, ap,
}
use hovorun_v.Usage.Budgets.{ReservationState, expired}
use hovorun_v.Budget.Record.{Amounts, BudgetRecord, QuotaSpec}
use hovorun_v.Budget.Verify.{
  is_recorded_state, require_record_binding, require_estimate_coverage, require_quota_key,
  require_quota_keys, verify_record_keys, require_settlement, require_settled, verify_record,
}
use hovorun_v.Budget.Settle.{settled, settled_state, fits}

module _ (r : BudgetRecord) (s : ReservationState) (a : Option Amounts) where
  abbrev ended : BudgetRecord
  ended = record r { state = s; actual = a }

  quota_keys_same : (qs : List QuotaSpec) → require_quota_keys qs ended ≡ require_quota_keys qs r
  unfolding require_quota_keys require_quota_key
  quota_keys_same [] = refl
  quota_keys_same (q ∷ qs) = ap (λ m. require_quota_key q r >> m) (quota_keys_same qs)

  keys_same : verify_record_keys ended ≡ verify_record_keys r
  unfolding verify_record_keys
  keys_same = rw (quota_keys_same r.quotas) refl

  binding_same :
      (id : String)
      → is_recorded_state s ≡ true
      → require_record_binding r id ≡ ok tt
      → require_record_binding ended id ≡ ok tt
  unfolding require_record_binding
  binding_same id k h = ground arith

  coverage_same : require_estimate_coverage ended ≡ require_estimate_coverage r
  unfolding require_estimate_coverage
  coverage_same = refl

  ended_verified :
      (id : String)
      → is_recorded_state s ≡ true
      → verify_record r id ≡ ok tt
      → require_settlement ended ≡ ok tt
      → verify_record ended id ≡ ok tt
  unfolding verify_record
  ended_verified id k h settlement =
      let (binding, rest) = >>-eq-ok (require_record_binding r id) _ h in
      let (coverage, rest1) = >>-eq-ok (require_estimate_coverage r) _ rest in
      let (keys, _) = >>-eq-ok (verify_record_keys r) _ rest1 in
      ok->> (require_record_binding ended id) _ (binding_same id k binding) (
        ok->> (require_estimate_coverage ended) _ (rw coverage_same coverage)
          (ok->> (verify_record_keys ended) _ (rw keys_same keys) settlement))

pub settled_verified :
    (r : BudgetRecord) (actual : Amounts) (id : String)
    → verify_record r id ≡ ok tt
    → fits actual r.estimates ≡ true
    → verify_record (settled r actual) id ≡ ok tt
unfolding require_settlement require_settled
settled_verified r actual id h f =
    ended_verified r (settled_state actual) (some actual) id (ground arith) h (ground arith)

pub expired_verified :
    (r : BudgetRecord) (id : String)
    → verify_record r id ≡ ok tt
    → verify_record (record r { actual = none; state = expired }) id ≡ ok tt
unfolding require_settlement
expired_verified r id h = ended_verified r expired none id refl h refl
