-- ===== src/Budget/Windows.antt =====
-- Proofs about the windows of a record that budget_state.py builds.
use native.Mathlib.Nat.{mod-lt}
use mathlib.Core.Path.{subst}
use hovorun_v.Prelude.{
  ℕ, ◌+◌, ◌-◌, ◌/◌, ◌%◌, ◌<◌, ◌≡◌, refl, Bool, true, false, List, [], ◌∷◌, ◌&&◌, All, ok, >>=-eq-ok,
  ok-injective, arith, ℤ,
}
use hovorun_v.Domain.{TargetKind, Timestamp, second, seconds, is_user}
use hovorun_v.Usage.Policies.{UsagePolicy, window_start, validate_policy, validate_window}
use hovorun_v.Usage.Budgets.{BudgetRequest}
use hovorun_v.Budget.Record.{
  Amounts, QuotaSpec, ConcurrencySpec, BudgetRecord, quota_of, build_specs, build_resource_specs,
  build_record, amounts_of, no_amounts,
}
use hovorun_v.Budget.Grants.{IsCurrent}

-- A policy that passed its own validation and that of its window.
pub record IsPolicy (p : UsagePolicy) : Type 0 where
  pub checked : validate_policy p ≡ ok tt
  pub windowed : validate_window p.window ≡ ok tt

window_open : (now w : ℕ) → 0 < w → now < seconds (now / second - (now / second) % w + w)
window_open now w h = omega (arith, mod-lt (now / second) h)

policy_limits : (p : UsagePolicy) → IsPolicy p → (0 < p.limit) × (0 < p.window.seconds)
unfolding validate_policy validate_window
policy_limits p v = ground arith

quota_of-IsCurrent :
    (subject : TargetKind × ℤ) (now : Timestamp) (estimates : Amounts) (p : UsagePolicy) (t : ℕ)
    {q : QuotaSpec}
    → IsPolicy p
    → quota_of subject now estimates p t ≡ ok q
    → IsCurrent now q
unfolding quota_of window_start
quota_of-IsCurrent subject now estimates p t v h =
    ground (arith, window_open now p.window.seconds, policy_limits p v)

build_specs-IsCurrent :
    (bypass : Bool) (subject : TargetKind × ℤ) (now : Timestamp) (estimates : Amounts)
    (ps : List UsagePolicy) (ts : List ℕ) {specs : List QuotaSpec × List ConcurrencySpec}
    → All IsPolicy ps
    → build_specs bypass subject now estimates ps ts ≡ ok specs
    → All (IsCurrent now) specs.0
unfolding build_specs
build_specs-IsCurrent bypass subject now estimates [] [] v h =
    subst (λ s. All (IsCurrent now) s.0) (ok-injective h) tt
build_specs-IsCurrent bypass subject now estimates [] (t ∷ ts) v h = cc
build_specs-IsCurrent bypass subject now estimates (p ∷ ps) [] v h = cc
build_specs-IsCurrent true subject now estimates (p ∷ ps) (t ∷ ts) v h =
    build_specs-IsCurrent true subject now estimates ps ts v.1 h
build_specs-IsCurrent false subject now estimates (p ∷ ps) (t ∷ ts) v h =
    let (q, made, rest) = >>=-eq-ok (quota_of subject now estimates p t) _ h in
    let (specs, tail, last) = >>=-eq-ok (build_specs false subject now estimates ps ts) _ rest in
    subst (λ s. All (IsCurrent now) s.0) (ok-injective last)
      (
        quota_of-IsCurrent subject now estimates p t v.0 made,
        build_specs-IsCurrent false subject now estimates ps ts v.1 tail,
      )

-- Every quota of a record that is built from checked policies has a positive limit and a window that
-- ends after the moment of the request.
pub build_record-IsCurrent :
    (r : BudgetRequest) (now : Timestamp) (totals : List ℕ) {b : BudgetRecord}
    → All IsPolicy r.usage.policies
    → build_record r now totals ≡ ok b
    → (b.now ≡ now) × All (IsCurrent now) b.quotas
unfolding build_record
build_record-IsCurrent r now totals v h =
    let subject : TargetKind × ℤ = (r.usage.subject.kind, r.usage.subject.telegram_id) in
    let estimates = amounts_of no_amounts r.estimates in
    let (specs, made, rest) = >>=-eq-ok (build_resource_specs r now totals subject estimates) _ h in
    subst (λ b. (b.now ≡ now) × All (IsCurrent now) b.quotas) (ok-injective rest)
      (refl, specs_lem specs made)
  where
    specs_lem :
        (specs : List QuotaSpec × List ConcurrencySpec)
        → build_resource_specs r now totals
            (r.usage.subject.kind, r.usage.subject.telegram_id)
            (amounts_of no_amounts r.estimates)
          ≡ ok specs
        → All (IsCurrent now) specs.0
    specs_lem specs made =
        let (parts, built, last) =
          >>=-eq-ok
            (build_specs (r.usage.bypass_personal_quota && is_user r.usage.subject.kind)
              (r.usage.subject.kind, r.usage.subject.telegram_id) now
              (amounts_of no_amounts r.estimates) r.usage.policies totals)
            _ made in
        subst (λ x. All (IsCurrent now) x.0) (ok-injective last)
          (build_specs-IsCurrent _ _ now _ r.usage.policies totals v built)
