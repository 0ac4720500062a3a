-- ===== src/Budget/Requests.antt =====
-- Proofs about `reserve` of budgets.py: the records that are built, and the places they take.
use hovorun_v.Prelude.{
  ℕ, ◌≤◌, ◌≡◌, refl, sym, Bool, true, false, ◌&&◌, List, [], ◌∷◌, All, ok, inl, inr, >>=-eq-ok,
  >>-then, ok-injective, ℤ,
}
use mathlib.Core.Path.{subst}
use hovorun_v.Domain.{Timestamp, Instant, TargetKind, is_user}
use hovorun_v.Usage.Policies.{UsagePolicy}
use hovorun_v.Usage.Budgets.{BudgetRequest, ReservationDecision}
use hovorun_v.Budget.Record.{
  BudgetRecord, QuotaSpec, global_key, ConcurrencySpec, Amounts, build_specs, build_resource_specs,
  build_record, validate_reserve_args, amounts_of, no_amounts, quota_of,
}
use hovorun_v.Budget.Verify.{verify_record}
use hovorun_v.Budget.Readable.Requests.{build_record-verified}
use hovorun_v.Budget.Readable.Estimates.{IsChecked}
use hovorun_v.Budget.Settle.{is_reserved}
use hovorun_v.Budget.Store.{BudgetSpace, reserve_attempt, reserve, moment}
use hovorun_v.Budget.Steps.{IsNew, or_unavailable-eq-ok, reserve_attempt-IsStep}
use hovorun_v.Budget.Histories.{IsKept, step-IsKept}

module _ (n : ℕ) where
  abbrev IsGlobal : ConcurrencySpec → Type 0
  IsGlobal c = c.key ≡ global_key → c.limit ≤ n

  build_specs-IsGlobal :
      (bypass : Bool) (subject : TargetKind × ℤ) (now : Timestamp) (estimates : Amounts)
      (ps : List UsagePolicy) (ts : List ℕ) {specs : List QuotaSpec × List ConcurrencySpec}
      → build_specs bypass subject now estimates ps ts ≡ ok specs
      → All IsGlobal specs.1
  unfolding build_specs
  build_specs-IsGlobal bypass subject now estimates [] [] h =
      subst (λ s. All IsGlobal s.1) (ok-injective h) tt
  build_specs-IsGlobal bypass subject now estimates [] (t ∷ ts) h = cc
  build_specs-IsGlobal bypass subject now estimates (p ∷ ps) [] h = cc
  build_specs-IsGlobal true subject now estimates (p ∷ ps) (t ∷ ts) h =
      build_specs-IsGlobal true subject now estimates ps ts h
  build_specs-IsGlobal false subject now estimates (p ∷ ps) (t ∷ ts) h =
      let (q, _, rest) = >>=-eq-ok (quota_of subject now estimates p t) _ h in
      let (specs, tail, last) = >>=-eq-ok (build_specs false subject now estimates ps ts) _ rest in
      subst (λ s. All IsGlobal s.1) (ok-injective last)
        (λ e. cc, build_specs-IsGlobal false subject now estimates ps ts tail)

  build_resource_specs-IsGlobal :
      (q : BudgetRequest) (now : Timestamp) (totals : List ℕ) (subject : TargetKind × ℤ)
      (estimates : Amounts) {specs : List QuotaSpec × List ConcurrencySpec}
      → q.usage.safety.global_concurrency ≤ n
      → build_resource_specs q now totals subject estimates ≡ ok specs
      → All IsGlobal specs.1
  unfolding build_resource_specs
  build_resource_specs-IsGlobal q now totals subject estimates limit h =
      let (parts, built, last) =
        >>=-eq-ok
          (build_specs (q.usage.bypass_personal_quota && is_user q.usage.subject.kind) subject now
            estimates q.usage.policies totals)
          _ h in
      subst (λ s. All IsGlobal s.1) (ok-injective last)
        (λ e. limit, build_specs-IsGlobal _ subject now estimates q.usage.policies totals built)

  build_record-IsNew :
      (q : BudgetRequest) (now : Timestamp) (totals : List ℕ) {r : BudgetRecord}
      → q.usage.safety.global_concurrency ≤ n
      → build_record q now totals ≡ ok r
      → verify_record r r.id ≡ ok tt
      → IsNew n r
  unfolding build_record
  build_record-IsNew q now totals {r} limit h valid =
      let subject : TargetKind × ℤ = (q.usage.subject.kind, q.usage.subject.telegram_id) in
      let estimates = amounts_of no_amounts q.estimates in
      let (specs, made, rest) =
        >>=-eq-ok (build_resource_specs q now totals subject estimates) _ h in
      record {
        live = subst (λ x. is_reserved x.state ≡ true) (ok-injective rest) refl;
        valid = valid;
        global =
            subst (λ x. All IsGlobal x.concurrency) (ok-injective rest)
              (build_resource_specs-IsGlobal q now totals subject estimates limit made);
      }

  pub reserve-IsKept :
      (sp : BudgetSpace) (q : BudgetRequest) (now : Instant) (totals : List ℕ)
      {d : ReservationDecision} {sp' : BudgetSpace}
      → IsKept n sp
      → q.usage.safety.global_concurrency ≤ n
      → IsChecked q
      → reserve sp q now totals ≡ ok (d, sp')
      → IsKept n sp'
  unfolding reserve
  reserve-IsKept sp q now totals k limit checked h =
      let (args, rest) = >>-then (validate_reserve_args q now totals) h in
      let (r, built, rest1) = >>=-eq-ok (build_record q (moment now) totals) _ rest in
      elim (or_unavailable-eq-ok sp (reserve_attempt sp r) rest1) [
        | inl done ↦ step-IsKept n k (
            reserve_attempt-IsStep n sp r
              (build_record-IsNew q (moment now) totals limit built
                (build_record-verified q now totals checked args built))
              done)
        | inr same ↦ subst (IsKept n) (sym same) k
      ]
