-- ===== src/Budget/Readable/Requests.antt =====
-- Proofs that the record which `build_record` of budget_state.py builds of a checked request passes the
-- verification of its own reading.
use hovorun_v.Prelude.{
  ℕ, ◌≡◌, ◌≢◌, refl, sym, ap, ◌∙◌, Bool, true, false, not, ◌&&◌, ◌||◌, List, [], ◌∷◌, map, all, ℤ,
  length, ◌==◌, distinct, ok, arith, inl, inr, Bool-cases, >>=-eq-ok, ◌>>◌, ok->>, ok-injective,
  eq_iff, raise_if, unavailable, value_error,
}
use mathlib.Core.Path.{subst}
use hovorun_v.Domain.{Timestamp, Instant, TargetKind, is_user}
use hovorun_v.Usage.Policies.{UsagePolicy}
use hovorun_v.Usage.Budgets.{BudgetRequest, retention_seconds, reserved}
use hovorun_v.Budget.Record.{
  Amounts, no_amounts, amounts_of, BudgetRecord, QuotaSpec, ConcurrencySpec, build_specs,
  build_resource_specs, record_of, build_record, scope_key, scope_of, global_key,
  validate_reserve_args, Dimension-discrete, ConcurrencyKey-discrete,
}
use hovorun_v.Budget.Store.{moment}
use hovorun_v.Budget.Verify.{
  is_none_amount, verify_record, require_record_binding, require_estimate_coverage,
  verify_record_keys, require_settlement, expected_keys, same_keys, require_quota_keys,
  is_estimated,
}
use hovorun_v.Budget.Readable.Estimates.{
  IsExact, IsChecked, estimates-IsExact, some_policy, request_parts,
}
use hovorun_v.Budget.Readable.{
  build_specs-IsBuilt, passes_if, same_keys_refl, no_global, distinct-scopes, dimension_of,
}

third_check :
    (a b c : Bool)
    → (raise_if a value_error >> (raise_if b value_error >> raise_if (not c) value_error)) ≡ ok tt
    → c ≡ true
third_check a b c h = ground arith

distinct_policies :
    (q : BudgetRequest) (now : Instant) (totals : List ℕ)
    → validate_reserve_args q now totals ≡ ok tt
    → distinct Dimension-discrete (map dimension_of q.usage.policies) ≡ true
unfolding validate_reserve_args
distinct_policies q now totals h = third_check _ _ _ h

-- What `_build_resource_specs` gives to a record.
record IsSpecified (q : BudgetRequest) (r : BudgetRecord)
    (specs : List QuotaSpec × List ConcurrencySpec) : Type 0 where
  pub binding : (length specs.0 == 0 && not (is_user q.usage.subject.kind)) ≡ false
  pub keys : require_quota_keys specs.0 r ≡ ok tt
  pub places : map (λ c. c.key) specs.1 ≡ map (λ s. scope_key s.key.scope) specs.0
  pub distinct_keys : distinct ConcurrencyKey-discrete (expected_keys specs.0) ≡ true
  pub estimated : all (is_estimated r.estimates) specs.0 ≡ true

bypassed-IsSpecified :
    (subject : TargetKind × ℤ) (now : Timestamp) (estimates : Amounts) (q : BudgetRequest)
    (ps : List UsagePolicy) (ts : List ℕ) (r : BudgetRecord)
    {specs : List QuotaSpec × List ConcurrencySpec}
    → is_user q.usage.subject.kind ≡ true
    → build_specs true subject now estimates ps ts ≡ ok specs
    → IsSpecified q r specs
unfolding build_specs require_quota_keys ConcurrencyKey-discrete
bypassed-IsSpecified subject now estimates q [] [] r u h =
    subst (IsSpecified q r) (ok-injective h) (record {
      binding = ground (arith, u);
      keys = refl;
      places = refl;
      distinct_keys = refl;
      estimated = refl;
    })
bypassed-IsSpecified subject now estimates q [] (t ∷ ts) r u h = cc
bypassed-IsSpecified subject now estimates q (p ∷ ps) [] r u h = cc
bypassed-IsSpecified subject now estimates q (p ∷ ps) (t ∷ ts) r u h =
    bypassed-IsSpecified subject now estimates q ps ts r u h

nonempty_scopes :
    (subject : TargetKind × ℤ) (qs : List QuotaSpec) (ps : List UsagePolicy)
    → map (λ s. scope_key s.key.scope) qs ≡ map (λ p. scope_key (scope_of subject p)) ps
    → ps ≢ []
    → (length qs == 0) ≡ false
nonempty_scopes subject [] [] e n = absurd (n refl)
nonempty_scopes subject [] (p ∷ ps) e n = cc
nonempty_scopes subject (x ∷ qs) ps e n = ground arith

limited-IsSpecified :
    (subject : TargetKind × ℤ) (now : Timestamp) (q : BudgetRequest) (ts : List ℕ)
    (r : BudgetRecord) {specs : List QuotaSpec × List ConcurrencySpec}
    → IsChecked q
    → distinct Dimension-discrete (map dimension_of q.usage.policies) ≡ true
    → r.subject ≡ subject
    → r.now ≡ now
    → build_specs false subject now r.estimates q.usage.policies ts ≡ ok specs
    → IsSpecified q r specs
limited-IsSpecified subject now q ts r {specs} c d s n h =
    let i = build_specs-IsBuilt subject now r.estimates q.usage.policies ts r c.policies s n h in
    let (estimated, covered) = request_parts q c.request in
    let some_quota =
      nonempty_scopes subject specs.0 q.usage.policies i.scopes
        (some_policy q.estimates q.usage.policies estimated covered) in
    let ps = q.usage.policies in
    let apart : distinct ConcurrencyKey-discrete
          (global_key ∷ map (λ p. scope_key (scope_of subject p)) ps)
        ≡ true =
      ground (arith, no_global subject ps, distinct-scopes subject ps d) in
    record {
      binding = ground (arith, some_quota);
      keys = i.keys;
      places = i.places;
      distinct_keys =
          subst (λ ks. distinct ConcurrencyKey-discrete (global_key ∷ ks) ≡ true) (sym i.scopes)
            apart;
      estimated = i.estimated;
    }

specs-IsSpecified :
    (q : BudgetRequest) (now : Timestamp) (ts : List ℕ) (r : BudgetRecord)
    {specs : List QuotaSpec × List ConcurrencySpec}
    → IsChecked q
    → distinct Dimension-discrete (map dimension_of q.usage.policies) ≡ true
    → r.subject ≡ (q.usage.subject.kind, q.usage.subject.telegram_id)
    → r.now ≡ now
    → build_specs
        (q.usage.bypass_personal_quota && is_user q.usage.subject.kind)
        (q.usage.subject.kind, q.usage.subject.telegram_id)
        now
        r.estimates
        q.usage.policies
        ts
      ≡ ok specs
    → IsSpecified q r specs
specs-IsSpecified q now ts r c d s n h =
    elim (Bool-cases (q.usage.bypass_personal_quota && is_user q.usage.subject.kind)) [
      | inl bypass ↦
          bypassed-IsSpecified _ now r.estimates q q.usage.policies ts r (ground (arith, bypass))
            (rw bypass at h)
      | inr limited ↦ limited-IsSpecified _ now q ts r c d s n (rw limited at h)
    ]

both_hold : {a b : Bool} → a ≡ true → b ≡ true → raise_if (not a || not b) unavailable ≡ ok tt
both_hold h k = ground arith

-- A record whose parts are those of a checked request.
record IsBuiltFrom (q : BudgetRequest) (r : BudgetRecord) : Type 0 where
  pub subject : r.subject ≡ (q.usage.subject.kind, q.usage.subject.telegram_id)
  pub limit : ℕ
  pub scopes : List ConcurrencySpec
  pub concurrency : r.concurrency ≡ record { key = global_key; limit = limit } ∷ scopes
  pub retention : r.retention ≡ retention_seconds
  pub state : r.state ≡ reserved
  pub specified : IsSpecified q r (r.quotas, scopes)
  pub exact : IsExact r.estimates
  pub given : is_none_amount r.estimates ≡ false

module _ (q : BudgetRequest) (r : BudgetRecord) (b : IsBuiltFrom q r) where
  binding_holds : require_record_binding r r.id ≡ ok tt
  unfolding require_record_binding
  binding_holds =
      let bound : (length r.quotas == 0 && not (is_user r.subject.0)) ≡ false =
        subst (λ s. (length r.quotas == 0 && not (is_user s.0)) ≡ false) (sym b.subject)
          b.specified.binding in
      ground (arith, eq_iff r.id r.id, b.concurrency, b.given, b.retention, bound, b.state)

  coverage_holds : require_estimate_coverage r ≡ ok tt
  unfolding require_estimate_coverage
  coverage_holds = ok->> _ _ (passes_if b.exact) (passes_if b.specified.estimated)

  keys_hold : verify_record_keys r ≡ ok tt
  unfolding verify_record_keys
  keys_hold =
      let agree : same_keys (map (λ c. c.key) r.concurrency) (expected_keys r.quotas) ≡ true =
        same_keys_refl _ _
          (ap (map (λ c. c.key)) b.concurrency ∙ ap (λ ks. global_key ∷ ks) b.specified.places) in
      ok->> _ _ b.specified.keys (both_hold agree b.specified.distinct_keys)

  settlement_holds : require_settlement r ≡ ok tt
  unfolding require_settlement
  settlement_holds = ground (arith, b.state)

  verified : verify_record r r.id ≡ ok tt
  unfolding verify_record
  verified =
      ok->> _ _ binding_holds (ok->> _ _ coverage_holds (ok->> _ _ keys_hold settlement_holds))

-- The record that is built of a checked request, by totals and a moment that the store accepts, passes
-- the verification of its own reading.
pub build_record-verified :
    (q : BudgetRequest) (now : Instant) (totals : List ℕ) {r : BudgetRecord}
    → IsChecked q
    → validate_reserve_args q now totals ≡ ok tt
    → build_record q (moment now) totals ≡ ok r
    → verify_record r r.id ≡ ok tt
unfolding build_record build_resource_specs
build_record-verified q now totals {r} c args h =
    let subject : TargetKind × ℤ = (q.usage.subject.kind, q.usage.subject.telegram_id) in
    let estimates = amounts_of no_amounts q.estimates in
    let (specs, made, rest) =
      >>=-eq-ok (build_resource_specs q (moment now) totals subject estimates) _ h in
    let (parts, built, joined) =
      >>=-eq-ok
        (build_specs (q.usage.bypass_personal_quota && is_user q.usage.subject.kind) subject
          (moment now) estimates q.usage.policies totals)
        _ made in
    let (exact, given) = estimates-IsExact q.estimates c.amounts (request_parts q c.request).0 in
    let same = ok-injective joined in
    let distinct_dimensions = distinct_policies q now totals args in
    verified q r (
      subst (IsBuiltFrom q) (ok-injective rest) (record {
        subject = refl;
        limit = q.usage.safety.global_concurrency;
        scopes = parts.1;
        concurrency = sym (ap (λ x. x.1) same);
        retention = refl;
        state = refl;
        specified =
            subst (λ quotas. IsSpecified q (record_of q (moment now) specs) (quotas, parts.1))
              (ap (λ x. x.0) same)
              (specs-IsSpecified q (moment now) totals (record_of q (moment now) specs) c
                distinct_dimensions refl refl built);
        exact = exact;
        given = given;
      }))
