-- ===== src/Budget/Readable.antt =====
-- Proofs that a record which `build_record` of budget_state.py builds passes the verification of its own
-- reading.
pub mod Estimates
pub mod Requests
use hovorun_v.Prelude.{
  ℕ, ◌+◌, ◌-◌, ◌*◌, ◌/◌, ◌%◌, ◌≤◌, ◌<◌, ◌≡◌, refl, sym, ◌∙◌, ap, Bool, true, false, not, ◌&&◌, ◌||◌,
  Option, none, some, is_some, List, [], ◌∷◌, All, map, any, all, String, ℤ, ltb, ◌==◌, length,
  decided, decided_iff, contains, distinct, subset, ok, arith, inl, inr, Bool-cases, Option-cases,
  >>=-eq-ok, >>-then, >>-eq-ok, ok->>, ok-injective, eq_iff, raise_if, unavailable,
}
use native.Mathlib.Nat.{div-add-mod, mul-mod_right}
use mathlib.Core.Path.{subst}
use hovorun_v.Domain.{Timestamp, TargetKind, is_user}
use hovorun_v.Usage.Policies.{
  UsageUnit, UsageUnit-discrete, UsagePolicy, requests, resource, tokens, validate_policy,
  validate_limits, validate_bucket, window_start, is_scope, validate_window,
}
use hovorun_v.Usage.Budgets.{UnitAmount, validate_amount, max_exact_integer}
use hovorun_v.Budget.Record.{
  Amounts, no_amounts, amount_at, set_amount, amounts_of, Scope, ConcurrencyKey,
  ConcurrencyKey-discrete, global_key, scope_key, QuotaSpec, ConcurrencySpec, BudgetRecord,
  Subject-discrete, Scope-discrete, Dimension-discrete, whole_seconds, scope_of, quota_of,
  build_specs,
}
use hovorun_v.Budget.Windows.{IsPolicy}
use hovorun_v.Budget.Verify.{
  require_quota_key, require_quota_window, require_quota_keys, same_keys, is_estimated,
}

start_aligned : (s n : ℕ) → (n - n % s) % s ≡ 0
start_aligned s n =
    let whole : n - n % s ≡ s * (n / s) = omega (arith, div-add-mod n s) in
    rw whole (mul-mod_right s (n / s))

policy_facts :
    (p : UsagePolicy) → IsPolicy p → (is_scope p.bucket ≡ true) × (ltb p.limit p.burst ≡ false)
unfolding validate_policy
policy_facts p v = ground (arith, v.checked)

-- What `quota_of` writes.
record IsQuotaOf (subject : TargetKind × ℤ) (now : Timestamp) (estimates : Amounts)
    (p : UsagePolicy) (q : QuotaSpec) : Type 0 where
  pub scope : q.key.scope ≡ scope_of subject p
  pub rate : q.rate ≡ scope_of subject p
  pub unit : q.unit ≡ p.unit
  pub seconds : q.seconds ≡ p.window.seconds
  pub limit : q.limit ≡ p.limit
  pub burst : q.burst ≡ p.burst
  pub start : q.key.start ≡ whole_seconds now - whole_seconds now % p.window.seconds
  pub ends : q.ends ≡ q.key.start + q.seconds
  pub estimate : amount_at estimates q.unit ≡ some q.amount

pub passes_if : {b : Bool} → b ≡ true → raise_if (not b) unavailable ≡ ok tt
passes_if h = ground arith

unit_check :
    {b : Bool} {m n : ℕ} → b ≡ true → m ≡ n → raise_if (not b || not (m == n)) unavailable ≡ ok tt
unit_check h e = ground arith

burst_check :
    {l b m n : ℕ} → l ≡ m → b ≡ n → ltb m n ≡ false → raise_if (ltb l b) unavailable ≡ ok tt
burst_check e f h = ground arith

module _ (subject : TargetKind × ℤ) (now : Timestamp) (estimates : Amounts) where
  quota-IsQuotaOf :
      (p : UsagePolicy) (t : ℕ) {q : QuotaSpec}
      → quota_of subject now estimates p t ≡ ok q
      → IsQuotaOf subject now estimates p q
  unfolding quota_of window_start
  quota-IsQuotaOf p t h = elim (Option-cases (amount_at estimates p.unit)) [
    | inl e ↦ cc (rw (e, quota_of) at h)
    | inr (n, e) ↦
        subst (IsQuotaOf subject now estimates p) (ok-injective (rw (e, quota_of) at h)) (record {
          scope = refl;
          rate = refl;
          unit = refl;
          seconds = refl;
          limit = refl;
          burst = refl;
          start = refl;
          ends = refl;
          estimate = e;
        })
  ]

  window-IsReadable :
      (p : UsagePolicy) (q : QuotaSpec)
      → IsQuotaOf subject now estimates p q
      → require_quota_window q now ≡ ok tt
  unfolding require_quota_window
  window-IsReadable p q b =
      let aligned = start_aligned p.window.seconds (whole_seconds now) in
      ground (arith, b.seconds, b.start, b.ends, aligned)

  quota-IsReadable :
      (p : UsagePolicy) (r : BudgetRecord) (q : QuotaSpec)
      → IsPolicy p
      → r.subject ≡ subject
      → r.now ≡ now
      → IsQuotaOf subject now estimates p q
      → require_quota_key q r ≡ ok tt
  unfolding require_quota_key
  quota-IsReadable p r q v s n b =
      let (named, ordered) = policy_facts p v in
      let same_subject =
        (decided_iff (Subject-discrete q.key.scope.subject r.subject)).1
          (ap (λ s. s.subject) b.scope ∙ sym s) in
      let same_unit =
        (decided_iff (UsageUnit-discrete q.key.scope.unit q.unit)).1
          (ap (λ s. s.unit) b.scope ∙ sym b.unit) in
      let same_rate = (decided_iff (Scope-discrete q.rate q.key.scope)).1 (b.rate ∙ sym b.scope) in
      let same_bucket : is_scope q.key.scope.bucket ≡ true =
        ap (λ s. is_scope s.bucket) b.scope ∙ named in
      let same_seconds : q.key.scope.seconds ≡ q.seconds =
        ap (λ s. s.seconds) b.scope ∙ sym b.seconds in
      let window : require_quota_window q r.now ≡ ok tt =
        subst (λ t. require_quota_window q t ≡ ok tt) (sym n) (window-IsReadable p q b) in
      ok->> _ _ (passes_if same_subject) (
        ok->> _ _ (passes_if same_bucket) (
          ok->> _ _ (unit_check same_unit same_seconds) (
            ok->> _ _ window
              (ok->> _ _ (passes_if same_rate) (burst_check b.limit b.burst ordered)))))

  -- The keys of what is built for a list of policies.
  pub record IsBuilt (ps : List UsagePolicy) (r : BudgetRecord)
      (specs : List QuotaSpec × List ConcurrencySpec) : Type 0 where
    pub keys : require_quota_keys specs.0 r ≡ ok tt
    pub scopes :
        map (λ q. scope_key q.key.scope) specs.0 ≡ map (λ p. scope_key (scope_of subject p)) ps
    pub places : map (λ c. c.key) specs.1 ≡ map (λ q. scope_key q.key.scope) specs.0
    pub estimated : all (is_estimated estimates) specs.0 ≡ true

  pub build_specs-IsBuilt :
      (ps : List UsagePolicy) (ts : List ℕ) (r : BudgetRecord)
      {specs : List QuotaSpec × List ConcurrencySpec}
      → All IsPolicy ps
      → r.subject ≡ subject
      → r.now ≡ now
      → build_specs false subject now estimates ps ts ≡ ok specs
      → IsBuilt ps r specs
  unfolding build_specs require_quota_keys
  build_specs-IsBuilt [] [] r v s n h =
      subst (IsBuilt [] r) (ok-injective h)
        (record { keys = refl; scopes = refl; places = refl; estimated = refl })
  build_specs-IsBuilt [] (t ∷ ts) r v s n h = cc
  build_specs-IsBuilt (p ∷ ps) [] r v s n h = cc
  build_specs-IsBuilt (p ∷ ps) (t ∷ ts) r v s n h =
      let (q, made, rest) = >>=-eq-ok (quota_of subject now estimates p t) _ h in
      let (specs, tail, last) = >>=-eq-ok (build_specs false subject now estimates ps ts) _ rest in
      let b = quota-IsQuotaOf p t made in
      let i = build_specs-IsBuilt ps ts r v.1 s n tail in
      subst (IsBuilt (p ∷ ps) r) (ok-injective last) (record {
        keys = ok->> _ _ (quota-IsReadable p r q v.0 s n b) i.keys;
        scopes =
            ap (λ k. scope_key k ∷ map (λ q. scope_key q.key.scope) specs.0) b.scope
            ∙ ap (λ ks. scope_key (scope_of subject p) ∷ ks) i.scopes;
        places =
            ap (λ k. scope_key k ∷ map (λ c. c.key) specs.1) (sym b.scope)
            ∙ ap (λ ks. scope_key q.key.scope ∷ ks) i.places;
        estimated = ground (arith, b.estimate, i.estimated);
      })

pub same_keys_refl : (ks js : List ConcurrencyKey) → ks ≡ js → same_keys ks js ≡ true
same_keys_refl ks js e = subst (λ x. same_keys ks x ≡ true) e (itself ks)
  where
    itself : (xs : List ConcurrencyKey) → same_keys xs xs ≡ true
    itself [] = refl
    itself (x ∷ xs) = ground (arith, itself xs, decided_iff (ConcurrencyKey-discrete x x))

pub no_global :
    (subject : TargetKind × ℤ) (ps : List UsagePolicy)
    → contains ConcurrencyKey-discrete global_key (map (λ p. scope_key (scope_of subject p)) ps)
      ≡ false
unfolding ConcurrencyKey-discrete
no_global subject [] = refl
no_global subject (p ∷ ps) = no_global subject ps

abbrev pub dimension_of : UsagePolicy → String × UsageUnit × ℕ
dimension_of p = (p.bucket, p.unit, p.window.seconds)

scope-dimension :
    (subject : TargetKind × ℤ) (p u : UsagePolicy)
    → scope_key (scope_of subject p) ≡ scope_key (scope_of subject u)
    → dimension_of p ≡ dimension_of u
scope-dimension subject p u h = cc

contains-scope :
    (subject : TargetKind × ℤ) (p : UsagePolicy) (ps : List UsagePolicy)
    → contains Dimension-discrete (dimension_of p) (map dimension_of ps) ≡ false
    → contains ConcurrencyKey-discrete
        (scope_key (scope_of subject p))
        (map (λ p. scope_key (scope_of subject p)) ps)
      ≡ false
contains-scope subject p [] h = refl
contains-scope subject p (u ∷ ps) h =
    ground (arith, scope-dimension subject p u, contains-scope subject p ps)

pub distinct-scopes :
    (subject : TargetKind × ℤ) (ps : List UsagePolicy)
    → distinct Dimension-discrete (map dimension_of ps) ≡ true
    → distinct ConcurrencyKey-discrete (map (λ p. scope_key (scope_of subject p)) ps) ≡ true
distinct-scopes subject [] h = refl
distinct-scopes subject (p ∷ ps) h =
    ground (arith, contains-scope subject p ps, distinct-scopes subject ps)
