-- ===== src/Usage/Resolution/Overrides.antt =====
-- Proofs about what usage_resolution.py resolves to.
use hovorun_v.Prelude.{
  ℕ, ◌≡◌, refl, Bool, true, ◌&&◌, Option, none, some, List, [], ◌∷◌, map, String, All,
  String-discrete, str_eq, eq_iff, subset, ◌==◌, if◌then◌else◌, arith, Bool-cases, inl, inr,
}
use Prim.Native.String.{◌++◌}
use mathlib.Core.List.{◌++◌ as ◌++L◌}
use hovorun_v.Domain.{is_user, is_group}
use hovorun_v.Feature.Registry.{FeatureDefinition}
use hovorun_v.Usage.Policies.{UsageUnit, UsagePolicy, UsageSubject, ResolvedUsage}
use hovorun_v.Usage.Resolution.{buckets_of, default_policies, put, concerns, apply_overrides}

-- The policy of one dimension.
pub policy_for : String → ℕ → List UsagePolicy → Option UsagePolicy
policy_for b w [] = none
policy_for b w (p ∷ ps) =
    if str_eq p.bucket b && p.window.seconds == w then some p else policy_for b w ps

-- The last override of one dimension among those that concern the request, or what there was before.
pub last_override :
    String
    → ℕ
    → List String
    → UsageUnit
    → Option UsagePolicy
    → List UsagePolicy
    → Option UsagePolicy
last_override b w buckets unit old [] = old
last_override b w buckets unit old (o ∷ os) =
    last_override b w buckets unit
      (if concerns buckets unit o && (str_eq o.bucket b && o.window.seconds == w)
        then some o
        else old)
      os

policy_for-put :
    (b : String) (w : ℕ) (o : UsagePolicy) (ps : List UsagePolicy)
    → policy_for b w (put o ps)
      ≡ (if str_eq o.bucket b && o.window.seconds == w then some o else policy_for b w ps)
unfolding policy_for put
policy_for-put b w o [] = refl
policy_for-put b w o (p ∷ ps) =
    ground (
      arith,
      policy_for-put b w o ps,
      eq_iff p.bucket o.bucket,
      eq_iff p.bucket b,
      eq_iff o.bucket b,
    )

-- For every dimension, what is in force after the overrides is the last override that concerns the
-- request, and the default where there is none.
pub policy_for-apply_overrides :
    (b : String) (w : ℕ) (ps os : List UsagePolicy) (buckets : List String) (unit : UsageUnit)
    → policy_for b w (apply_overrides ps os buckets unit)
      ≡ last_override b w buckets unit (policy_for b w ps) os
unfolding apply_overrides last_override
policy_for-apply_overrides b w ps [] buckets unit = refl
policy_for-apply_overrides b w ps (o ∷ os) buckets unit =
    elim (Bool-cases (concerns buckets unit o)) [
      | inl e ↦ rw e (
          rw (← policy_for-put b w o ps)
            (policy_for-apply_overrides b w (put o ps) os buckets unit))
      | inr e ↦ rw e (policy_for-apply_overrides b w ps os buckets unit)
    ]

-- A policy that belongs to the request.
abbrev pub Concerns : List String → UsageUnit → UsagePolicy → Type 0
Concerns buckets unit p = concerns buckets unit p ≡ true

-- No two policies share a dimension.
abbrev pub IsKeyed : List UsagePolicy → Type 0
IsKeyed [] = Unit
IsKeyed (p ∷ ps) = (policy_for p.bucket p.window.seconds ps ≡ none) × IsKeyed ps

abbrev second_of : List ℕ → ℕ
second_of [] = 0
second_of (c ∷ []) = 0
second_of (c ∷ d ∷ cs) = d

-- A resolved usage: its policies concern the request, no two share a dimension, every bucket has one,
-- each dimension has its last override or its default, and a group's quota is never bypassed.
pub record IsResolved (d : FeatureDefinition) (subject : UsageSubject)
    (overrides : List UsagePolicy) (trusted : Bool) (unit : UsageUnit) (u : ResolvedUsage)
    : Type 0 where
  pub about : All (Concerns (buckets_of d) unit) u.policies
  pub keyed : IsKeyed u.policies
  pub covered : subset String-discrete (buckets_of d) (map (λ p. p.bucket) u.policies) ≡ true
  pub in_force :
      (b : String) (w : ℕ)
      → policy_for b w u.policies
        ≡ last_override b w
            (buckets_of d)
            unit
            (policy_for b w (default_policies d unit (is_group subject.kind) trusted))
            overrides
  pub personal : u.bypass_personal_quota ≡ true → is_user subject.kind ≡ true
