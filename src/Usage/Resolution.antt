-- ===== src/Usage/Resolution.antt =====
-- src/hovorunv2/application/usage/usage_resolution.py: defaults, overrides and their intersection. The
-- dictionary keyed by bucket and window is the list of its policies, since a policy carries its key.
pub mod Overrides
use Prim.Native.String.{◌++◌}
use hovorun_v.Prelude.{
  ℕ, Bool, true, false, not, ◌&&◌, ◌||◌, List, [], ◌∷◌, map, String, String-discrete, str_eq,
  decided, contains, subset, ◌==◌, if◌then◌else◌, Result, ok, err, ◌>>=◌, ◌>>◌, raise_if,
  value_error,
}
use hovorun_v.Domain.{is_group}
use hovorun_v.Feature.Registry.{FeatureDefinition}
use hovorun_v.Usage.Policies.{
  UsageUnit, UsageUnit-discrete, requests, resource, tokens, UsagePolicy, UsageSubject,
  UsageSafetyCaps, ResolvedUsage, minute_seconds,
}

-- `{f"feature:{key}", f"family:{usage_policy}"}`, in the order of `sorted`: `a` stands before `e`.
unfoldable pub buckets_of : FeatureDefinition → List String
buckets_of d = ("family:" ++ d.usage_policy) ∷ ("feature:" ++ d.key) ∷ []

abbrev pub is_requests : UsageUnit → Bool
is_requests requests = true
is_requests resource = false
is_requests tokens = false

-- The constants `TRUSTED_…`, `NORMAL_…` and `GROUP_PENDING`.
unfoldable pub default_policy : Bool → Bool → String → UsagePolicy
default_policy group trusted bucket =
    let elevated = group || trusted in
    record {
      bucket = bucket;
      limit = if elevated then 12 else 6;
      burst = if elevated then 6 else 3;
      concurrency = if elevated then 2 else 1;
      pending = if group then 25 else 10;
      unit = requests;
      window = record { seconds = minute_seconds };
    }

-- `_default_policies`
unfoldable pub default_policies : FeatureDefinition → UsageUnit → Bool → Bool → List UsagePolicy
unfolding buckets_of default_policy
default_policies d unit group trusted =
    if not (is_requests unit) || not (str_eq d.usage_policy "media")
    then []
    else map (default_policy group trusted) (buckets_of d)

abbrev pub same_key : UsagePolicy → UsagePolicy → Bool
same_key p q = str_eq p.bucket q.bucket && p.window.seconds == q.window.seconds

-- `policies[override.bucket, override.window.seconds] = override`
unfoldable pub put : UsagePolicy → List UsagePolicy → List UsagePolicy
put o [] = o ∷ []
put o (p ∷ ps) = if same_key p o then o ∷ ps else p ∷ put o ps

abbrev pub same_unit : UsageUnit → UsageUnit → Bool
same_unit a b = decided (UsageUnit-discrete a b)

abbrev pub concerns : List String → UsageUnit → UsagePolicy → Bool
concerns buckets unit o = contains String-discrete o.bucket buckets && same_unit o.unit unit

-- `_apply_overrides`
unfoldable pub apply_overrides :
    List UsagePolicy → List UsagePolicy → List String → UsageUnit → List UsagePolicy
unfolding put
apply_overrides ps [] buckets unit = ps
apply_overrides ps (o ∷ os) buckets unit =
    apply_overrides (if concerns buckets unit o then put o ps else ps) os buckets unit

-- `_require_policy_coverage`
unfoldable pub require_policy_coverage : List UsagePolicy → List String → Result (Unit {0})
require_policy_coverage ps buckets =
    raise_if (not (subset String-discrete buckets (map (λ p. p.bucket) ps))) value_error

-- `resolve_usage`
unfoldable pub resolve_usage :
    FeatureDefinition
    → UsageSubject
    → List UsagePolicy
    → UsageSafetyCaps
    → Bool
    → Bool
    → UsageUnit
    → Result ResolvedUsage
unfolding buckets_of default_policies apply_overrides require_policy_coverage
resolve_usage d subject overrides safety trusted bypass unit = do
  let group = is_group subject.kind
  let defaults = default_policies d unit group trusted
  let policies = apply_overrides defaults overrides (buckets_of d) unit
  require_policy_coverage policies (buckets_of d)
  ok (record {
    subject = subject;
    policies = policies;
    bypass_personal_quota = bypass && not group;
    safety = safety;
  })
