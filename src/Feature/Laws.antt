-- ===== src/Feature/Laws.antt =====
-- Proofs about the decisions of feature_policy.py and the registry of registry.py.
use hovorun_v.Prelude.{
  ◌≡◌, is_some, ◌↔◌, refl, Bool, true, false, not, ◌&&◌, ◌||◌, none, List, [], ◌∷◌, ◌++◌, ap,
  String, str_eq, eq_iff, arith, contains, ok, Option-cases, inl, inr,
}
use mathlib.Core.Path.{subst}
use mathlib.Core.List.{append-nil}
use hovorun_v.Jobs.Envelope.{TriggerKind, TriggerKind-discrete}
use hovorun_v.Access.Permissions.{is_allowed_reason}
use hovorun_v.Feature.Registry.{
  FeatureDefinition, FeatureScope, FeatureScope-discrete, private_scope, group_scope, Registry, get,
  append_one, add_all, make_registry,
}
use hovorun_v.Feature.Policy.{
  FeatureFacts, FeatureDecision, evaluate_feature, is_automatic, is_group_scope,
}

-- Work may enter: the feature supports the scope and the trigger, and somebody answers for it. An
-- automatic trigger in a group needs no actor.
abbrev pub MayEnter : FeatureDefinition → FeatureFacts → TriggerKind → Type 0
MayEnter d f trigger =
    (contains FeatureScope-discrete f.scope d.scopes ≡ true)
    × (contains TriggerKind-discrete trigger d.triggers ≡ true)
    × ((is_group_scope f.scope && is_automatic trigger || f.actor_active && not f.actor_restricted)
        ≡ true)

-- The facts that the scope asks for.
abbrev pub HasAccess : FeatureFacts → FeatureScope → Type 0
HasAccess f private_scope = f.private_access ≡ true
HasAccess f group_scope = (is_allowed_reason f.access_reason ≡ true) × (f.supported ≡ true)

-- All that a run asks for.
abbrev pub MayRun : FeatureDefinition → FeatureFacts → TriggerKind → Type 0
MayRun d f trigger =
    (f.emergency_disabled ≡ false)
    × (f.target_active ≡ true)
    × MayEnter d f trigger
    × HasAccess f f.scope
    × (f.eligible ≡ true)
    × (f.selected ≡ true)
    × (f.capable ≡ true)

-- A feature runs exactly when it is not stopped, its target is active, work may enter, the scope's
-- access is granted, and it is eligible, selected and within the capabilities of the bot.
pub evaluate_feature_allowed_iff :
    (d : FeatureDefinition) (f : FeatureFacts) (t : TriggerKind)
    → ((evaluate_feature d f t false).allowed ≡ true) ↔ MayRun d f t
unfolding evaluate_feature
evaluate_feature_allowed_iff d f t = ground arith

-- A decision that shows nothing by mistake.
pub record IsDisclosed (f : FeatureFacts) (r : FeatureDecision) : Type 0 where
  pub seen : (r.allowed && not r.visible) ≡ false
  pub guided : (is_some r.guidance && not (f.manager && is_group_scope f.scope)) ≡ false

abbrev pub IsConfigurable : FeatureFacts → Type 0
IsConfigurable f =
    (f.actor_active ≡ true)
    × (f.actor_restricted ≡ false)
    × ((is_group_scope f.scope && not f.manager) ≡ false)

-- What is allowed, to run or to configure, is also visible; and guidance is shown in groups only, and
-- to managers only.
pub evaluate_feature_disclosure :
    (d : FeatureDefinition) (f : FeatureFacts) (t : TriggerKind) (configure : Bool)
    → IsDisclosed f (evaluate_feature d f t configure)
unfolding evaluate_feature
evaluate_feature_disclosure d f t configure = record { seen = ground arith; guided = ground arith }

-- Configuration always needs a current, unrestricted actor, and in a group a manager.
pub evaluate_feature_configure :
    (d : FeatureDefinition) (f : FeatureFacts) (t : TriggerKind)
    → (evaluate_feature d f t true).visible ≡ true
    → IsConfigurable f
unfolding evaluate_feature
evaluate_feature_configure d f t h = ground arith

-- No two definitions of a registry share a key.
abbrev pub IsUnique : Registry → Type 0
IsUnique [] = Unit
IsUnique (d ∷ ds) = (get ds d.key ≡ none) × IsUnique ds

get-append_one :
    (reg : Registry) (d : FeatureDefinition) (k : String)
    → get reg k ≡ none
    → str_eq d.key k ≡ false
    → get (append_one reg d) k ≡ none
unfolding get
get-append_one [] d k h e = ground arith
get-append_one (x ∷ xs) d k h e = ground (arith, get-append_one xs d k)

append_one-IsUnique :
    (reg : Registry) (d : FeatureDefinition)
    → IsUnique reg
    → get reg d.key ≡ none
    → IsUnique (append_one reg d)
unfolding get
append_one-IsUnique [] d u h = (refl, tt)
append_one-IsUnique (x ∷ xs) d u h = ground (
  arith,
  append_one-IsUnique xs d,
  get-append_one xs d x.key,
  eq_iff x.key d.key,
  eq_iff d.key x.key,
)

append_one_lem :
    (acc : Registry) (d : FeatureDefinition) (ds : Registry)
    → append_one acc d ++ ds ≡ acc ++ (d ∷ ds)
append_one_lem [] d ds = refl
append_one_lem (x ∷ xs) d ds = ap (λ r. x ∷ r) (append_one_lem xs d ds)

add_all-IsUnique :
    (acc : Registry) (ds : List FeatureDefinition) {reg : Registry}
    → IsUnique acc
    → add_all acc ds ≡ ok reg
    → (reg ≡ acc ++ ds) × IsUnique reg
unfolding add_all
add_all-IsUnique acc [] {reg} u h = rw (append-nil) (cc, subst IsUnique (cc) u)
add_all-IsUnique acc (d ∷ ds) u h = elim (Option-cases (get acc d.key)) [
  | inr (old, e) ↦ absurd (ground arith)
  | inl e ↦
      rw (← append_one_lem acc d ds)
        (add_all-IsUnique (append_one acc d) ds (append_one-IsUnique acc d u e) (ground arith))
]

-- A registry that is made holds exactly the given definitions, in their order, and no key twice.
pub make_registry-IsUnique :
    (ds : List FeatureDefinition) {reg : Registry}
    → make_registry ds ≡ ok reg
    → (reg ≡ ds) × IsUnique reg
unfolding make_registry
make_registry-IsUnique ds h = add_all-IsUnique [] ds tt h
