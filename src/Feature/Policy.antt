-- ===== src/Feature/Policy.antt =====
-- src/hovorunv2/application/features/feature_policy.py: the decision on a feature from fresh facts.
-- A guidance text is told by which of the two texts it is.
use hovorun_v.Prelude.{
  ℕ, Bool, true, false, not, ◌&&◌, ◌||◌, Option, none, some, contains, if◌then◌else◌,
}
use hovorun_v.Jobs.Envelope.{TriggerKind, TriggerKind-discrete, direct, automatic}
use hovorun_v.Access.Permissions.{DecisionReason, is_allowed_reason}
use hovorun_v.Feature.Registry.{
  FeatureDefinition, FeatureScope, FeatureScope-discrete, private_scope, group_scope,
}

pub data Guidance : Type 0 where
  check_approval check_permissions : Guidance

pub record FeatureDecision : Type 0 where
  pub visible : Bool
  pub allowed : Bool
  pub selected : Bool
  pub guidance : Option Guidance

-- `FeatureDecision()`
abbrev pub no_feature : FeatureDecision
no_feature = record { visible = false; allowed = false; selected = false; guidance = none }

pub record FeatureFacts : Type 0 where
  pub scope : FeatureScope
  pub target_active : Bool
  pub actor_active : Bool
  pub actor_restricted : Bool
  pub private_access : Bool
  pub access_reason : DecisionReason
  pub manager : Bool
  pub eligible : Bool
  pub selected : Bool
  pub supported : Bool
  pub capable : Bool
  pub emergency_disabled : Bool
  pub emergency_epoch : ℕ

abbrev pub is_group_scope : FeatureScope → Bool
is_group_scope private_scope = false
is_group_scope group_scope = true

abbrev pub is_automatic : TriggerKind → Bool
is_automatic direct = false
is_automatic automatic = true

-- `_uses_group_authority`
unfoldable pub uses_group_authority : FeatureScope → TriggerKind → Bool → Bool
uses_group_authority scope trigger configure =
    is_group_scope scope && is_automatic trigger && not configure

-- `feature_entry_allowed`
unfoldable pub feature_entry_allowed :
    FeatureDefinition → FeatureScope → Bool → Bool → TriggerKind → Bool → Bool
unfolding uses_group_authority
feature_entry_allowed d scope actor_active actor_restricted trigger configure =
    if not (contains FeatureScope-discrete scope d.scopes)
    then false
    else if not configure && not (contains TriggerKind-discrete trigger d.triggers)
    then false
    else if uses_group_authority scope trigger configure
    then true
    else actor_active && not actor_restricted

-- `_group_decision`
unfoldable pub group_decision : FeatureFacts → Bool → FeatureDecision
group_decision f configure =
    if configure && not f.manager
    then no_feature
    else if not (is_allowed_reason f.access_reason)
    then record no_feature { guidance = if f.manager then some check_approval else none }
    else if not f.eligible
    then no_feature
    else record {
      visible = configure || (f.selected && f.supported && f.capable);
      allowed = f.capable && (configure || (f.selected && f.supported));
      selected = f.selected;
      guidance = if f.manager && not f.capable then some check_permissions else none;
    }

-- `_private_decision`
unfoldable pub private_decision : FeatureFacts → Bool → FeatureDecision
private_decision f configure =
    if not f.private_access || not f.eligible then no_feature else record {
      visible = configure || (f.selected && f.capable);
      allowed = f.capable && (configure || f.selected);
      selected = f.selected;
      guidance = none;
    }

-- `evaluate_feature`
unfoldable pub evaluate_feature :
    FeatureDefinition → FeatureFacts → TriggerKind → Bool → FeatureDecision
unfolding feature_entry_allowed group_decision private_decision
evaluate_feature d f trigger configure =
    if f.emergency_disabled
    then no_feature
    else if not f.target_active
    then no_feature
    else if not
        (feature_entry_allowed d f.scope f.actor_active f.actor_restricted trigger configure)
    then no_feature
    else elim f.scope [
      | private_scope ↦ private_decision f configure
      | group_scope ↦ group_decision f configure
    ]
