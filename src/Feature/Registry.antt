-- ===== src/Feature/Registry.antt =====
-- src/hovorunv2/application/features/registry.py: feature definitions and the registry of them. A
-- frozen set of scopes or triggers is the list of its members.
use hovorun_v.Prelude.{
  Bool, true, false, ◌&&◌, ◌||◌, Option, none, some, List, [], ◌∷◌, String, str_eq, length, ◌==◌,
  if◌then◌else◌, Result, ok, err, ◌>>◌, raise_if, value_error,
}
use hovorun_v.Jobs.Envelope.{TriggerKind}

pub data FeatureChannel : Type 0 where
  standard beta : FeatureChannel

pub data FeatureScope : Type 0 where
  private_scope group_scope : FeatureScope

unfoldable pub FeatureScope-discrete : Discrete FeatureScope
FeatureScope-discrete = hlevel

pub record FeatureDefinition : Type 0 where
  pub key : String
  pub display_name : String
  pub channel : FeatureChannel
  pub introduction : String
  pub default_enabled : Bool
  pub scopes : List FeatureScope
  pub triggers : List TriggerKind
  pub required_bot_capabilities : List String
  pub units : List String
  pub usage_policy : String
  pub queue_policy : String
  pub notification_category : String

abbrev is_blank : String → Bool
is_blank s = str_eq s ""

abbrev is_beta : FeatureChannel → Bool
is_beta standard = false
is_beta beta = true

-- `_validate_identity_metadata`
unfoldable pub validate_identity_metadata : FeatureDefinition → Result (Unit {0})
validate_identity_metadata d =
    raise_if (is_blank d.key || is_blank d.display_name || is_blank d.introduction) value_error

-- `_validate_capabilities`
unfoldable pub validate_capabilities : FeatureDefinition → Result (Unit {0})
validate_capabilities d = do
  raise_if (length d.scopes == 0) value_error
  raise_if (length d.triggers == 0) value_error

-- `_validate_policy_references`
unfoldable pub validate_policy_references : FeatureDefinition → Result (Unit {0})
validate_policy_references d = do
  raise_if (length d.units == 0) value_error
  raise_if (is_blank d.usage_policy) value_error
  raise_if (is_blank d.queue_policy) value_error
  raise_if (is_blank d.notification_category) value_error

-- `_validate_release_defaults`
unfoldable pub validate_release_defaults : FeatureDefinition → Result (Unit {0})
validate_release_defaults d = raise_if (is_beta d.channel && d.default_enabled) value_error

-- `FeatureDefinition.__post_init__`
unfoldable pub validate_definition : FeatureDefinition → Result (Unit {0})
unfolding validate_identity_metadata validate_capabilities validate_policy_references
    validate_release_defaults
validate_definition d = do
  validate_identity_metadata d
  validate_capabilities d
  validate_policy_references d
  validate_release_defaults d

-- The dictionary of a registry, in insertion order; a key stands in it once.
abbrev pub Registry : Type 0
Registry = List FeatureDefinition

-- `FeatureRegistry.get`
unfoldable pub get : Registry → String → Option FeatureDefinition
get [] key = none
get (d ∷ ds) key = if str_eq d.key key then some d else get ds key

abbrev pub append_one : Registry → FeatureDefinition → Registry
append_one [] d = d ∷ []
append_one (x ∷ xs) d = x ∷ append_one xs d

-- The loop of `FeatureRegistry.__init__`.
unfoldable pub add_all : Registry → List FeatureDefinition → Result Registry
unfolding get
add_all acc [] = ok acc
add_all acc (d ∷ ds) =
    let rest = add_all (append_one acc d) ds in
    elim (get acc d.key) [ some _ ↦ err value_error | none ↦ rest ]

unfoldable pub make_registry : List FeatureDefinition → Result Registry
unfolding add_all
make_registry ds = add_all [] ds

-- `FeatureRegistry.require`
unfoldable pub require : Registry → String → Result FeatureDefinition
unfolding get
require reg key = elim (get reg key) [ none ↦ err value_error | some d ↦ ok d ]
