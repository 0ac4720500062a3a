-- ===== src/Feature/Tests.antt =====
-- feature_policy.py and registry.py at a feature of groups, with every property of them applied there.
use hovorun_v.Prelude.{◌≡◌, ◌↔◌, refl, true, false, some, [], ◌∷◌, ok}
use hovorun_v.Jobs.Envelope.{direct, automatic}
use hovorun_v.Access.Permissions.{reason_allowed}
use hovorun_v.Feature.Registry.{
  FeatureDefinition, FeatureScope-discrete, standard, private_scope, group_scope, make_registry,
  get, validate_definition,
}
use hovorun_v.Feature.Policy.{FeatureFacts, evaluate_feature}
use hovorun_v.Feature.Commands.{
  CommandName-discrete, twitter, command_value, command_of, find_command, provider_of,
  find_provider, splits_of, find_splits, resolve_emergency_key, resolve_provider_command, capture,
}
use hovorun_v.Feature.Commands.Laws.{resolve_provider_command-capture}
use hovorun_v.Feature.Laws.{
  MayRun, IsDisclosed, evaluate_feature_allowed_iff, evaluate_feature_disclosure,
}

abbrev video : FeatureDefinition
video = record {
  key = "twitter_video";
  display_name = "Videos";
  channel = standard;
  introduction = "Send a link";
  default_enabled = true;
  scopes = private_scope ∷ group_scope ∷ [];
  triggers = direct ∷ automatic ∷ [];
  required_bot_capabilities = [];
  units = "requests" ∷ [];
  usage_policy = "media";
  queue_policy = "media";
  notification_category = "features";
}

abbrev photo : FeatureDefinition
photo = record video { key = "photo" }

abbrev in_group : FeatureFacts
in_group = record {
  scope = group_scope;
  target_active = true;
  actor_active = true;
  actor_restricted = false;
  private_access = false;
  access_reason = reason_allowed;
  manager = true;
  eligible = true;
  selected = true;
  supported = true;
  capable = true;
  emergency_disabled = false;
  emergency_epoch = 0;
}

video_valid : validate_definition video ≡ ok tt
unfolding validate_definition
video_valid = refl

evaluate_feature_allowed_iff_example :
    ((evaluate_feature video in_group automatic false).allowed ≡ true)
    ↔ MayRun video in_group automatic
evaluate_feature_allowed_iff_example = evaluate_feature_allowed_iff video in_group automatic

evaluate_feature_disclosure_example :
    IsDisclosed in_group (evaluate_feature video in_group direct true)
evaluate_feature_disclosure_example = evaluate_feature_disclosure video in_group direct true

configured : (evaluate_feature video in_group direct true).visible ≡ true
unfolding evaluate_feature FeatureScope-discrete
configured = refl

made : make_registry (video ∷ photo ∷ []) ≡ ok (video ∷ photo ∷ [])
unfolding make_registry
made = refl

captured : capture (photo ∷ video ∷ []) twitter true ≡ ok video
unfolding capture splits_of find_splits command_value get CommandName-discrete
captured = refl

resolve_provider_command-capture_example : resolve_provider_command video.key ≡ some twitter
resolve_provider_command-capture_example =
    resolve_provider_command-capture (photo ∷ video ∷ []) twitter true captured

reddit_family : resolve_emergency_key "reddit_post" ≡ "reddit"
unfolding resolve_emergency_key command_of find_command command_value provider_of find_provider
    CommandName-discrete
reddit_family = refl
