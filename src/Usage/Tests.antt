-- ===== src/Usage/Tests.antt =====
-- usage_resolution.py at a trusted person's request with an override of its media family.
use hovorun_v.Prelude.{true, [], ◌∷◌, pos}
use hovorun_v.Domain.{user}
use hovorun_v.Jobs.Envelope.{direct}
use hovorun_v.Feature.Registry.{FeatureDefinition, standard, private_scope}
use hovorun_v.Usage.Policies.{UsagePolicy, UsageSubject, ResolvedUsage, requests, default_caps}

abbrev video : FeatureDefinition
video = record {
  key = "twitter_video";
  display_name = "Videos";
  channel = standard;
  introduction = "Send a link";
  default_enabled = true;
  scopes = private_scope ∷ [];
  triggers = direct ∷ [];
  required_bot_capabilities = [];
  units = "requests" ∷ [];
  usage_policy = "media";
  queue_policy = "media";
  notification_category = "features";
}

abbrev person : UsageSubject
person = record { kind = user; telegram_id = pos 7000; entity_id = 7; generation = 1 }

abbrev override : UsagePolicy
override = record {
  bucket = "family:media";
  limit = 20;
  burst = 8;
  concurrency = 3;
  pending = 10;
  unit = requests;
  window = record { seconds = 60 };
}

abbrev resolved : ResolvedUsage
resolved = record {
  subject = person;
  policies =
      override
      ∷ record override { bucket = "feature:twitter_video"; limit = 12; burst = 6; concurrency = 2 }
      ∷ [];
  bypass_personal_quota = true;
  safety = default_caps;
}
