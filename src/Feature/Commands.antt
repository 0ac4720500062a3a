-- ===== src/Feature/Commands.antt =====
-- src/hovorunv2/domain/enums.py, the commands of the bot and the split commands of each provider, with
-- what emergency.py, registry.py and feature_job_runner.py look up in them.
pub mod Laws
use hovorun_v.Prelude.{
  Bool, Option, none, some, List, [], ◌∷◌, String, str_eq, decided, if◌then◌else◌, ℕ, ◌==◌, not,
  ◌&&◌, Result, ok, err, ◌>>=◌, value_error,
}
use hovorun_v.Feature.Registry.{Registry, FeatureDefinition, require}

pub data CommandName : Type 0 where
  admin_command debug emergency beta_command announce recover audit allow_chat : CommandName
  settings help feedback start : CommandName
  twitter twitter_video twitter_post : CommandName
  instagram instagram_video instagram_post : CommandName
  tiktok tiktok_video tiktok_post : CommandName
  threads threads_video threads_post : CommandName
  bluesky bluesky_video bluesky_post : CommandName
  facebook facebook_video facebook_post : CommandName
  youtube youtube_video youtube_post : CommandName
  reddit reddit_video reddit_post : CommandName

unfoldable pub CommandName-discrete : Discrete CommandName
CommandName-discrete = hlevel

abbrev pub same_command : CommandName → CommandName → Bool
same_command a b = decided (CommandName-discrete a b)

unfoldable pub command_value : CommandName → String
command_value admin_command = "admin"
command_value debug = "debug"
command_value emergency = "emergency"
command_value beta_command = "beta"
command_value announce = "announce"
command_value recover = "recover"
command_value audit = "audit"
command_value allow_chat = "allow_chat"
command_value settings = "settings"
command_value help = "help"
command_value feedback = "feedback"
command_value start = "start"
command_value twitter = "twitter"
command_value twitter_video = "twitter_video"
command_value twitter_post = "twitter_post"
command_value instagram = "instagram"
command_value instagram_video = "instagram_video"
command_value instagram_post = "instagram_post"
command_value tiktok = "tiktok"
command_value tiktok_video = "tiktok_video"
command_value tiktok_post = "tiktok_post"
command_value threads = "threads"
command_value threads_video = "threads_video"
command_value threads_post = "threads_post"
command_value bluesky = "bluesky"
command_value bluesky_video = "bluesky_video"
command_value bluesky_post = "bluesky_post"
command_value facebook = "facebook"
command_value facebook_video = "facebook_video"
command_value facebook_post = "facebook_post"
command_value youtube = "youtube"
command_value youtube_video = "youtube_video"
command_value youtube_post = "youtube_post"
command_value reddit = "reddit"
command_value reddit_video = "reddit_video"
command_value reddit_post = "reddit_post"

-- The members, in the order of the class.
abbrev pub all_commands : List CommandName
all_commands =
    admin_command ∷ debug ∷ emergency ∷ beta_command ∷ announce ∷ recover ∷ audit ∷ allow_chat
    ∷ settings ∷ help ∷ feedback ∷ start ∷ twitter ∷ twitter_video ∷ twitter_post ∷ instagram
    ∷ instagram_video ∷ instagram_post ∷ tiktok ∷ tiktok_video ∷ tiktok_post ∷ threads
    ∷ threads_video ∷ threads_post ∷ bluesky ∷ bluesky_video ∷ bluesky_post ∷ facebook
    ∷ facebook_video ∷ facebook_post ∷ youtube ∷ youtube_video ∷ youtube_post ∷ reddit
    ∷ reddit_video ∷ reddit_post ∷ []

unfoldable pub find_command : String → List CommandName → Option CommandName
unfolding command_value
find_command name [] = none
find_command name (c ∷ cs) = if str_eq name (command_value c) then some c else find_command name cs

-- `CommandName(name)`; a name of no member raises, which its callers catch.
unfoldable pub command_of : String → Option CommandName
unfolding find_command
command_of name = find_command name all_commands

abbrev pub Splits : Type 0
Splits = List (CommandName × CommandName × CommandName)

-- `PROVIDER_SPLIT_COMMANDS`
abbrev pub provider_split_commands : Splits
provider_split_commands =
    (twitter, twitter_video, twitter_post)
    ∷ (instagram, instagram_video, instagram_post)
    ∷ (tiktok, tiktok_video, tiktok_post)
    ∷ (threads, threads_video, threads_post)
    ∷ (bluesky, bluesky_video, bluesky_post)
    ∷ (facebook, facebook_video, facebook_post)
    ∷ (youtube, youtube_video, youtube_post)
    ∷ (reddit, reddit_video, reddit_post)
    ∷ []

unfoldable pub find_splits : CommandName → Splits → Option (CommandName × CommandName)
unfolding CommandName-discrete
find_splits c [] = none
find_splits c ((provider, video, post) ∷ rest) =
    if same_command provider c then some (video, post) else find_splits c rest

-- `PROVIDER_SPLIT_COMMANDS.get(command)`
unfoldable pub splits_of : CommandName → Option (CommandName × CommandName)
unfolding find_splits
splits_of c = find_splits c provider_split_commands

-- `SPLIT_TO_PROVIDER_COMMAND.get(command)`: no command is split from two providers.
unfoldable pub find_provider : CommandName → Splits → Option CommandName
unfolding CommandName-discrete
find_provider c [] = none
find_provider c ((provider, video, post) ∷ rest) =
    if same_command video c
    then some provider
    else if same_command post c
    then some provider
    else find_provider c rest

unfoldable pub provider_of : CommandName → Option CommandName
unfolding find_provider
provider_of c = find_provider c provider_split_commands

-- `resolve_emergency_key`
unfoldable pub resolve_emergency_key : String → String
unfolding command_of provider_of command_value
resolve_emergency_key feature = elim (command_of feature) [
  | none ↦ feature
  | some c ↦ elim (provider_of c) [
    | none ↦ command_value c
    | some provider ↦ command_value provider
  ]
]

pub record FeatureEmergencyState : Type 0 where
  pub feature_key : String
  pub disabled : Bool
  pub reason : Option String
  pub public_reason : Option String
  pub epoch : ℕ

unfoldable pub envelope_is_current : ℕ → FeatureEmergencyState → Bool
envelope_is_current envelope_epoch s = not s.disabled && s.epoch == envelope_epoch

-- `_resolve_provider_command`, without a client.
unfoldable pub resolve_provider_command : String → Option CommandName
unfolding command_of splits_of provider_of
resolve_provider_command feature = elim (command_of feature) [
  | none ↦ none
  | some c ↦ elim (splits_of c) [ some _ ↦ some c | none ↦ provider_of c ]
]

-- `FeatureRegistry.capture`
unfoldable pub capture : Registry → CommandName → Bool → Result FeatureDefinition
unfolding splits_of command_value require
capture reg provider is_video = elim (splits_of provider) [
  | none ↦ err value_error
  | some splits ↦ require reg (command_value (if is_video then splits.0 else splits.1))
]
