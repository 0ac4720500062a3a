-- ===== src/Feature/Commands/Laws.antt =====
-- Proofs about the commands of enums.py and the keys of emergency.py.
use hovorun_v.Prelude.{
  Bool, true, false, ◌≡◌, refl, inl, inr, Option, none, some, String, arith, Option-cases, ok,
  contains, all, decided_iff, if◌then◌else◌, List, sym, ◌∙◌, ap, [], ◌∷◌, eq_iff,
}
use hovorun_v.Feature.Registry.{Registry, FeatureDefinition, require, get}
use hovorun_v.Feature.Commands.{
  CommandName, CommandName-discrete, same_command, all_commands, command_value, command_of,
  find_command, provider_of, find_provider, splits_of, find_splits, resolve_emergency_key,
  resolve_provider_command, capture, admin_command, debug, emergency, beta_command, announce,
  recover, audit, allow_chat, settings, help, feedback, start, twitter, twitter_video, twitter_post,
  instagram, instagram_video, instagram_post, tiktok, tiktok_video, tiktok_post, threads,
  threads_video, threads_post, bluesky, bluesky_video, bluesky_post, facebook, facebook_video,
  facebook_post, youtube, youtube_video, youtube_post, reddit, reddit_video, reddit_post,
}

listed : (c : CommandName) → contains CommandName-discrete c all_commands ≡ true
unfolding CommandName-discrete
listed admin_command = refl
listed debug = refl
listed emergency = refl
listed beta_command = refl
listed announce = refl
listed recover = refl
listed audit = refl
listed allow_chat = refl
listed settings = refl
listed help = refl
listed feedback = refl
listed start = refl
listed twitter = refl
listed twitter_video = refl
listed twitter_post = refl
listed instagram = refl
listed instagram_video = refl
listed instagram_post = refl
listed tiktok = refl
listed tiktok_video = refl
listed tiktok_post = refl
listed threads = refl
listed threads_video = refl
listed threads_post = refl
listed bluesky = refl
listed bluesky_video = refl
listed bluesky_post = refl
listed facebook = refl
listed facebook_video = refl
listed facebook_post = refl
listed youtube = refl
listed youtube_video = refl
listed youtube_post = refl
listed reddit = refl
listed reddit_video = refl
listed reddit_post = refl

all-contains :
    (test : CommandName → Bool) (c : CommandName) (cs : List CommandName)
    → all test cs ≡ true
    → contains CommandName-discrete c cs ≡ true
    → test c ≡ true
all-contains test c [] h k = cc
all-contains test c (d ∷ cs) h k = ground (arith, all-contains test c cs)

-- A test that every member passes, passed by a given one.
of_each :
    (test : CommandName → Bool) → all test all_commands ≡ true → (c : CommandName) → test c ≡ true
of_each test h c = all-contains test c all_commands h (listed c)

abbrev is_this : CommandName → Option CommandName → Bool
is_this c none = false
is_this c (some d) = same_command c d

abbrev family : CommandName → CommandName
family c = elim (provider_of c) [ none ↦ c | some provider ↦ provider ]

reads_back : (c : CommandName) → is_this c (command_of (command_value c)) ≡ true
unfolding command_of find_command command_value CommandName-discrete
reads_back = of_each (λ c. is_this c (command_of (command_value c))) refl

family-family : (c : CommandName) → same_command (family c) (family (family c)) ≡ true
unfolding provider_of find_provider CommandName-discrete
family-family = of_each (λ c. same_command (family c) (family (family c))) refl

family-key :
    (name : String) (c : CommandName)
    → command_of name ≡ some c
    → resolve_emergency_key name ≡ command_value (family c)
unfolding resolve_emergency_key
family-key name c h = elim (Option-cases (provider_of c)) [
  | inl e ↦ rw (h, e, resolve_emergency_key, family) refl
  | inr (d, e) ↦ rw (h, e, resolve_emergency_key, family) refl
]

unknown-key : (name : String) → command_of name ≡ none → resolve_emergency_key name ≡ name
unfolding resolve_emergency_key
unknown-key name h = ground arith

command_of-command_value : (c : CommandName) → command_of (command_value c) ≡ some c
command_of-command_value c = elim (Option-cases (command_of (command_value c))) [
  | inl none_found ↦ absurd (ground (arith, reads_back c))
  | inr (d, found) ↦ ground (arith, reads_back c, decided_iff (CommandName-discrete c d))
]

-- The emergency key of a feature is its own emergency key: a stop of a split command is stored under
-- its provider, and a name of no command under itself.
pub resolve_emergency_key-resolve_emergency_key :
    (name : String)
    → resolve_emergency_key (resolve_emergency_key name) ≡ resolve_emergency_key name
resolve_emergency_key-resolve_emergency_key name = elim (Option-cases (command_of name)) [
  | inl unknown ↦ rw (unknown-key name unknown) (unknown-key name unknown)
  | inr (c, known) ↦
      let same =
        (decided_iff (CommandName-discrete (family c) (family (family c)))).0 (family-family c) in
      rw (family-key name c known) (
        family-key (command_value (family c)) (family c) (command_of-command_value (family c))
        ∙ ap command_value (sym same))
]

get-key :
    (reg : Registry) (key : String) {d : FeatureDefinition} → get reg key ≡ some d → d.key ≡ key
unfolding get
get-key [] key h = cc
get-key (x ∷ reg) key {d} h = ground (arith, get-key reg key {d = d}, eq_iff x.key key)

require-key :
    (reg : Registry) (key : String) {d : FeatureDefinition} → require reg key ≡ ok d → d.key ≡ key
unfolding require
require-key reg key {d} h = ground (arith, get-key reg key {d = d})

-- Both split commands of a provider lead back to it.
abbrev leads_back : Bool → CommandName → Bool
leads_back video c = elim (splits_of c) [
  | none ↦ true
  | some s ↦ is_this c (resolve_provider_command (command_value (if video then s.0 else s.1)))
]

split_leads_back : (video : Bool) → all (leads_back video) all_commands ≡ true
unfolding splits_of find_splits resolve_provider_command command_value command_of find_command
    provider_of find_provider CommandName-discrete
split_leads_back true = refl
split_leads_back false = refl

is_this-eq : (c : CommandName) (x : Option CommandName) → is_this c x ≡ true → x ≡ some c
is_this-eq c none h = cc
is_this-eq c (some d) h = ground (arith, decided_iff (CommandName-discrete c d))

-- A definition that is captured for a provider, video or not, has a key that leads back to this
-- provider.
pub resolve_provider_command-capture :
    (reg : Registry) (provider : CommandName) (is_video : Bool) {d : FeatureDefinition}
    → capture reg provider is_video ≡ ok d
    → resolve_provider_command d.key ≡ some provider
unfolding capture
resolve_provider_command-capture reg provider is_video {d} h =
    elim (Option-cases (splits_of provider)) [
      | inl unknown ↦ cc (rw (unknown, capture) at h)
      | inr (s, known) ↦
          let key = require-key reg _ (rw (known, capture) at h) in
          let back = of_each (leads_back is_video) (split_leads_back is_video) provider in
          is_this-eq provider (resolve_provider_command d.key)
            (rw key (rw (known, leads_back) at back))
    ]
