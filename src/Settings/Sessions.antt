-- ===== src/Settings/Sessions.antt =====
-- src/hovorunv2/application/settings/settings_session_service.py: opaque tokens for windows of settings.
-- The stores of users and chats are what they answer at the moment of the call; the cache is a state, and
-- a read finds an entry until the time at which the cache drops it.
use hovorun_v.Prelude.{
  ℕ, ◌+◌, ◌-◌, ◌/◌, Bool, true, false, not, ◌&&◌, ◌||◌, Option, none, some, List, [], String,
  ℕ_discrete, String-discrete, str_eq, ℤ, pos, negsuc, zero, suc, ℤ-discrete, decided, contains,
  leb, ltb, ◌*◌, ◌==◌, Dict, lookup, put, remove, if◌then◌else◌, Result, ok, err, ◌>>◌, raise_if,
  value_error,
}
use hovorun_v.Domain.{Timestamp, second, seconds}

-- `SETTINGS_SESSION_TTL`
abbrev pub session_ttl : Timestamp
session_ttl = seconds 30

pub record SettingsTarget : Type 0 where
  pub entity_id : ℕ
  pub generation : ℕ
  pub telegram_id : ℤ

pub record SettingsContext : Type 0 where
  pub target : Option SettingsTarget
  pub choices : List SettingsTarget
  pub transport_chat_id : ℤ
  pub message_id : ℤ
  pub actor_id : Option ℤ
  pub actor_generation : Option ℕ
  pub expires_at : Timestamp
  pub operations : List String
  pub token : Option String

unfoldable pub SettingsContext-discrete : Discrete SettingsContext
unfolding ℕ_discrete ℤ-discrete String-discrete
SettingsContext-discrete = hlevel (ℕ_discrete, ℤ-discrete, String-discrete)

-- What the service reads of a chat.
pub record Chat : Type 0 where
  pub id : ℕ
  pub chat_id : ℤ
  pub generation : ℕ

-- The answers of the stores: the generation of an active user, and an active chat.
pub record Directory : Type 0 where
  pub users : ℤ → Option ℕ
  pub chats : ℤ → Option Chat

-- What the cache has under `settings:session:<token>`, and until when.
pub record Session : Type 0 where
  pub context : SettingsContext
  pub until : Timestamp

-- What the cache has under `settings:window:<transport>`, and until when.
pub record WindowToken : Type 0 where
  pub token : String
  pub until : Timestamp

pub record Windows : Type 0 where
  pub sessions : Dict Session
  pub current : ℤ → Option WindowToken

-- `self._cache.get` of the two keys.
abbrev pub live_context : Timestamp → Option Session → Option SettingsContext
live_context now none = none
live_context now (some s) = if ltb now s.until then some s.context else none

abbrev pub live_token : Timestamp → Option WindowToken → Option String
live_token now none = none
live_token now (some t) = if ltb now t.until then some t.token else none

abbrev pub same_id : ℤ → ℤ → Bool
same_id a b = decided (ℤ-discrete a b)

abbrev pub is_negative : ℤ → Bool
is_negative (pos n) = false
is_negative (negsuc n) = true

abbrev pub is_positive : ℤ → Bool
is_positive (pos zero) = false
is_positive (pos (suc n)) = true
is_positive (negsuc n) = false

-- `prepare`
unfoldable pub prepare : Directory → ℤ → ℤ → ℤ → ℤ → Timestamp → Result SettingsContext
unfolding ℤ-discrete
prepare d target actor transport message now = elim (d.chats target) [
  | none ↦ err value_error
  | some chat ↦ elim (d.users actor) [
    | none ↦ err value_error
    | some generation ↦ (do
      raise_if (not (same_id chat.chat_id target)) value_error
      raise_if
          ((is_negative transport && not (same_id transport target))
            || (is_positive transport && not (same_id transport actor)))
          value_error
      ok (record {
        target =
            some
              (record { entity_id = chat.id; generation = chat.generation; telegram_id = target });
        choices = [];
        transport_chat_id = transport;
        message_id = message;
        actor_id = if is_positive transport then some actor else none;
        actor_generation = if is_positive transport then some generation else none;
        expires_at = now + session_ttl;
        operations = [];
        token = none;
      }))
  ]
]

-- `prepare_listing`
unfoldable pub prepare_listing : Directory → ℤ → ℤ → ℤ → Timestamp → Result SettingsContext
unfolding ℤ-discrete
prepare_listing d actor transport message now = elim (d.users actor) [
  | none ↦ err value_error
  | some generation ↦ (do
    raise_if (not (same_id actor transport) || not (is_positive transport)) value_error
    ok (record {
      target = none;
      choices = [];
      transport_chat_id = transport;
      message_id = message;
      actor_id = some actor;
      actor_generation = some generation;
      expires_at = now + session_ttl;
      operations = [];
      token = none;
    }))
]

abbrev pub drop_session : Option String → Dict Session → Dict Session
drop_session none sessions = sessions
drop_session (some token) sessions = remove token sessions

-- `int(context.expires_at - time.time())`
abbrev pub remaining : SettingsContext → Timestamp → ℕ
remaining c now = (c.expires_at - now) / second

-- When the cache drops what is set with `expire=remaining`.
abbrev pub dropped_at : SettingsContext → Timestamp → Timestamp
dropped_at c now = now + remaining c now * second

-- `issue`, with the token that `secrets` has drawn.
unfoldable pub issue :
    Windows → SettingsContext → List String → String → Timestamp → Result (String × Windows)
unfolding ℤ-discrete
issue w c operations token now = do
  raise_if (remaining c now == 0) value_error
  let kept = drop_session (live_token now (w.current c.transport_chat_id)) w.sessions
  let until = dropped_at c now
  ok (
    token,
    record {
      sessions =
          put token (record { context = record c { operations = operations }; until = until }) kept;
      current = λ chat.
          if same_id c.transport_chat_id chat
          then some (record { token = token; until = until })
          else w.current chat;
    },
  )

abbrev pub is_token : Option String → String → Bool
is_token none token = false
is_token (some t) token = str_eq t token

abbrev pub is_unset_or : Option ℤ → ℤ → Bool
is_unset_or none actor = true
is_unset_or (some a) actor = same_id a actor

-- `_window_matches`
unfoldable pub window_matches :
    Windows → SettingsContext → String → String → ℤ → ℤ → ℤ → Timestamp → Bool
unfolding ℤ-discrete
window_matches w c token operation actor transport message now =
    if leb c.expires_at now || not (contains String-discrete operation c.operations)
    then false
    else if not (same_id c.transport_chat_id transport) || not (same_id c.message_id message)
    then false
    else if not (is_unset_or c.actor_id actor)
    then false
    else is_token (live_token now (w.current transport)) token

abbrev pub is_actor : Option ℤ → ℤ → Bool
is_actor none actor = false
is_actor (some a) actor = same_id a actor

-- `_target_matches`
unfoldable pub target_matches : Directory → SettingsContext → ℤ → ℤ → Bool
unfolding ℤ-discrete
target_matches d c actor transport = elim c.target [
  | none ↦ is_actor c.actor_id actor && same_id actor transport && is_positive transport
  | some t ↦ elim (d.chats t.telegram_id) [
    | none ↦ false
    | some chat ↦
        chat.id == t.entity_id
        && chat.generation == t.generation
        && same_id chat.chat_id t.telegram_id
  ]
]

abbrev pub is_generation : Option ℕ → ℕ → Bool
is_generation none generation = true
is_generation (some g) generation = generation == g

abbrev pub is_user_current : Option ℕ → SettingsContext → Bool
is_user_current none c = false
is_user_current (some generation) c = is_generation c.actor_generation generation

-- Whether `_resolve_window` accepts a stored context.
unfoldable pub accepts :
    Directory → Windows → SettingsContext → String → String → ℤ → ℤ → ℤ → Timestamp → Bool
unfolding window_matches target_matches
accepts d w c token operation actor transport message now =
    if not (window_matches w c token operation actor transport message now)
    then false
    else if not (is_user_current (d.users actor) c)
    then false
    else target_matches d c actor transport

abbrev pub same_context : SettingsContext → Option SettingsContext → Bool
same_context c none = false
same_context c (some x) = decided (SettingsContext-discrete x c)

-- `if consume and await self._cache.pop(key) != raw`, at the cache as it is by then.
abbrev pub pop_session :
    Bool → String → SettingsContext → Windows → Timestamp → Option SettingsContext × Windows
pop_session false token c v now = (some c, v)
pop_session true token c v now = (
  if same_context c (live_context now (lookup token v.sessions)) then some c else none,
  record v { sessions = remove token v.sessions },
)

-- `resolve`: the session and its window are read in one cache, and where other calls come between, the
-- session is popped from a later one.
unfoldable pub resolve :
    Directory
    → Windows
    → Windows
    → String
    → String
    → ℤ
    → ℤ
    → ℤ
    → Bool
    → Timestamp
    → Option SettingsContext × Windows
unfolding accepts SettingsContext-discrete
resolve d w v token operation actor transport message consume now =
    elim (live_context now (lookup token w.sessions)) [
      | none ↦ (none, v)
      | some c ↦
          if accepts d w c token operation actor transport message now
          then pop_session consume token c v now
          else (none, v)
    ]

-- `consume`
abbrev pub consume_session : Windows → String → Windows
consume_session w token = record w { sessions = remove token w.sessions }
