-- ===== src/Settings/Laws.antt =====
-- Proofs about the tokens of settings_session_service.py that are issued and resolved.
use hovorun_v.Prelude.{
  false, ltb, ◌+◌, ◌*◌, ℕ, ◌-◌, ◌/◌, ◌<◌, ◌≡◌, refl, ap, Bool, true, Option, none, some, List,
  String, none, String-discrete, eq_iff, ℤ, ℤ-discrete, decided_iff, contains, lookup, put,
  lookup-put, if◌then◌else◌, ok, arith, Bool-cases, Option-cases, inl, inr, >>-then, ok-injective,
  raise_if, value_error, ◌==◌,
}
use mathlib.Core.Path.{subst}
use hovorun_v.Domain.{Timestamp, second}
use hovorun_v.Settings.Sessions.{
  SettingsContext-discrete, same_context, pop_session, Session, WindowToken, live_context,
  live_token, remaining, dropped_at, SettingsTarget, Chat, is_positive, SettingsContext, Directory,
  Windows, same_id, drop_session, issue, is_token, is_unset_or, is_user_current, window_matches,
  target_matches, accepts, resolve,
}

-- The chat of the context is active, and is still the same chat in the same generation; a context
-- without a chat is resolved by its actor, in private.
abbrev pub IsCurrentTarget : Directory → SettingsContext → ℤ → ℤ → Type 0
IsCurrentTarget d c actor transport =
    ((t : SettingsTarget)
      → c.target ≡ some t
      → (chat : Chat) × (d.chats t.telegram_id ≡ some chat)
        × (chat.id ≡ t.entity_id)
        × (chat.generation ≡ t.generation)
        × (chat.chat_id ≡ t.telegram_id))
    × (c.target ≡ none
        → (c.actor_id ≡ some actor) × (actor ≡ transport) × (is_positive transport ≡ true))

-- What a resolution that returns a context has checked.
pub record IsResolved (d : Directory) (w : Windows) (token operation : String)
    (actor transport message : ℤ) (now : Timestamp) (c : SettingsContext) : Type 0 where
  pub stored :
      (until : Timestamp) × (lookup token w.sessions ≡ some (record { context = c; until = until }))
      × (now < until)
  pub early : now < c.expires_at
  pub permitted : contains String-discrete operation c.operations ≡ true
  pub transported : c.transport_chat_id ≡ transport
  pub shown : c.message_id ≡ message
  pub acting : (a : ℤ) → c.actor_id ≡ some a → a ≡ actor
  pub latest :
      (until : Timestamp) × (w.current transport ≡ some (record { token = token; until = until }))
      × (now < until)
  pub user : (g : ℕ) × (d.users actor ≡ some g) × ((h : ℕ) → c.actor_generation ≡ some h → g ≡ h)
  pub target : IsCurrentTarget d c actor transport

some_same : {a b : SettingsContext} → some a ≡ some b → a ≡ b
some_same h = cc

latest_token :
    (now : Timestamp) (o : Option WindowToken) (t : String)
    → is_token (live_token now o) t ≡ true
    → (until : Timestamp) × (o ≡ some (record { token = t; until = until })) × (now < until)
latest_token now none t h = cc
latest_token now (some x) t h = elim (Bool-cases (ltb now x.until)) [
  | inl kept ↦
      let same : x.token ≡ t = (eq_iff x.token t).0 (rw kept at h) in
      (x.until, ap (λ k. some (record { token = k; until = x.until })) same, ground arith)
  | inr over ↦ cc (rw over at h)
]

live_stored :
    (now : Timestamp) (o : Option Session) (c : SettingsContext)
    → live_context now o ≡ some c
    → (until : Timestamp) × (o ≡ some (record { context = c; until = until })) × (now < until)
live_stored now none c h = cc
live_stored now (some x) c h = elim (Bool-cases (ltb now x.until)) [
  | inl kept ↦
      let same : x.context ≡ c = some_same (rw kept at h) in
      (x.until, ap (λ k. some (record { context = k; until = x.until })) same, ground arith)
  | inr over ↦ cc (rw over at h)
]

pop_session_same :
    (consume : Bool) (token : String) (c0 : SettingsContext) (v : Windows) (now : Timestamp)
    {c : SettingsContext}
    → (pop_session consume token c0 v now).0 ≡ some c
    → c0 ≡ c
pop_session_same false token c0 v now h = some_same h
pop_session_same true token c0 v now h =
    elim (Bool-cases (same_context c0 (live_context now (lookup token v.sessions)))) [
      | inl kept ↦ some_same (rw kept at h)
      | inr taken ↦ cc (rw taken at h)
    ]

pop_session_kept :
    (consume : Bool) (token : String) (c : SettingsContext) (v : Windows) (now : Timestamp)
    → live_context now (lookup token v.sessions) ≡ some c
    → (pop_session consume token c v now).0 ≡ some c
pop_session_kept false token c v now h = refl
pop_session_kept true token c v now h =
    rw (h, (decided_iff (SettingsContext-discrete c c)).1 refl) refl

acting_actor :
    (o : Option ℤ) (actor : ℤ) → is_unset_or o actor ≡ true → (a : ℤ) → o ≡ some a → a ≡ actor
acting_actor none actor h a e = cc
acting_actor (some x) actor h a e = ground (arith, decided_iff (ℤ-discrete x actor))

current_user :
    (o : Option ℕ) (c : SettingsContext)
    → is_user_current o c ≡ true
    → (g : ℕ) × (o ≡ some g) × ((h : ℕ) → c.actor_generation ≡ some h → g ≡ h)
current_user none c h = cc
current_user (some g) c h = (g, refl, λ k e. ground arith)

current_chat :
    (d : Directory) (c : SettingsContext) (actor transport : ℤ) (t : SettingsTarget)
    → target_matches d c actor transport ≡ true
    → c.target ≡ some t
    → (chat : Chat) × (d.chats t.telegram_id ≡ some chat)
      × (chat.id ≡ t.entity_id)
      × (chat.generation ≡ t.generation)
      × (chat.chat_id ≡ t.telegram_id)
unfolding target_matches
current_chat d c actor transport t h e = elim (Option-cases (d.chats t.telegram_id)) [
  | inl gone ↦ absurd (ground (arith, e, gone))
  | inr (chat, found) ↦ (
    chat,
    found,
    ground (arith, e, found),
    ground (arith, e, found),
    ground (arith, e, found, decided_iff (ℤ-discrete chat.chat_id t.telegram_id)),
  )
]

own_listing :
    (d : Directory) (c : SettingsContext) (actor transport : ℤ)
    → target_matches d c actor transport ≡ true
    → c.target ≡ none
    → (c.actor_id ≡ some actor) × (actor ≡ transport) × (is_positive transport ≡ true)
unfolding target_matches
own_listing d c actor transport h e = elim (Option-cases c.actor_id) [
  | inl missing ↦ absurd (ground (arith, e, missing))
  | inr (a, found) ↦ (
    ground (arith, e, found, decided_iff (ℤ-discrete a actor)),
    ground (arith, e, found, decided_iff (ℤ-discrete actor transport)),
    ground (arith, e, found),
  )
]

module _ (d : Directory) (w : Windows) (token operation : String) (actor transport message : ℤ)
    (now : Timestamp) where
  accepted-IsResolved :
      (c : SettingsContext)
      → live_context now (lookup token w.sessions) ≡ some c
      → accepts d w c token operation actor transport message now ≡ true
      → IsResolved d w token operation actor transport message now c
  unfolding accepts window_matches
  accepted-IsResolved c found h = record {
    stored = live_stored now (lookup token w.sessions) c found;
    early = ground arith;
    permitted = ground arith;
    transported = ground (arith, decided_iff (ℤ-discrete c.transport_chat_id transport));
    shown = ground (arith, decided_iff (ℤ-discrete c.message_id message));
    acting = acting_actor c.actor_id actor (ground arith);
    latest = latest_token now (w.current transport) token (ground arith);
    user = current_user (d.users actor) c (ground arith);
    target = (
      λ t e. current_chat d c actor transport t (ground arith) e,
      λ e. own_listing d c actor transport (ground arith) e,
    );
  }

  -- Whatever other calls do before it is consumed, a token resolves only to the context that the cache
  -- still has under it when it is read, before its deadline, for an operation
  -- that it permits, in the chat and at the message that it was issued for, to the actor it is bound to
  -- if there is one, whose account is active, of the generation that the context was made for if it has
  -- one; if it is the latest token of that chat, and its target is still an active chat with the same
  -- number in the same generation. A context without a target resolves only for its own actor, in
  -- private.
  pub resolve-IsResolved :
      (v : Windows) (consume : Bool) {c : SettingsContext} {w' : Windows}
      → resolve d w v token operation actor transport message consume now ≡ (some c, w')
      → IsResolved d w token operation actor transport message now c
  unfolding resolve
  resolve-IsResolved v consume {c} {w'} h =
      elim (Option-cases (live_context now (lookup token w.sessions))) [
        | inl absent ↦ absurd (ground arith)
        | inr (c0, found) ↦
            elim (Bool-cases (accepts d w c0 token operation actor transport message now)) [
              | inr shut ↦ absurd (ground arith)
              | inl yes_open ↦
                  let same : c0 ≡ c =
                    pop_session_same consume token c0 v now
                      (ap (λ x. x.0) (rw (found, yes_open, resolve) at h)) in
                  subst (IsResolved d w token operation actor transport message now) same
                    (accepted-IsResolved c0 found yes_open)
            ]
      ]

module _ (d : Directory) (v : Windows) (c : SettingsContext) (token operation : String) (actor : ℤ)
    (later : Timestamp) where
  latest_accepted :
      live_token later (v.current c.transport_chat_id) ≡ some token
      → later < c.expires_at
      → contains String-discrete operation c.operations ≡ true
      → is_unset_or c.actor_id actor ≡ true
      → is_user_current (d.users actor) c ≡ true
      → target_matches d c actor c.transport_chat_id ≡ true
      → accepts d v c token operation actor c.transport_chat_id c.message_id later ≡ true
  unfolding accepts window_matches
  latest_accepted latest early allowed acting user target = ground (
    arith,
    eq_iff token token,
    decided_iff (ℤ-discrete c.transport_chat_id c.transport_chat_id),
    decided_iff (ℤ-discrete c.message_id c.message_id),
  )

  accepted_resolves :
      (consume : Bool)
      → live_context later (lookup token v.sessions) ≡ some c
      → accepts d v c token operation actor c.transport_chat_id c.message_id later ≡ true
      → (resolve d v v token operation actor c.transport_chat_id c.message_id consume later).0
        ≡ some c
  unfolding resolve
  accepted_resolves consume found open_window =
      rw (found, open_window, resolve) (pop_session_kept consume token c v later found)

same_user :
    (o : Option ℕ) (c : SettingsContext) (operations : List String)
    → is_user_current o c ≡ true
    → is_user_current o (record c { operations = operations }) ≡ true
same_user none c operations h = h
same_user (some g) c operations h = h

whole_seconds_left :
    (c : SettingsContext) (now later : Timestamp)
    → raise_if (remaining c now == 0) value_error ≡ ok tt
    → later < dropped_at c now
    → later < c.expires_at
whole_seconds_left c now later h early =
    let some_left : 0 < remaining c now = ground arith in ground arith

-- A token that is issued resolves to its context, with the operations it was issued for, for the whole
-- seconds that are left until the deadline of that context: for each of those operations, in the context's chat and at its message, to
-- the actor it is bound to or any if there is none, while the actor's account and the target are
-- current.
pub resolve-issue :
    (d : Directory) (w w' : Windows) (c : SettingsContext) (operations : List String)
    (token issued : String) (now later : Timestamp) (operation : String) (actor : ℤ)
    (consume : Bool)
    → issue w c operations token now ≡ ok (issued, w')
    → later < now + (c.expires_at - now) / second * second
    → contains String-discrete operation operations ≡ true
    → is_unset_or c.actor_id actor ≡ true
    → is_user_current (d.users actor) c ≡ true
    → target_matches d c actor c.transport_chat_id ≡ true
    → (resolve d w' w' issued operation actor c.transport_chat_id c.message_id consume later).0
      ≡ some (record c { operations = operations })
unfolding issue target_matches
resolve-issue d w w' c operations token issued now later operation actor consume h early allowed
      acting user target =
    let (some_left, done) = >>-then (raise_if (remaining c now == 0) value_error) h in
    let until = dropped_at c now in
    let in_time : later < c.expires_at = whole_seconds_left c now later some_left early in
    let kept_then : ltb later until ≡ true = ground arith in
    let new : SettingsContext = record c { operations = operations } in
    let session : Session = record { context = new; until = until } in
    let kept = drop_session (live_token now (w.current c.transport_chat_id)) w.sessions in
    let current : ℤ → Option WindowToken = λ chat.
      if same_id c.transport_chat_id chat
      then some (record { token = token; until = until })
      else w.current chat in
    subst
      (λ x.
        (resolve d x.1 x.1 x.0 operation actor c.transport_chat_id c.message_id consume later).0
        ≡ some new)
      (ok-injective done)
      (accepted_resolves d (record { sessions = put token session kept; current = current }) new
        token operation actor later consume
        (rw (lookup-put token token session kept, (eq_iff token token).1 refl, kept_then) refl)
        (latest_accepted d (record { sessions = put token session kept; current = current }) new
          token operation actor later
          (rw ((decided_iff (ℤ-discrete c.transport_chat_id c.transport_chat_id)).1 refl, kept_then)
            refl)
          in_time allowed acting (same_user (d.users actor) c operations user)
          (same_target target)))
  where
    same_target :
        target_matches d c actor c.transport_chat_id ≡ true
        → target_matches d (record c { operations = operations }) actor c.transport_chat_id ≡ true
    same_target h = h
