-- ===== src/Settings/Once.antt =====
-- Proofs about the tokens of settings_session_service.py that have been consumed.
use hovorun_v.Prelude.{
  ◌≡◌, refl, ◌∙◌, ap, Bool, true, false, Option, none, some, List, [], ◌∷◌, String, str_eq, eq_iff,
  ℤ, Dict, lookup, remove, lookup-put, lookup-remove, IsKeyed, put-IsKeyed, remove-IsKeyed, Result,
  ok, err, arith, Bool-cases, Option-cases, inl, inr, ◌==◌,
}
use mathlib.Core.Path.{subst}
use hovorun_v.Domain.{Timestamp}
use hovorun_v.Settings.Sessions.{
  Session, live_context, live_token, remaining, dropped_at, SettingsContext, Directory, Windows,
  drop_session, issue, accepts, pop_session, resolve, consume_session,
}

-- A call of the service that changes the cache; a resolution has read what it resolves in the cache as it
-- was at some time before.
pub data SettingsEvent : Type 0 where
  issue_event : SettingsContext → List String → String → Timestamp → SettingsEvent
  resolve_event :
      Directory → Windows → String → String → ℤ → ℤ → ℤ → Bool → Timestamp → SettingsEvent
  consume_event : String → SettingsEvent

abbrev windows_or : Windows → Result (String × Windows) → Windows
windows_or w (ok done) = done.1
windows_or w (err e) = w

unfoldable pub run_settings_event : Windows → SettingsEvent → Windows
unfolding issue resolve
run_settings_event w (issue_event c operations token now) =
    windows_or w (issue w c operations token now)
run_settings_event w (resolve_event d seen token operation actor transport message consume now) =
    (resolve d seen w token operation actor transport message consume now).1
run_settings_event w (consume_event token) = consume_session w token

unfoldable pub run_settings : Windows → List SettingsEvent → Windows
unfolding run_settings_event
run_settings w [] = w
run_settings w (x ∷ xs) = run_settings (run_settings_event w x) xs

-- No event issues the token.
abbrev pub NotIssued : String → List SettingsEvent → Type 0
NotIssued t [] = Unit {0}
NotIssued t (issue_event c operations token now ∷ xs) = (str_eq token t ≡ false) × NotIssued t xs
NotIssued t (resolve_event d seen token operation actor transport message consume now ∷ xs) =
    NotIssued t xs
NotIssued t (consume_event token ∷ xs) = NotIssued t xs

-- The cache has one entry for a key, and none for this token.
record IsSpent (t : String) (w : Windows) : Type 0 where
  keyed : IsKeyed w.sessions
  absent : lookup t w.sessions ≡ none

removed-IsSpent :
    (t token : String) (w : Windows)
    → IsSpent t w
    → IsSpent t (record w { sessions = remove token w.sessions })
removed-IsSpent t token w s = record {
  keyed = remove-IsKeyed token w.sessions s.keyed;
  absent = ground (arith, s.absent, lookup-remove t token w.sessions s.keyed);
}

dropped :
    (t : String) (o : Option String) (d : Dict Session)
    → IsKeyed d
    → IsKeyed (drop_session o d) × (lookup t d ≡ none → lookup t (drop_session o d) ≡ none)
dropped t none d u = (u, λ h. h)
dropped t (some token) d u =
    (remove-IsKeyed token d u, λ h. ground (arith, lookup-remove t token d u))

issued-IsSpent :
    (t : String) (w : Windows) (c : SettingsContext) (operations : List String) (token : String)
    (now : Timestamp)
    → IsSpent t w
    → str_eq token t ≡ false
    → IsSpent t (windows_or w (issue w c operations token now))
unfolding issue
issued-IsSpent t w c operations token now s other = elim (Bool-cases (remaining c now == 0)) [
  | inl late ↦ rw late s
  | inr early ↦
      let chat = live_token now (w.current c.transport_chat_id) in
      let (u, h) = dropped t chat w.sessions s.keyed in
      rw early (record {
        keyed = put-IsKeyed token _ _ u;
        absent =
            lookup-put t token
              (record { context = record c { operations = operations }; until = dropped_at c now })
              (drop_session chat w.sessions)
            ∙ rw other (h s.absent);
      })
]

popped-IsSpent :
    (t token : String) (consume : Bool) (c : SettingsContext) (v : Windows) (now : Timestamp)
    → IsSpent t v
    → IsSpent t (pop_session consume token c v now).1
popped-IsSpent t token true c v now s = removed-IsSpent t token v s
popped-IsSpent t token false c v now s = s

resolved-IsSpent :
    (t : String) (d : Directory) (w v : Windows) (token operation : String)
    (actor transport message : ℤ) (consume : Bool) (now : Timestamp)
    → IsSpent t v
    → IsSpent t (resolve d w v token operation actor transport message consume now).1
unfolding resolve
resolved-IsSpent t d w v token operation actor transport message consume now s =
    elim (Option-cases (live_context now (lookup token w.sessions))) [
      | inl absent ↦ rw (absent, resolve) s
      | inr (c, found) ↦
          elim (Bool-cases (accepts d w c token operation actor transport message now)) [
            | inl yes_open ↦
                rw (found, yes_open, resolve) (popped-IsSpent t token consume c v now s)
            | inr shut ↦ rw (found, shut, resolve) s
          ]
    ]

run_settings-IsSpent :
    (t : String) (xs : List SettingsEvent) (w : Windows)
    → IsSpent t w
    → NotIssued t xs
    → IsSpent t (run_settings w xs)
unfolding run_settings run_settings_event
run_settings-IsSpent t [] w s n = s
run_settings-IsSpent t (issue_event c operations token now ∷ xs) w s n =
    run_settings-IsSpent t xs _ (issued-IsSpent t w c operations token now s n.0) n.1
run_settings-IsSpent t
      (resolve_event d seen token operation actor transport message consume now ∷ xs) w s n =
    run_settings-IsSpent t xs _
      (resolved-IsSpent t d seen w token operation actor transport message consume now s) n
run_settings-IsSpent t (consume_event token ∷ xs) w s n =
    run_settings-IsSpent t xs _ (removed-IsSpent t token w s) n

module _ (d : Directory) (w v : Windows) (token operation : String)
    (actor transport message : ℤ) where
  resolve_absent :
      (consume : Bool) (now : Timestamp)
      → lookup token w.sessions ≡ none
      → (resolve d w v token operation actor transport message consume now).0 ≡ none
  unfolding resolve
  resolve_absent consume now h = rw (h, resolve) refl

  resolve_taken :
      (now : Timestamp)
      → lookup token v.sessions ≡ none
      → (resolve d w v token operation actor transport message true now).0 ≡ none
  unfolding resolve
  resolve_taken now h = elim (Option-cases (live_context now (lookup token w.sessions))) [
    | inl absent ↦ rw (absent, resolve) refl
    | inr (c, found) ↦
        elim (Bool-cases (accepts d w c token operation actor transport message now)) [
          | inl yes_open ↦ rw (found, yes_open, h, resolve) refl
          | inr shut ↦ rw (found, shut, resolve) refl
        ]
  ]

  consumed-IsSpent :
      (now : Timestamp) {c : SettingsContext} {w' : Windows}
      → IsKeyed v.sessions
      → resolve d w v token operation actor transport message true now ≡ (some c, w')
      → IsSpent token w'
  unfolding resolve
  consumed-IsSpent now {c} {w'} u h =
      elim (Option-cases (live_context now (lookup token w.sessions))) [
        | inl absent ↦ absurd (ground arith)
        | inr (c0, found) ↦
            elim (Bool-cases (accepts d w c0 token operation actor transport message now)) [
              | inr shut ↦ absurd (ground arith)
              | inl yes_open ↦
                  subst (IsSpent token) (ap (λ x. x.1) (rw (found, yes_open, resolve) at h))
                    (record {
                      keyed = remove-IsKeyed token v.sessions u;
                      absent =
                          ground
                            (arith, lookup-remove token token v.sessions u, eq_iff token token);
                    })
            ]
      ]

-- A token that has been consumed never resolves again, in a cache with one entry for each key: not for
-- any operation, actor, chat or message, after any history of calls in which it is not issued again.
-- Nor is it consumed again by a call that had read it before, in whatever cache.
pub resolve_once :
    (d : Directory) (seen w : Windows) (token operation : String) (actor transport message : ℤ)
    (now : Timestamp) {c : SettingsContext} {w' : Windows}
    → IsKeyed w.sessions
    → resolve d seen w token operation actor transport message true now ≡ (some c, w')
    → (xs : List SettingsEvent) → NotIssued token xs
    → (d' : Directory) (before later : Windows) (operation' : String)
      (actor' transport' message' : ℤ) (consume : Bool) (now' : Timestamp)
    → ((resolve d'
          (run_settings w' xs)
          later
          token
          operation'
          actor'
          transport'
          message'
          consume
          now').0
        ≡ none)
      × ((resolve d' before
            (run_settings w' xs)
            token
            operation'
            actor'
            transport'
            message'
            true
            now').0
          ≡ none)
resolve_once d seen w token operation actor transport message now {w' = w'} u h xs n d' before later
      operation' actor' transport' message' consume now' =
    let first = consumed-IsSpent d seen w token operation actor transport message now u h in
    let spent = run_settings-IsSpent token xs w' first n in
    let v = run_settings w' xs in
    (
      resolve_absent d' v later token operation' actor' transport' message' consume now'
          spent.absent,
      resolve_taken d' before v token operation' actor' transport' message' now' spent.absent,
    )
