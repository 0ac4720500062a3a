-- ===== src/Settings/Tests.antt =====
-- settings_session_service.py at a window for a group, opened in private, with every property applied.
use hovorun_v.Prelude.{
  ◌≡◌, refl, true, false, none, some, List, [], ◌∷◌, String-discrete, pos, negsuc, ℤ-discrete, ok,
  lookup, put, remove, arith, if◌then◌else◌, decided, contains, IsKeyed,
}
use hovorun_v.Domain.{seconds}
use hovorun_v.Settings.Sessions.{
  SettingsContext, Directory, Windows, prepare, issue, resolve, is_user_current, target_matches,
}
use hovorun_v.Settings.Laws.{IsResolved, resolve-IsResolved, resolve-issue}
use hovorun_v.Settings.Once.{
  SettingsEvent, resolve_event, consume_event, run_settings, resolve_once,
}

abbrev directory : Directory
directory = record {
  users = λ id. if decided (ℤ-discrete id (pos 7)) then some 1 else none;
  chats = λ id.
      if decided (ℤ-discrete id (negsuc 99))
      then some (record { id = 4; chat_id = negsuc 99; generation = 2 })
      else none;
}

abbrev no_windows : Windows
no_windows = record { sessions = []; current = λ chat. none }

abbrev prepared : SettingsContext
prepared = record {
  target = some (record { entity_id = 4; generation = 2; telegram_id = negsuc 99 });
  choices = [];
  transport_chat_id = pos 7;
  message_id = pos 30;
  actor_id = some (pos 7);
  actor_generation = some 1;
  expires_at = seconds 1030;
  operations = [];
  token = none;
}

prepared_group : prepare directory (negsuc 99) (pos 7) (pos 7) (pos 30) (seconds 1000) ≡ ok prepared
unfolding prepare ℤ-discrete
prepared_group = refl

abbrev offered : SettingsContext
offered = record prepared { operations = "language" ∷ "trust" ∷ [] }

abbrev one_window : Windows
one_window = record {
  sessions = ("token-a", record { context = offered; until = seconds 1030 }) ∷ [];
  current = λ chat.
      if decided (ℤ-discrete (pos 7) chat)
      then some (record { token = "token-a"; until = seconds 1030 })
      else none;
}

abbrev used_window : Windows
used_window = record one_window { sessions = [] }

issued_window :
    issue no_windows prepared ("language" ∷ "trust" ∷ []) "token-a" (seconds 1001)
    ≡ ok ("token-a", one_window)
unfolding issue put
issued_window = refl

resolved_window :
    resolve directory one_window one_window "token-a" "trust"
      (pos 7)
      (pos 7)
      (pos 30)
      true
      (seconds 1002)
    ≡ (some offered, used_window)
unfolding resolve lookup remove ℤ-discrete String-discrete
resolved_window = refl

target_current : target_matches directory prepared (pos 7) (pos 7) ≡ true
unfolding target_matches ℤ-discrete
target_current = refl

acting_current : decided (ℤ-discrete (pos 7) (pos 7)) ≡ true
unfolding ℤ-discrete
acting_current = refl

resolve-IsResolved_example :
    IsResolved directory one_window "token-a" "trust"
      (pos 7)
      (pos 7)
      (pos 30)
      (seconds 1002)
      offered
resolve-IsResolved_example =
    resolve-IsResolved directory one_window "token-a" "trust" (pos 7) (pos 7) (pos 30)
      (seconds 1002) one_window true resolved_window

abbrev later_events : List SettingsEvent
later_events =
    resolve_event directory one_window "token-a" "language" (pos 7) (pos 7) (pos 30) false
      (seconds 1003)
    ∷ consume_event "token-b"
    ∷ []

one_window-IsKeyed : IsKeyed one_window.sessions
unfolding lookup
one_window-IsKeyed = (refl, tt)

resolve_once_example :
    ((resolve directory
        (run_settings used_window later_events)
        used_window
        "token-a"
        "language"
        (pos 7)
        (pos 7)
        (pos 30)
        false
        (seconds 1004)).0
      ≡ none)
    × ((resolve directory one_window
          (run_settings used_window later_events)
          "token-a"
          "language"
          (pos 7)
          (pos 7)
          (pos 30)
          true
          (seconds 1004)).0
        ≡ none)
resolve_once_example =
    resolve_once directory one_window one_window "token-a" "trust" (pos 7) (pos 7) (pos 30)
      (seconds 1002) one_window-IsKeyed resolved_window later_events tt directory one_window
      used_window "language" (pos 7) (pos 7) (pos 30) false (seconds 1004)

user_current : is_user_current (directory.users (pos 7)) prepared ≡ true
unfolding ℤ-discrete
user_current = refl

trust_offered : contains String-discrete "trust" ("language" ∷ "trust" ∷ []) ≡ true
unfolding String-discrete
trust_offered = refl

resolve-issue_example :
    (resolve directory one_window one_window "token-a" "trust"
      (pos 7)
      (pos 7)
      (pos 30)
      true
      (seconds 1002)).0
    ≡ some (record prepared { operations = "language" ∷ "trust" ∷ [] })
resolve-issue_example =
    resolve-issue directory no_windows one_window prepared ("language" ∷ "trust" ∷ []) "token-a"
      "token-a" (seconds 1001) (seconds 1002) "trust" (pos 7) true issued_window (ground arith)
      trust_offered acting_current user_current target_current
