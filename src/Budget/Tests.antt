-- ===== src/Budget/Tests.antt =====
-- budget_state.py at a request of a group with one quota: its record, the store before and after it is
-- granted, and every property applied there.
use hovorun_v.Prelude.{
  is_ok, arith, ◌≡◌, refl, true, false, none, some, List, [], ◌∷◌, ok, err, negsuc, decided,
  if◌then◌else◌, value_error, All, String-discrete,
}
use hovorun_v.Domain.{group, seconds, at}
use hovorun_v.Usage.Policies.{
  UsagePolicy, requests, default_caps, validate_policy, validate_window, UsageUnit-discrete,
}
use hovorun_v.Usage.Budgets.{BudgetRequest, reserved, committed, expired}
use hovorun_v.Budget.Record.{
  Subject-discrete, Scope-discrete, ConcurrencyKey-discrete, Amounts, Amounts-discrete, Scope,
  global_key, scope_key, QuotaSpec, ConcurrencySpec, BudgetRecord, build_record, no_amounts,
  identity_of,
}
use hovorun_v.Budget.Verify.{verify_record}
use hovorun_v.Budget.Calculate.{
  Reading, refill, Snapshot, QuotaUpdate, BudgetMutation, calculate_reserve, decide,
}
use hovorun_v.Budget.Settle.{
  verify_active_ownership, calculate_expire, settle_quota, calculate_finish, settled, settled_state,
}
use hovorun_v.Budget.Totality.{calculate_finish-returns}
use hovorun_v.Budget.Expiry.{IsExpiry, calculate_expire-IsExpiry, settle_quota-reserve_update}
use hovorun_v.Budget.Grants.{IsCurrent, IsReservation, calculate_reserve-IsReservation}
use hovorun_v.Budget.Windows.{IsPolicy, build_record-IsCurrent}
use hovorun_v.Budget.Settlement.{
  IsCovered, IsSettlement, calculate_finish-IsSettlement, calculate_finish_replay,
}

abbrev pub policy : UsagePolicy
policy = record {
  bucket = "family:media";
  limit = 12;
  burst = 6;
  concurrency = 2;
  pending = 25;
  unit = requests;
  window = record { seconds = 60 };
}

abbrev pub budget_request : BudgetRequest
budget_request = record {
  reservation_id = "job-1";
  usage = record {
    subject = record { kind = group; telegram_id = negsuc 99; entity_id = 4; generation = 1 };
    policies = policy ∷ [];
    bypass_personal_quota = false;
    safety = default_caps;
  };
  estimates = record { unit = requests; amount = 2 } ∷ [];
  deadline = at (seconds 1300);
}

abbrev pub one_scope : Scope
one_scope = record {
  subject = (group, negsuc 99);
  bucket = "family:media";
  unit = requests;
  seconds = 60;
}

abbrev pub quota : QuotaSpec
quota = record {
  key = record { scope = one_scope; start = 960 };
  rate = one_scope;
  unit = requests;
  amount = 2;
  baseline = 3;
  limit = 12;
  burst = 6;
  seconds = 60;
  ends = 1020;
}

abbrev pub concurrency : List ConcurrencySpec
concurrency =
    record { key = global_key; limit = 2 } ∷ record { key = scope_key one_scope; limit = 2 } ∷ []

abbrev pub two_requests : Amounts
two_requests = record no_amounts { request_amount = some 2 }

abbrev one_request : Amounts
one_request = record no_amounts { request_amount = some 1 }

abbrev pub reservation : BudgetRecord
reservation = record {
  id = "job-1";
  subject = (group, negsuc 99);
  generation = 1;
  deadline = seconds 1300;
  estimates = two_requests;
  quotas = quota ∷ [];
  concurrency = concurrency;
  now = seconds 1000;
  retention = 3600;
  fingerprint = record {
    subject = (group, negsuc 99);
    generation = 1;
    deadline = seconds 1300;
    estimates = two_requests;
    quotas = identity_of quota ∷ [];
    concurrency = concurrency;
  };
  state = reserved;
  actual = none;
}

abbrev empty_store : Snapshot
empty_store = record { window = λ k. none; rate = λ k. none; members = λ k. [] }

-- 6 tokens of burst, 2 of them taken, at 60 s a token.
abbrev granted : QuotaUpdate
granted = record { quota = quota; used = 3; held = 2; credits = 240000000; at = seconds 1000 }

abbrev grant : BudgetMutation
grant = record { decision = decide reserved none; updates = granted ∷ []; entry = some reservation }

abbrev held_store : Snapshot
held_store = record {
  window = λ k. some (record { used = some 3; held = some 2 });
  rate = λ k. some (record { credits = some 240000000; at = some (seconds 1000) });
  members = λ k. "job-1" ∷ [];
}

-- Ten seconds later 120000000 credits have come back by time and 60000000 by the unused request.
abbrev settlement : BudgetMutation
settlement = record {
  decision = decide committed none;
  updates =
      record { quota = quota; used = 4; held = 0; credits = 360000000; at = seconds 1010 } ∷ [];
  entry = some (settled reservation one_request);
}

pub built : build_record budget_request (seconds 1000) (3 ∷ []) ≡ ok reservation
unfolding build_record
built = refl

pub reservation_readable : verify_record reservation "job-1" ≡ ok tt
unfolding verify_record Subject-discrete UsageUnit-discrete Scope-discrete ConcurrencyKey-discrete
reservation_readable = refl

reserved_once : calculate_reserve reservation empty_store [] ≡ ok grant
unfolding calculate_reserve
reserved_once = refl

finished_once : calculate_finish reservation one_request (seconds 1010) held_store ≡ ok settlement
unfolding calculate_finish String-discrete
finished_once = refl

policy-IsPolicy : IsPolicy policy
unfolding validate_policy validate_window
policy-IsPolicy = record { checked = refl; windowed = refl }

build_record-IsCurrent_example :
    (reservation.now ≡ seconds 1000) × All (IsCurrent (seconds 1000)) reservation.quotas
build_record-IsCurrent_example =
    build_record-IsCurrent budget_request (seconds 1000) (3 ∷ []) (policy-IsPolicy, tt) built

calculate_reserve-IsReservation_example : IsReservation reservation empty_store grant
calculate_reserve-IsReservation_example =
    calculate_reserve-IsReservation reservation empty_store [] build_record-IsCurrent_example.1
      reserved_once refl

calculate_finish-IsSettlement_example :
    IsCovered reservation.estimates one_request
    × IsSettlement reservation one_request (seconds 1010) held_store settlement
calculate_finish-IsSettlement_example =
    calculate_finish-IsSettlement reservation one_request (seconds 1010) held_store refl
      finished_once

calculate_finish_replay_example :
    calculate_finish (settled reservation one_request) two_requests (seconds 1020) empty_store ≡ (
      if decided (Amounts-discrete one_request two_requests)
      then ok (record {
        decision = decide (settled_state one_request) none;
        updates = [];
        entry = none;
      })
      else err value_error)
calculate_finish_replay_example =
    calculate_finish_replay reservation one_request two_requests (seconds 1020) empty_store refl

-- The sweep frees the two held requests and gives both tokens back, up to the burst.
abbrev expiry : BudgetMutation
expiry = record {
  decision = decide expired none;
  updates =
      record { quota = quota; used = 3; held = 0; credits = 360000000; at = seconds 1010 } ∷ [];
  entry = some (record reservation { actual = none; state = expired });
}

expired_once : calculate_expire reservation (seconds 1010) held_store ≡ ok expiry
unfolding calculate_expire
expired_once = refl

calculate_expire-IsExpiry_example : IsExpiry reservation (seconds 1010) held_store expiry
calculate_expire-IsExpiry_example =
    calculate_expire-IsExpiry reservation (seconds 1010) held_store refl expired_once

abbrev full_reading : Reading
full_reading = record { used = 3; held = 0; credits = 360000000 }

settle_quota-reserve_update_example :
    settle_quota quota 0 (seconds 1010) held_store
    ≡ ok (record {
      quota = quota;
      used = 3;
      held = 0;
      credits = refill quota 360000000 (seconds 1000) (seconds 1010) 0;
      at = seconds 1010;
    })
settle_quota-reserve_update_example =
    settle_quota-reserve_update reservation quota full_reading (seconds 1010) held_store refl refl
      (omega arith) (omega arith) (omega arith)

held_owned : verify_active_ownership reservation held_store ≡ ok tt
unfolding verify_active_ownership String-discrete
held_owned = refl

calculate_finish-returns_example :
    is_ok (calculate_finish reservation one_request (seconds 1010) held_store) ≡ true
calculate_finish-returns_example =
    calculate_finish-returns reservation one_request (seconds 1010) held_store refl refl held_owned
      ((1, 3, refl, refl, omega arith), tt)
