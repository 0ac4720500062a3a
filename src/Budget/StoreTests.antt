-- ===== src/Budget/StoreTests.antt =====
-- budgets.py at a request of a group: a reservation that is repeated, settled and settled again.
use hovorun_v.Prelude.{arith, ◌≡◌, refl, List, [], ◌∷◌, lookup, put, remove, ok, String-discrete}
use hovorun_v.Domain.{seconds, at}
use hovorun_v.Usage.Policies.{requests, validate_policy, validate_window, UsageUnit-discrete}
use hovorun_v.Usage.Budgets.{is_technical_id, validate_amount, validate_request}
use hovorun_v.Budget.Record.{
  global_key, build_record, validate_reserve_args, validate_finish_args, Subject-discrete,
  Scope-discrete, ConcurrencyKey-discrete, QuotaKey-discrete, Amounts-discrete,
}
use hovorun_v.Budget.Verify.{verify_record}
use hovorun_v.Budget.Calculate.{calculate_reserve}
use hovorun_v.Budget.Settle.{calculate_finish}
use hovorun_v.Budget.Store.{BudgetSpace, empty_budget, Fingerprint-discrete}
use hovorun_v.Budget.Histories.{IsKept}
use hovorun_v.Budget.Bounds.{
  BudgetEvent, reserve_event, finish_event, expire_event, run_budget, IsRequest, run_budget-IsKept,
}
use hovorun_v.Budget.Tests.{budget_request, built, reservation}
use hovorun_v.Budget.Readable.Requests.{build_record-verified}

abbrev reserve_sample : BudgetEvent
reserve_sample = reserve_event budget_request (at (seconds 1000)) (3 ∷ [])

abbrev finish_sample : BudgetEvent
finish_sample =
    finish_event "job-1" (record { unit = requests; amount = 1 } ∷ []) (at (seconds 1010))

abbrev sample_events : List BudgetEvent
sample_events =
    reserve_sample
    ∷ reserve_sample
    ∷ finish_sample
    ∷ expire_event ("job-1" ∷ []) (seconds 5000)
    ∷ finish_sample
    ∷ []

sample-IsRequest : IsRequest 2 budget_request
unfolding validate_amount validate_request validate_policy validate_window is_technical_id
    UsageUnit-discrete
sample-IsRequest = record {
  limit = ground arith;
  checked = record {
    policies = (record { checked = refl; windowed = refl }, tt);
    amounts = (refl, tt);
    request = refl;
  };
}

run_budget-IsKept_example : IsKept 2 (run_budget empty_budget sample_events)
run_budget-IsKept_example =
    run_budget-IsKept 2 sample_events (sample-IsRequest, (sample-IsRequest, tt))

abbrev reserved_space : BudgetSpace
reserved_space = run_budget empty_budget (reserve_sample ∷ reserve_sample ∷ [])

abbrev settled_space : BudgetSpace
settled_space = run_budget empty_budget sample_events

reserved_place : reserved_space.members global_key ≡ "job-1" ∷ []
unfolding run_budget validate_reserve_args build_record verify_record calculate_reserve
    Subject-discrete UsageUnit-discrete Scope-discrete ConcurrencyKey-discrete QuotaKey-discrete
    String-discrete lookup put Fingerprint-discrete
reserved_place = refl

settled_place : (settled_space.members global_key ≡ []) × (settled_space.active ≡ [])
unfolding run_budget validate_reserve_args build_record verify_record calculate_reserve
    Subject-discrete UsageUnit-discrete Scope-discrete ConcurrencyKey-discrete QuotaKey-discrete
    String-discrete lookup put Fingerprint-discrete validate_finish_args is_technical_id
    calculate_finish Amounts-discrete remove
settled_place = (refl, refl)

arguments_accepted : validate_reserve_args budget_request (at (seconds 1000)) (3 ∷ []) ≡ ok tt
unfolding validate_reserve_args
arguments_accepted = refl

build_record-verified_example : verify_record reservation reservation.id ≡ ok tt
build_record-verified_example =
    build_record-verified budget_request (at (seconds 1000)) (3 ∷ []) sample-IsRequest.checked
      arguments_accepted built
