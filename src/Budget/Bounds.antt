-- ===== src/Budget/Bounds.antt =====
-- Proofs that no history of budgets.py exceeds the global concurrency.
use hovorun_v.Prelude.{
  ℕ, ◌≤◌, List, [], ◌∷◌, String, Result, ok, err, arith, Result-cases, inl, inr,
}
use hovorun_v.Domain.{Timestamp, Instant}
use hovorun_v.Usage.Budgets.{BudgetRequest, UnitAmount}
use hovorun_v.Budget.Readable.Estimates.{IsChecked}
use hovorun_v.Budget.Store.{BudgetSpace, empty_budget, reserve, finish, expire_each}
use hovorun_v.Budget.Holders.{empty_budget-IsHeld}
use hovorun_v.Budget.Histories.{IsKept, finish-IsKept, expire_each-IsKept}
use hovorun_v.Budget.Requests.{reserve-IsKept}

-- What a client asks of the store.
pub data BudgetEvent : Type 0 where
  reserve_event : BudgetRequest → Instant → List ℕ → BudgetEvent
  finish_event : String → List UnitAmount → Instant → BudgetEvent
  expire_event : List String → Timestamp → BudgetEvent

abbrev pub store_or {ℓ} : {A : Type ℓ} → BudgetSpace → Result (A × BudgetSpace) → BudgetSpace
store_or sp (ok done) = done.1
store_or sp (err e) = sp

-- The store after an event; a transaction that raises has written nothing.
unfoldable pub run_budget_event : BudgetSpace → BudgetEvent → BudgetSpace
unfolding reserve finish expire_each
run_budget_event sp (reserve_event q now totals) = store_or sp (reserve sp q now totals)
run_budget_event sp (finish_event id actual now) = store_or sp (finish sp id actual now)
run_budget_event sp (expire_event ids now) = (expire_each sp ids now).1

unfoldable pub run_budget : BudgetSpace → List BudgetEvent → BudgetSpace
unfolding run_budget_event
run_budget sp [] = sp
run_budget sp (x ∷ xs) = run_budget (run_budget_event sp x) xs

-- A request that its dataclasses accept, within a global concurrency.
pub record IsRequest (n : ℕ) (q : BudgetRequest) : Type 0 where
  pub limit : q.usage.safety.global_concurrency ≤ n
  pub checked : IsChecked q

abbrev pub AreRequests : ℕ → List BudgetEvent → Type 0
AreRequests n [] = Unit {0}
AreRequests n (reserve_event q now totals ∷ xs) = IsRequest n q × AreRequests n xs
AreRequests n (finish_event id actual now ∷ xs) = AreRequests n xs
AreRequests n (expire_event ids now ∷ xs) = AreRequests n xs

module _ (n : ℕ) (sp : BudgetSpace) (k : IsKept n sp) where
  pub reservation-IsKept :
      (q : BudgetRequest) (now : Instant) (totals : List ℕ)
      → IsRequest n q
      → IsKept n (store_or sp (reserve sp q now totals))
  reservation-IsKept q now totals v = elim (Result-cases (reserve sp q now totals)) [
    | inl ((d, sp'), h) ↦ rw h (reserve-IsKept n sp q now totals k v.limit v.checked h)
    | inr (x, h) ↦ rw h k
  ]

  pub settlement-IsKept :
      (id : String) (actual : List UnitAmount) (now : Instant)
      → IsKept n (store_or sp (finish sp id actual now))
  settlement-IsKept id actual now = elim (Result-cases (finish sp id actual now)) [
    | inl ((d, sp'), h) ↦ rw h (finish-IsKept n sp id actual now k h)
    | inr (x, h) ↦ rw h k
  ]

pub run_budget_from :
    (n : ℕ) (xs : List BudgetEvent) (sp : BudgetSpace)
    → AreRequests n xs
    → IsKept n sp
    → IsKept n (run_budget sp xs)
unfolding run_budget run_budget_event
run_budget_from n [] sp v k = k
run_budget_from n (reserve_event q now totals ∷ xs) sp v k =
    run_budget_from n xs (store_or sp (reserve sp q now totals)) v.1
      (reservation-IsKept n sp k q now totals v.0)
run_budget_from n (finish_event id actual now ∷ xs) sp v k =
    run_budget_from n xs (store_or sp (finish sp id actual now)) v
      (settlement-IsKept n sp k id actual now)
run_budget_from n (expire_event ids now ∷ xs) sp v k =
    run_budget_from n xs (expire_each sp ids now).1 v (expire_each-IsKept n ids sp now k)

-- From an empty store, whatever reservations, settlements and expiries are made in whatever order, if
-- each request is one that its dataclasses accept and asks for a global concurrency of at most `n`:
-- every concurrency set and the index of active reservations hold exactly the stored
-- reservations that have not ended, and the global set never holds more than `n`.
pub run_budget-IsKept :
    (n : ℕ) (xs : List BudgetEvent) → AreRequests n xs → IsKept n (run_budget empty_budget xs)
run_budget-IsKept n xs v =
    run_budget_from n xs empty_budget v
      (record { held = empty_budget-IsHeld; global = ground arith })
