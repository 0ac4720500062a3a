-- ===== src/Budget/Readable/Estimates.antt =====
-- Proofs about the estimates of a checked request of budgets.py and the policies that they cover.
use hovorun_v.Prelude.{
  ◌<◌, ◌≤◌, ◌≡◌, ◌≢◌, refl, true, false, not, List, [], ◌∷◌, All, map, any, all, ◌==◌, distinct, ok,
  arith, >>-then, >>-eq-ok, raise_if, value_error, raise_if-eq-ok,
}
use hovorun_v.Usage.Policies.{
  UsageUnit, UsageUnit-discrete, UsagePolicy, requests, resource, tokens,
}
use hovorun_v.Usage.Budgets.{
  UnitAmount, BudgetRequest, validate_amount, validate_request, validate_estimates, covers_policies,
  max_exact_integer, is_technical_id, is_valid_deadline,
}
use hovorun_v.Budget.Record.{Amounts, amount_at, no_amounts, set_amount, amounts_of}
use hovorun_v.Budget.Windows.{IsPolicy}
use hovorun_v.Budget.Verify.{units, is_none_amount, is_exact_estimate}

abbrev pub IsExact : Amounts → Type 0
IsExact a = all (λ u. is_exact_estimate (amount_at a u)) units ≡ true

-- An estimate that the request may have.
abbrev IsAmount : UnitAmount → Type 0
IsAmount a = (0 < a.amount) × (a.amount ≤ max_exact_integer)

set_amount-IsExact :
    (u : UsageUnit) (acc : Amounts) (a : UnitAmount)
    → a.unit ≡ u
    → IsAmount a
    → IsExact acc
    → IsExact (set_amount acc a) × (is_none_amount (set_amount acc a) ≡ false)
set_amount-IsExact requests acc a e v h = ground arith
set_amount-IsExact resource acc a e v h = ground arith
set_amount-IsExact tokens acc a e v h = ground arith

amounts_of-IsExact :
    (acc : Amounts) (es : List UnitAmount)
    → All IsAmount es
    → IsExact acc
    → is_none_amount acc ≡ false
    → IsExact (amounts_of acc es) × (is_none_amount (amounts_of acc es) ≡ false)
unfolding amounts_of
amounts_of-IsExact acc [] v h n = (h, n)
amounts_of-IsExact acc (a ∷ es) v h n =
    let (x, y) = set_amount-IsExact a.unit acc a refl v.0 h in
    amounts_of-IsExact (set_amount acc a) es v.1 x y

-- A request as its dataclasses accept it.
pub record IsChecked (q : BudgetRequest) : Type 0 where
  pub policies : All IsPolicy q.usage.policies
  pub amounts : All (λ a. validate_amount a ≡ ok tt) q.estimates
  pub request : validate_request q ≡ ok tt

positive_amounts :
    (es : List UnitAmount)
    → All (λ a. validate_amount a ≡ ok tt) es
    → any (λ a. a.amount == 0) es ≡ false
    → All IsAmount es
unfolding validate_amount
positive_amounts [] v h = tt
positive_amounts (a ∷ es) v h = (ground (arith, v.0), positive_amounts es v.1 (ground arith))

pub estimates-IsExact :
    (es : List UnitAmount)
    → All (λ a. validate_amount a ≡ ok tt) es
    → validate_estimates es ≡ ok tt
    → IsExact (amounts_of no_amounts es) × (is_none_amount (amounts_of no_amounts es) ≡ false)
unfolding validate_estimates amounts_of
estimates-IsExact [] v h = cc
estimates-IsExact (a ∷ es) v h =
    let (_, positive) =
      >>-eq-ok
        (raise_if (not (distinct UsageUnit-discrete (map (λ a. a.unit) (a ∷ es)))) value_error) _
        h in
    let each = positive_amounts (a ∷ es) v (raise_if-eq-ok _ value_error positive) in
    let (x, y) = set_amount-IsExact a.unit no_amounts a refl each.0 refl in
    amounts_of-IsExact (set_amount no_amounts a) es each.1 x y

-- A request has an estimate, and a policy for it.
pub some_policy :
    (es : List UnitAmount) (ps : List UsagePolicy)
    → validate_estimates es ≡ ok tt
    → covers_policies es ps ≡ true
    → ps ≢ []
unfolding validate_estimates covers_policies
some_policy [] ps h c e = cc
some_policy (a ∷ es) [] h c e = ground arith
some_policy (a ∷ es) (p ∷ ps) h c e = cc

pub request_parts :
    (q : BudgetRequest)
    → validate_request q ≡ ok tt
    → (validate_estimates q.estimates ≡ ok tt)
      × (covers_policies q.estimates q.usage.policies ≡ true)
unfolding validate_request
request_parts q h =
    let (_, rest) = >>-then (raise_if (not (is_technical_id q.reservation_id)) value_error) h in
    let (estimated, rest1) = >>-then (validate_estimates q.estimates) rest in
    let (_, covered) = >>-then (raise_if (not (is_valid_deadline q.deadline)) value_error) rest1 in
    (estimated, ground (arith, raise_if-eq-ok _ value_error covered))
