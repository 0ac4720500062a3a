-- ===== src/Budget/Holders.antt =====
-- Proofs about the sets and the index of budgets.py: who holds a place.
use hovorun_v.Prelude.{
  ◌+◌, ◌≤◌, ◌≡◌, refl, Bool, true, false, not, ◌&&◌, ◌||◌, Option, none, some, List, [], ◌∷◌,
  String, String-discrete, str_eq, eq_iff, decided, decided_iff, contains, length, lookup, IsKeyed,
  Each, if◌then◌else◌, ok, arith, Bool-cases, inl, inr,
}
use mathlib.Core.Path.{subst}
use hovorun_v.Domain.{Timestamp}
use hovorun_v.Budget.Record.{ConcurrencyKey}
use hovorun_v.Budget.Verify.{verify_record}
use hovorun_v.Budget.Calculate.{QuotaUpdate}
use hovorun_v.Budget.Settle.{is_reserved}
use hovorun_v.Budget.Store.{
  Entry, unreadable, written, BudgetSpace, empty_budget, write_updates, has_key, add_member,
  remove_member,
}

-- A record stands under its own identity, and its next reading accepts it.
abbrev pub IsRecorded : String → Entry → Type 0
IsRecorded id unreadable = ⊥
IsRecorded id (written r) = (r.id ≡ id) × (verify_record r id ≡ ok tt)

-- Whether a reservation that has not ended holds a place in a concurrency set, and until when.
abbrev pub holds : ConcurrencyKey → Option Entry → Bool
holds k none = false
holds k (some unreadable) = false
holds k (some (written r)) = is_reserved r.state && has_key k r.concurrency

abbrev pub held_until : Option Entry → Option Timestamp
held_until none = none
held_until (some unreadable) = none
held_until (some (written r)) = if is_reserved r.state then some r.deadline else none

-- The concurrency sets and the index of active reservations hold exactly the reservations that have
-- not ended.
pub record IsHeld (sp : BudgetSpace) : Type 0 where
  pub recorded : Each IsRecorded sp.reservations
  pub members :
      (k : ConcurrencyKey) (id : String)
      → contains String-discrete id (sp.members k) ≡ holds k (lookup id sp.reservations)
  pub keyed : IsKeyed sp.active
  pub active : (id : String) → lookup id sp.active ≡ held_until (lookup id sp.reservations)

same_text : (a b : String) → decided (String-discrete a b) ≡ str_eq a b
same_text a b = ground (arith, decided_iff (String-discrete a b), eq_iff a b)

contains_step :
    (a x : String) (xs : List String)
    → contains String-discrete a (x ∷ xs) ≡ (str_eq x a || contains String-discrete a xs)
contains_step a x xs = ground (arith, eq_iff x a)

pub contains-add_member :
    (a b : String) (xs : List String)
    → contains String-discrete a (add_member b xs) ≡ (str_eq b a || contains String-discrete a xs)
unfolding add_member
contains-add_member a b xs = elim (Bool-cases (contains String-discrete b xs)) [
  | inl q ↦ elim (Bool-cases (str_eq b a)) [
    | inl same ↦
        rw (q, same) (subst (λ k. contains String-discrete k xs ≡ true) ((eq_iff b a).0 same) q)
    | inr other ↦ rw (q, other) refl
  ]
  | inr q ↦ rw q (contains_step a b xs)
]

pub contains-remove_member :
    (a b : String) (xs : List String)
    → contains String-discrete a (remove_member b xs)
      ≡ (not (str_eq b a) && contains String-discrete a xs)
unfolding remove_member
contains-remove_member a b [] = ground arith
contains-remove_member a b (x ∷ xs) = elim (Bool-cases (str_eq b x)) [
  | inl q ↦ ground (
    arith,
    contains-remove_member a b xs,
    contains_step a x xs,
    same_text b x,
    eq_iff b x,
    eq_iff b a,
    eq_iff x a,
  )
  | inr q ↦ ground (
    arith,
    contains-remove_member a b xs,
    contains_step a x xs,
    contains_step a x (remove_member b xs),
    same_text b x,
    eq_iff b x,
    eq_iff b a,
    eq_iff x a,
  )
]

pub length-add_member : (b : String) (xs : List String) → length (add_member b xs) ≤ length xs + 1
unfolding add_member
length-add_member b xs = ground arith

pub length-remove_member : (b : String) (xs : List String) → length (remove_member b xs) ≤ length xs
unfolding remove_member
length-remove_member b [] = ground arith
length-remove_member b (x ∷ xs) = ground (arith, length-remove_member b xs)

-- What the updates of quotas leave alone.
pub record SameHolders (sp sp' : BudgetSpace) : Type 0 where
  pub reservations : sp'.reservations ≡ sp.reservations
  pub members : (k : ConcurrencyKey) → sp'.members k ≡ sp.members k
  pub active : sp'.active ≡ sp.active

pub write_updates-SameHolders :
    (us : List QuotaUpdate) (sp : BudgetSpace) → SameHolders sp (write_updates sp us)
unfolding write_updates
write_updates-SameHolders [] sp = record { reservations = refl; members = λ k. refl; active = refl }
write_updates-SameHolders (u ∷ us) sp =
    let rest = write_updates-SameHolders us _ in
    record { reservations = rest.reservations; members = rest.members; active = rest.active }

pub empty_budget-IsHeld : IsHeld empty_budget
unfolding lookup
empty_budget-IsHeld = record {
  recorded = tt;
  members = λ k id. refl;
  keyed = tt;
  active = λ id. refl;
}
