-- ===== src/Budget/Histories.antt =====
-- Proofs about every history of reservations, settlements and expiries of budgets.py.
use hovorun_v.Prelude.{
  ℕ, ◌+◌, ◌≤◌, ◌<◌, ◌≡◌, refl, sym, ◌∙◌, ap, Bool, true, false, not, none, some, List, [], ◌∷◌, All,
  String, decided, decided_iff, length, lookup, remove, remove_absent, lookup-Each, if◌then◌else◌,
  ok, arith, Bool-cases, Option-cases, Result-cases, inl, inr, >>=-eq-ok, ok-injective, ltb,
}
use mathlib.Core.Path.{subst}
use hovorun_v.Domain.{Timestamp, Instant, seconds}
use hovorun_v.Usage.Budgets.{UnitAmount, ReservationDecision, stale_grace_seconds}
use hovorun_v.Budget.Record.{
  BudgetRecord, global_key, ConcurrencyKey-discrete, ConcurrencySpec, validate_finish_args,
}
use hovorun_v.Budget.Verify.{verify_record}
use hovorun_v.Budget.Calculate.{QuotaUpdate}
use hovorun_v.Budget.Settle.{is_reserved}
use hovorun_v.Budget.Store.{
  unreadable, written, BudgetSpace, has_key, write_reservation, write_settlement, parse_record,
  moment, finish_attempt, finish, expire_reserved, expire_record, expire_attempt, expire_each,
}
use hovorun_v.Budget.Holders.{
  IsRecorded, IsHeld, length-add_member, length-remove_member, write_updates-SameHolders,
  held_until,
}
use hovorun_v.Budget.Holding.{write_reservation-IsHeld, write_settlement-IsHeld}
use hovorun_v.Budget.Steps.{
  IsNew, IsStep, idle, granted, ended, or_unavailable-eq-ok, idle_at, finish_attempt-IsStep,
  expire_reserved-IsStep,
}

-- The sets and the index are those of the reservations, and at most `n` hold a place in the global set.
pub record IsKept (n : ℕ) (sp : BudgetSpace) : Type 0 where
  pub held : IsHeld sp
  pub global : length (sp.members global_key) ≤ n

-- The global set of a reservation that was free for it.
global_free :
    (n : ℕ) (sp : BudgetSpace) (cs : List ConcurrencySpec)
    → All (λ c. c.key ≡ global_key → c.limit ≤ n) cs
    → All (λ c. length (sp.members c.key) < c.limit) cs
    → has_key global_key cs ≡ true
    → length (sp.members global_key) < n
unfolding has_key
global_free n sp [] l f h = cc
global_free n sp (c ∷ cs) l f h =
    elim (Bool-cases (decided (ConcurrencyKey-discrete c.key global_key))) [
      | inl q ↦
          let e : c.key ≡ global_key =
            (decided_iff (ConcurrencyKey-discrete c.key global_key)).0 q in
          let here : length (sp.members global_key) < c.limit =
            subst (λ k. length (sp.members k) < c.limit) e f.0 in
          omega (arith, l.0 e, here)
      | inr q ↦ global_free n sp cs l.1 f.1 (rw (q, has_key) at h)
    ]

last_case {ℓ} :
    {A : Type ℓ} (b c : Bool) (x y z : A)
    → b ≡ false
    → c ≡ true
    → (if b then x else if not c then y else z) ≡ z
last_case b c x y z h k = rw (h, k) refl

expire_record_due :
    (sp : BudgetSpace) (r : BudgetRecord) (now : Timestamp)
    → ltb now (r.deadline + seconds stale_grace_seconds) ≡ false
    → is_reserved r.state ≡ true
    → expire_record sp r now ≡ expire_reserved sp r now
unfolding expire_record
expire_record_due sp r now stale live = last_case _ _ _ _ _ stale live

module _ (n : ℕ) where
  granted_global :
      (sp : BudgetSpace) (r : BudgetRecord) (us : List QuotaUpdate)
      → IsKept n sp
      → IsNew n r
      → All (λ c. length (sp.members c.key) < c.limit) r.concurrency
      → length ((write_reservation sp r us).members global_key) ≤ n
  unfolding write_reservation
  granted_global sp r us k new free =
      let same = (write_updates-SameHolders us sp).members global_key in
      elim (Bool-cases (has_key global_key r.concurrency)) [
        | inl q ↦
            rw (q, same)
              (omega (
                arith,
                length-add_member r.id (sp.members global_key),
                global_free n sp r.concurrency new.global free q,
              ))
        | inr q ↦ rw (q, same) k.global
      ]

  ended_global :
      (sp : BudgetSpace) (r r' : BudgetRecord) (us : List QuotaUpdate)
      → IsKept n sp
      → length ((write_settlement sp r r' us).members global_key) ≤ n
  unfolding write_settlement
  ended_global sp r r' us k =
      let same = (write_updates-SameHolders us sp).members global_key in
      elim (Bool-cases (has_key global_key r.concurrency)) [
        | inl q ↦
            rw (q, same)
              (omega (arith, length-remove_member r.id (sp.members global_key), k.global))
        | inr q ↦ rw (q, same) k.global
      ]

  pub step-IsKept : {sp sp' : BudgetSpace} → IsKept n sp → IsStep n sp sp' → IsKept n sp'
  step-IsKept k idle = k
  step-IsKept {sp} k (granted r us absent new free) = record {
    held = write_reservation-IsHeld sp r us k.held absent new.live new.valid;
    global = granted_global sp r us k new free;
  }
  step-IsKept {sp} k (ended r r' us found over same valid) = record {
    held = write_settlement-IsHeld sp r us k.held r' found over same valid;
    global = ended_global sp r r' us k;
  }

  index_same :
      (sp : BudgetSpace) (id : String)
      → IsHeld sp
      → held_until (lookup id sp.reservations) ≡ none
      → record sp { active = remove id sp.active } ≡ sp
  index_same sp id h none_held =
      ap (λ z. record sp { active = z }) (remove_absent id sp.active (h.active id ∙ none_held))

  expire_record-IsStep :
      (sp : BudgetSpace) (r : BudgetRecord) (now : Timestamp) {b : Bool} {sp' : BudgetSpace}
      → IsHeld sp
      → lookup r.id sp.reservations ≡ some (written r)
      → verify_record r r.id ≡ ok tt
      → expire_record sp r now ≡ ok (b, sp')
      → IsStep n sp sp'
  unfolding expire_record
  expire_record-IsStep sp r now h found valid e =
      elim (Bool-cases (ltb now (r.deadline + seconds stale_grace_seconds))) [
        | inl early ↦
            idle_at n (sym (ap (λ x. x.1) (ok-injective (rw (early, expire_record) at e))))
        | inr stale ↦ elim (Bool-cases (is_reserved r.state)) [
          | inl live ↦
              expire_reserved-IsStep n sp r now live found valid
                (sym (expire_record_due sp r now stale live) ∙ e)
          | inr over ↦ idle_at n (
              sym (ap (λ x. x.1) (ok-injective (rw (stale, over, expire_record) at e)))
              ∙ index_same sp r.id h (rw (found, over) refl))
        ]
      ]

  expire_attempt-IsStep :
      (sp : BudgetSpace) (id : String) (now : Timestamp) {b : Bool} {sp' : BudgetSpace}
      → IsHeld sp
      → expire_attempt sp id now ≡ ok (b, sp')
      → IsStep n sp sp'
  unfolding expire_attempt parse_record
  expire_attempt-IsStep sp id now h e = elim (Option-cases (lookup id sp.reservations)) [
    | inl absent ↦ idle_at n (
        sym (ap (λ x. x.1) (ok-injective (rw (absent, expire_attempt) at e)))
        ∙ index_same sp id h (rw absent refl))
    | inr (unreadable, found) ↦ absurd (lookup-Each IsRecorded id sp.reservations h.recorded found)
    | inr (written r, found) ↦
        let b : IsRecorded id (written r) =
          lookup-Each IsRecorded id sp.reservations h.recorded found in
        expire_record-IsStep sp r now h
          (subst (λ k. lookup k sp.reservations ≡ some (written r)) (sym b.0) found)
          (subst (λ k. verify_record r k ≡ ok tt) (sym b.0) b.1)
          (rw (found, b.1, expire_attempt, parse_record) at e)
  ]

  pub expire_each-IsKept :
      (ids : List String) (sp : BudgetSpace) (now : Timestamp)
      → IsKept n sp
      → IsKept n (expire_each sp ids now).1
  unfolding expire_each
  expire_each-IsKept [] sp now k = k
  expire_each-IsKept (id ∷ ids) sp now k = elim (Result-cases (expire_attempt sp id now)) [
    | inl (done, e) ↦
        rw (e, expire_each)
          (expire_each-IsKept ids done.1 now
            (step-IsKept k (expire_attempt-IsStep sp id now k.held e)))
    | inr (x, e) ↦ rw (e, expire_each) (expire_each-IsKept ids sp now k)
  ]

  pub finish-IsKept :
      (sp : BudgetSpace) (id : String) (actual : List UnitAmount) (now : Instant)
      {d : ReservationDecision} {sp' : BudgetSpace}
      → IsKept n sp
      → finish sp id actual now ≡ ok (d, sp')
      → IsKept n sp'
  unfolding finish
  finish-IsKept sp id actual now k h =
      let (amounts, _, rest) = >>=-eq-ok (validate_finish_args id actual now) _ h in
      elim (or_unavailable-eq-ok sp (finish_attempt sp id amounts (moment now)) rest) [
        | inl done ↦ step-IsKept k (finish_attempt-IsStep n sp id amounts (moment now) k.held done)
        | inr same ↦ subst (IsKept n) (sym same) k
      ]
