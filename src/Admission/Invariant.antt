-- ===== src/Admission/Invariant.antt =====
-- Proofs about the stored tickets of admission_state.py, transition by transition.
use hovorun_v.Prelude.{
  ◌<◌, ◌≡◌, refl, true, ◌≢◌, Option, none, some, Result, ok, err, arith, Option-cases, inl, inr,
}
use hovorun_v.Usage.Policies.{UsageUnit-discrete}
use hovorun_v.Usage.Budgets.{is_technical_id, validate_amount}
use hovorun_v.Jobs.Envelope.{JobOutcome, outcome_expired, cancelled}
use hovorun_v.Jobs.Settlement.{SettlementIntent, validate_intent}
use hovorun_v.Admission.Record.{
  AdmissionRecord, is_queued, NoticeKind, delayed_notice, terminal_notice, failure_notice,
  validate_receipt_binding, validate_intents,
}
use hovorun_v.Admission.Valid.{IsValid, validate_record_iff}
use hovorun_v.Admission.Transition.{
  AdmissionTransition, AdmissionChange, AdmissionOperation, claim_op, handoff_op, finish_op,
  register_op, cancel_op, reserved_op, defer_op, delivery_op, prepare_op, notice_op, republish_op,
  enqueued_op, published_op, calculate_change, stored_instant, dispatch, unused_reservation,
  queued_terminal, claim, handoff_stage, finish, register, cancel, claim_notice, republish,
  mark_enqueued, mark_published, mark_reserved, defer, begin_delivery, prepare, prepared,
  record_settlement,
}

-- The stored text would be accepted on the next read, a reservation belongs to an attempt, and it
-- is not dropped: a finished ticket that had one has its settlement.
pub record IsStored (r : AdmissionRecord) : Type 0 where
  pub valid : IsValid r
  pub attempted : r.budget_reserved ≡ true → 0 < r.attempt
  pub accounted : r.budget_reserved ≡ true → r.outcome ≢ none → r.settlement ≢ none

-- What the callers have checked: `validate_claim` for a claim, `_validate_publication` for a
-- registration.
pub record IsChecked (r : AdmissionRecord) (q : AdmissionTransition) : Type 0 where
  pub owner : q.operation ≡ claim_op → is_technical_id q.token ≡ true
  pub schedule : q.operation ≡ register_op → stored_instant q.not_before < r.envelope.deadline

abbrev pub KeepsStored : AdmissionChange → Type 0
KeepsStored c = elim c.next [ none ↦ Unit {0} | some r ↦ IsStored r ]

-- A postcondition of a call that returns.
abbrev pub Ensures : (AdmissionChange → Type 0) → Result AdmissionChange → Type 0
Ensures P (ok c) = P c
Ensures P (err _) = Unit

recovery_technical : is_technical_id "recovery" ≡ true
unfolding is_technical_id
recovery_technical = refl

-- The settlement of an unused reservation passes its own validators.
unused_intact : (o : JobOutcome) → validate_intents (some (unused_reservation o)) ≡ ok tt
unfolding validate_intents validate_intent validate_amount UsageUnit-discrete
unused_intact o = refl

module _ (r : AdmissionRecord) (v : IsStored r) where
  queued_terminal-IsStored :
      (o : JobOutcome) → is_queued r.state ≡ true → KeepsStored (queued_terminal r o)
  unfolding queued_terminal validate_receipt_binding
  queued_terminal-IsStored o s = ground (arith, recovery_technical, unused_intact o)

module _ (r : AdmissionRecord) (q : AdmissionTransition) (v : IsStored r) where
  claim-IsStored : is_technical_id q.token ≡ true → KeepsStored (claim r q)
  unfolding claim validate_receipt_binding
  claim-IsStored h = ground (arith, recovery_technical, unused_intact outcome_expired)

  handoff_stage-IsStored : Ensures KeepsStored (handoff_stage r q)
  unfolding handoff_stage
  handoff_stage-IsStored = ground arith

  finish-IsStored : Ensures KeepsStored (finish r q)
  unfolding finish
  finish-IsStored = ground arith

  register-IsStored :
      stored_instant q.not_before < r.envelope.deadline → Ensures KeepsStored (register r q)
  unfolding register
  register-IsStored h = ground arith

  cancel-IsStored : KeepsStored (cancel r)
  unfolding cancel validate_receipt_binding
  cancel-IsStored = ground (arith, recovery_technical, unused_intact cancelled)

  mark_reserved-IsStored : KeepsStored (mark_reserved r q)
  unfolding mark_reserved
  mark_reserved-IsStored = ground arith

  defer-IsStored : Ensures KeepsStored (defer r q)
  unfolding defer
  defer-IsStored = ground arith

  begin_delivery-IsStored : KeepsStored (begin_delivery r q)
  unfolding begin_delivery
  begin_delivery-IsStored = ground arith

  record_settlement-IsStored : (i : SettlementIntent) → Ensures KeepsStored (record_settlement r i)
  unfolding record_settlement
  record_settlement-IsStored i = ground (arith, (validate_record_iff (prepared r i)).0)

  prepare-IsStored : Ensures KeepsStored (prepare r q)
  unfolding prepare
  prepare-IsStored = elim (Option-cases q.settlement) [
    | inl missing ↦ ground arith
    | inr (i, e) ↦ ground (arith, record_settlement-IsStored i)
  ]

  claim_notice-IsStored : (k : Option NoticeKind) → Ensures KeepsStored (claim_notice r k)
  unfolding claim_notice
  claim_notice-IsStored none = tt
  claim_notice-IsStored (some delayed_notice) = ground arith
  claim_notice-IsStored (some terminal_notice) = ground arith
  claim_notice-IsStored (some failure_notice) = ground arith

  republish-IsStored : KeepsStored (republish r q)
  unfolding republish
  republish-IsStored = ground arith

  mark_enqueued-IsStored : KeepsStored (mark_enqueued r q)
  unfolding mark_enqueued
  mark_enqueued-IsStored = ground arith

  mark_published-IsStored : KeepsStored (mark_published r q)
  unfolding mark_published
  mark_published-IsStored = ground arith

dispatch-IsStored :
    (op : AdmissionOperation) (r : AdmissionRecord) (q : AdmissionTransition)
    → IsStored r
    → (op ≡ claim_op → is_technical_id q.token ≡ true)
    → (op ≡ register_op → stored_instant q.not_before < r.envelope.deadline)
    → Ensures KeepsStored (dispatch op r q)
unfolding dispatch
dispatch-IsStored claim_op r q v h k = claim-IsStored r q v (h refl)
dispatch-IsStored handoff_op r q v h k = handoff_stage-IsStored r q v
dispatch-IsStored finish_op r q v h k = finish-IsStored r q v
dispatch-IsStored register_op r q v h k = register-IsStored r q v (k refl)
dispatch-IsStored cancel_op r q v h k = cancel-IsStored r q v
dispatch-IsStored reserved_op r q v h k = mark_reserved-IsStored r q v
dispatch-IsStored defer_op r q v h k = defer-IsStored r q v
dispatch-IsStored delivery_op r q v h k = begin_delivery-IsStored r q v
dispatch-IsStored prepare_op r q v h k = prepare-IsStored r q v
dispatch-IsStored notice_op r q v h k = claim_notice-IsStored r q v q.notice
dispatch-IsStored republish_op r q v h k = republish-IsStored r q v
dispatch-IsStored enqueued_op r q v h k = mark_enqueued-IsStored r q v
dispatch-IsStored published_op r q v h k = mark_published-IsStored r q v

-- From a stored ticket and a request that the caller has checked, every transition that returns a
-- ticket returns one that the validators accept, whose reservation belongs to an attempt, and which,
-- once it has an outcome, keeps the settlement of its reservation.
pub calculate_change-IsStored :
    (r : AdmissionRecord) (q : AdmissionTransition)
    → IsStored r
    → IsChecked r q
    → Ensures KeepsStored (calculate_change r q)
unfolding calculate_change
calculate_change-IsStored r q v c = dispatch-IsStored q.operation r q v c.owner c.schedule
