-- ===== src/Admission/Valid.antt =====
-- A description of the tickets of admission_state.py without its validators, and proofs about it.
use hovorun_v.Prelude.{
  ℤ-discrete, eq_iff, decided_iff, ◌/◌, Option-cases, inl, inr, ◌<◌, ◌≤◌, ◌≡◌, ◌↔◌, true, false,
  ◌||◌, Option, none, some, ok, arith, is_some, >>-eq-ok, ok->>,
}
use hovorun_v.Usage.Budgets.{is_technical_id}
use hovorun_v.Domain.{TargetKind-discrete, second}
use hovorun_v.Usage.Ledger.{UsageEvent}
use hovorun_v.Jobs.Envelope.{JobEnvelope, validate_envelope}
use hovorun_v.Jobs.Settlement.{SettlementIntent}
use hovorun_v.Admission.Record.{
  AdmissionRecord, is_owned, is_queued, is_terminal, is_settling, has_token, has_amounts,
  validate_record, validate_record_fields, validate_intents, validate_schedule,
  validate_execution_owner, validate_terminal_outcome, validate_settlement,
  validate_receipt_binding,
}

-- The receipt is one of this job: by its id, charged to its subject, and of a second between the one in
-- which the job was accepted and the one of its deadline.
pub record IsReceipt (job : JobEnvelope) (event : UsageEvent) : Type 0 where
  pub job_id : event.event_id ≡ job.job_id
  pub kind : event.subject.kind ≡ job.charged_kind
  pub charged : event.subject.telegram_id ≡ job.charged_telegram_id
  pub after : job.accepted_at / second ≤ event.occurred_at
  pub before : event.occurred_at ≤ job.deadline / second

abbrev pub IsBoundTo : JobEnvelope → Option UsageEvent → Type 0
IsBoundTo job none = Unit {0}
IsBoundTo job (some event) = IsReceipt job event

receipt_iff :
    (i : SettlementIntent) (job : JobEnvelope)
    → (validate_receipt_binding i job ≡ ok tt) ↔ IsBoundTo job i.event
unfolding validate_receipt_binding
receipt_iff i job = elim (Option-cases i.event) [
  | inl missing ↦ ground (arith, missing)
  | inr (event, found) ↦ ground (
    arith,
    found,
    eq_iff event.event_id job.job_id,
    decided_iff (TargetKind-discrete event.subject.kind job.charged_kind),
    decided_iff (ℤ-discrete event.subject.telegram_id job.charged_telegram_id),
  )
]

-- Who may settle what: a settlement only stops an execution, and covers what was reserved.
abbrev pub IsSettled : AdmissionRecord → Option SettlementIntent → Type 0
IsSettled r none = is_settling r.state ≡ false
IsSettled r (some i) =
    ((is_settling r.state || is_terminal r.state) ≡ true)
    × (r.budget_reserved ≡ has_amounts i.actual)
    × IsBoundTo r.envelope i.event

pub record IsValid (r : AdmissionRecord) : Type 0 where
  pub sized : 0 < r.byte_size
  pub published_flag : r.published ≤ 1
  pub registered_flag : r.publication_registered ≤ 1
  pub intact : validate_intents r.settlement ≡ ok tt
  pub bound : validate_envelope r.envelope ≡ ok tt
  pub scheduled : r.not_before < r.envelope.deadline
  pub owned : is_owned r.state ≡ true → (is_technical_id r.token ≡ true) × (0 < r.attempt)
  pub queued : is_queued r.state ≡ true → has_token r.token ≡ false
  pub finished : is_terminal r.state ≡ is_some r.outcome
  pub settled : IsSettled r r.settlement

module _ (r : AdmissionRecord) where
  fields_iff :
      (validate_record_fields r ≡ ok tt)
      ↔ ((0 < r.byte_size) × (r.published ≤ 1) × (r.publication_registered ≤ 1))
  unfolding validate_record_fields
  fields_iff = ground arith

  schedule_iff : (validate_schedule r ≡ ok tt) ↔ (r.not_before < r.envelope.deadline)
  unfolding validate_schedule
  schedule_iff = ground arith

  owner_iff : (validate_execution_owner r ≡ ok tt) ↔ (
      (is_owned r.state ≡ true → (is_technical_id r.token ≡ true) × (0 < r.attempt))
      × (is_queued r.state ≡ true → has_token r.token ≡ false))
  unfolding validate_execution_owner
  owner_iff = ground arith

  outcome_iff : (validate_terminal_outcome r ≡ ok tt) ↔ (is_terminal r.state ≡ is_some r.outcome)
  unfolding validate_terminal_outcome
  outcome_iff = ground arith

  settlement_iff : (validate_settlement r ≡ ok tt) ↔ IsSettled r r.settlement
  unfolding validate_settlement
  settlement_iff = elim (Option-cases r.settlement) [
    | inl missing ↦ ground (arith, missing)
    | inr (i, found) ↦ ground (arith, found, receipt_iff i r.envelope)
  ]

-- The validators accept a ticket exactly if it has bytes, flags of 0 or 1, a valid envelope, a start
-- before its deadline, an owner and an attempt where it is owned and no owner where it is queued, an
-- outcome exactly where it has ended, and a settlement only where it settles or has ended, one that
-- is intact, covers a reservation exactly if there is one, and is bound to the job; a ticket that
-- settles has one.
pub validate_record_iff : (r : AdmissionRecord) → (validate_record r ≡ ok tt) ↔ IsValid r
unfolding validate_record
validate_record_iff r = (there, back)
  where
    there : validate_record r ≡ ok tt → IsValid r
    there h =
        let (fields, rest) = >>-eq-ok (validate_record_fields r) _ h in
        let (intact, rest1) = >>-eq-ok (validate_intents r.settlement) _ rest in
        let (bound, lifecycle) = >>-eq-ok (validate_envelope r.envelope) _ rest1 in
        let (scheduled, rest2) = >>-eq-ok (validate_schedule r) _ lifecycle in
        let (owner, rest3) = >>-eq-ok (validate_execution_owner r) _ rest2 in
        let (outcome, settlement) = >>-eq-ok (validate_terminal_outcome r) _ rest3 in
        record {
          sized = ((fields_iff r).0 fields).0;
          published_flag = ((fields_iff r).0 fields).1;
          registered_flag = ((fields_iff r).0 fields).2;
          intact = intact;
          bound = bound;
          scheduled = (schedule_iff r).0 scheduled;
          owned = ((owner_iff r).0 owner).0;
          queued = ((owner_iff r).0 owner).1;
          finished = (outcome_iff r).0 outcome;
          settled = (settlement_iff r).0 settlement;
        }

    back : IsValid r → validate_record r ≡ ok tt
    back v =
        ok->> (validate_record_fields r) _
          ((fields_iff r).1 (v.sized, v.published_flag, v.registered_flag))
          (ok->> (validate_intents r.settlement) _ v.intact (
            ok->> (validate_envelope r.envelope) _ v.bound (
              ok->> (validate_schedule r) _ ((schedule_iff r).1 v.scheduled) (
                ok->> (validate_execution_owner r) _ ((owner_iff r).1 (v.owned, v.queued)) (
                  ok->> (validate_terminal_outcome r) _ ((outcome_iff r).1 v.finished)
                    ((settlement_iff r).1 v.settled))))))
