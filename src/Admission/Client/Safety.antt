-- ===== src/Admission/Client/Safety.antt =====
-- Proofs about the calls of admission.py, made one after another and retried.
use hovorun_v.Prelude.{
  ◌≡◌, ◌≢◌, refl, sym, ◌∙◌, ap, true, not, Option, some, String, lookup, ok, err, Error, ◌⊎◌, inl,
  inr, arith, Bool-cases, Option-cases, >>-then, ok-injective, raise_if, value_error, lookup-Each,
  >>=-eq-ok, decided_iff, ◌<◌,
}
use mathlib.Core.Path.{subst}
use hovorun_v.Domain.{Instant}
use hovorun_v.Usage.Budgets.{is_technical_id}
use hovorun_v.Jobs.Envelope.{JobEnvelope, JobEnvelope-discrete}
use hovorun_v.Admission.Record.{AdmissionRecord, AdmissionTicket, JobStage, malformed, stored}
use hovorun_v.Admission.Transition.{
  AdmissionTransition, AdmissionChange, claim_op, register_op, calculate_change, dispatch, register,
  stored_instant, same_envelope,
}
use hovorun_v.Admission.Invariant.{IsChecked}
use hovorun_v.Admission.Traces.{step}
use hovorun_v.Admission.Space.{Space}
use hovorun_v.Admission.Store.{apply_attempt}
use hovorun_v.Admission.Accounting.{IsAccounted, IsBound, IsTicket}
use hovorun_v.Admission.Accounting.Apply.{IsApplied, apply_attempt-refines, apply_attempt-err}
use hovorun_v.Admission.Client.{
  apply, validate_claim, validate_publication, Call, call, mark_enqueued_call, claim_stage_call,
  handoff_stage_call, cancel_call, finish_call, register_publication_call, ack_publication_call,
  claim_notice_call, mark_reserved_call, defer_call, begin_delivery_call, prepare_settlement_call,
  allow_republication_call, mark_enqueued, claim_stage, hand_over, cancel_job, finish_job,
  register_publication, ack_publication, notice_job, reserve_job, defer_job, deliver_job,
  prepare_settlement, allow_republication,
}

-- A space as it was, or with one stored ticket moved on.
pub data IsMoved (sp sp' : Space) : Type 0 where
  unmoved : sp' ≡ sp → IsMoved sp sp'
  moved_ticket :
      (id : String) (r : AdmissionRecord) (q : AdmissionTransition)
      → lookup id sp.tickets ≡ some (stored r)
      → IsApplied sp id (step r q) sp'
      → IsMoved sp sp'

-- A request that the caller has checked, or that the calculation refuses.
abbrev IsReady : AdmissionRecord → AdmissionTransition → Type 0
IsReady r q = IsChecked r q ⊎ ((e : Error) × (calculate_change r q ≡ err e))

apply_attempt-IsMoved :
    (sp : Space) (id : String) (q : AdmissionTransition) {x : Option AdmissionChange} {sp' : Space}
    → IsAccounted sp
    → ((r : AdmissionRecord) → IsReady r q)
    → apply_attempt sp id q ≡ ok (x, sp')
    → IsMoved sp sp'
unfolding apply_attempt
apply_attempt-IsMoved sp id q {x} {sp'} a ready h = elim (Option-cases (lookup id sp.tickets)) [
  | inl absent ↦ unmoved (sym (ap (λ d. d.1) (ok-injective (rw (absent, apply_attempt) at h))))
  | inr (malformed, found) ↦ absurd (lookup-Each IsTicket id sp.tickets a.counted.bound found)
  | inr (stored r, found) ↦ elim (ready r) [
    | inl checked ↦
        let (sp1, done, applied) = apply_attempt-refines sp id r a found q checked in
        let (c, _, e) = >>=-eq-ok (calculate_change r q) (λ c. ok (some c, sp1)) (sym done ∙ h) in
        moved_ticket id r q found
          (subst (IsApplied sp id (step r q)) (ap (λ d. d.1) (ok-injective e)) applied)
    | inr (e, refused) ↦
        let b : IsBound id r = lookup-Each IsTicket id sp.tickets a.counted.bound found in
        absurd (ground (arith, apply_attempt-err sp id r a found b q refused))
  ]
]

apply-IsMoved :
    (sp : Space) (id : String) (q : AdmissionTransition) {x : Option AdmissionChange} {sp' : Space}
    → IsAccounted sp
    → ((r : AdmissionRecord) → IsReady r q)
    → apply sp id q ≡ ok (x, sp')
    → IsMoved sp sp'
unfolding apply
apply-IsMoved sp id q a ready h =
    let (_, rest) = >>-then (raise_if (not (is_technical_id id)) value_error) h in
    apply_attempt-IsMoved sp id q a ready rest

-- Every request but a claim and a registration is checked as it is.
unchecked :
    (q : AdmissionTransition)
    → q.operation ≢ claim_op
    → q.operation ≢ register_op
    → (r : AdmissionRecord) → IsReady r q
unchecked q c d r = inl (record { owner = λ e. absurd (c e); schedule = λ e. absurd (d e) })

claim-IsReady :
    (q : AdmissionTransition)
    → is_technical_id q.token ≡ true
    → q.operation ≡ claim_op
    → (r : AdmissionRecord) → IsReady r q
claim-IsReady q t o r = inl (record { owner = λ e. t; schedule = λ e. cc })

register-IsReady :
    (q : AdmissionTransition) {e : JobEnvelope}
    → q.operation ≡ register_op
    → q.expected_envelope ≡ some e
    → stored_instant q.not_before < e.deadline
    → (r : AdmissionRecord) → IsReady r q
unfolding calculate_change dispatch register
register-IsReady q {e} o x early r = elim (Bool-cases (same_envelope r.envelope e)) [
  | inl same ↦
      let this : r.envelope ≡ e = (decided_iff (JobEnvelope-discrete r.envelope e)).0 same in
      inl (record { owner = λ h. cc; schedule = λ h. rw this early })
  | inr other ↦ inr (value_error, ground arith)
]

claim-IsMoved :
    (sp : Space) (id : String) (stage : JobStage) (now : Instant) (token : String)
    (e : Option JobEnvelope) {x : Option AdmissionChange} {sp' : Space}
    → IsAccounted sp
    → claim_stage sp id stage now token e ≡ ok (x, sp')
    → IsMoved sp sp'
unfolding claim_stage validate_claim
claim-IsMoved sp id stage now token e a h =
    let (checked, rest) = >>-then (validate_claim now token) h in
    apply-IsMoved sp id _ a (claim-IsReady _ (ground arith) refl) rest

register-IsMoved :
    (sp : Space) (e : JobEnvelope) (not_before : Instant) {x : Option AdmissionChange} {sp' : Space}
    → IsAccounted sp
    → register_publication sp e not_before ≡ ok (x, sp')
    → IsMoved sp sp'
unfolding register_publication validate_publication
register-IsMoved sp e not_before a h =
    let (checked, rest) = >>-then (validate_publication e not_before) h in
    apply-IsMoved sp e.job_id _ a (register-IsReady _ refl refl (ground arith)) rest

delivery-IsMoved :
    (sp : Space) (id token : String) (now : Instant) {x : Option AdmissionChange} {sp' : Space}
    → IsAccounted sp
    → deliver_job sp id token now ≡ ok (x, sp')
    → IsMoved sp sp'
unfolding deliver_job
delivery-IsMoved sp id token now a h =
    let (_, rest) = >>-then (validate_claim now token) h in
    apply-IsMoved sp id _ a (unchecked _ (λ e. cc) (λ e. cc)) rest

republish-IsMoved :
    (sp : Space) (t : AdmissionTicket) (now : Instant) {x : Option AdmissionChange} {sp' : Space}
    → IsAccounted sp
    → allow_republication sp t now ≡ ok (x, sp')
    → IsMoved sp sp'
unfolding allow_republication
republish-IsMoved sp t now a h =
    let (_, rest) = >>-then (validate_claim now "publication") h in
    apply-IsMoved sp t.envelope.job_id _ a (unchecked _ (λ e. cc) (λ e. cc)) rest

-- A call that returns leaves an accounted space as it was, or moves one stored ticket by the
-- transition of a request and keeps the space accounted.
pub call-IsMoved :
    (sp : Space) (c : Call) {x : Option AdmissionChange} {sp' : Space}
    → IsAccounted sp
    → call sp c ≡ ok (x, sp')
    → IsMoved sp sp'
unfolding call mark_enqueued hand_over cancel_job finish_job ack_publication notice_job reserve_job
    defer_job prepare_settlement
call-IsMoved sp (mark_enqueued_call id stage attempt) a h =
    apply-IsMoved sp id _ a (unchecked _ (λ e. cc) (λ e. cc)) h
call-IsMoved sp (claim_stage_call id stage now token e) a h =
    claim-IsMoved sp id stage now token e a h
call-IsMoved sp (handoff_stage_call id token stage) a h =
    apply-IsMoved sp id _ a (unchecked _ (λ e. cc) (λ e. cc)) h
call-IsMoved sp (cancel_call id) a h = apply-IsMoved sp id _ a (unchecked _ (λ e. cc) (λ e. cc)) h
call-IsMoved sp (finish_call id outcome token) a h =
    apply-IsMoved sp id _ a (unchecked _ (λ e. cc) (λ e. cc)) h
call-IsMoved sp (register_publication_call e not_before) a h = register-IsMoved sp e not_before a h
call-IsMoved sp (ack_publication_call id stage attempt) a h =
    apply-IsMoved sp id _ a (unchecked _ (λ e. cc) (λ e. cc)) h
call-IsMoved sp (claim_notice_call id kind) a h =
    apply-IsMoved sp id _ a (unchecked _ (λ e. cc) (λ e. cc)) h
call-IsMoved sp (mark_reserved_call id token) a h =
    apply-IsMoved sp id _ a (unchecked _ (λ e. cc) (λ e. cc)) h
call-IsMoved sp (defer_call id token not_before) a h =
    apply-IsMoved sp id _ a (unchecked _ (λ e. cc) (λ e. cc)) h
call-IsMoved sp (begin_delivery_call id token now) a h = delivery-IsMoved sp id token now a h
call-IsMoved sp (prepare_settlement_call id token intent) a h =
    apply-IsMoved sp id _ a (unchecked _ (λ e. cc) (λ e. cc)) h
call-IsMoved sp (allow_republication_call t now) a h = republish-IsMoved sp t now a h
