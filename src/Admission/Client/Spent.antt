-- ===== src/Admission/Client/Spent.antt =====
-- Proofs about the calls of admission.py and a ticket whose delivery has begun.
use hovorun_v.Prelude.{
  ◌≡◌, sym, ◌∙◌, ap, true, Option, none, some, List, [], ◌∷◌, String, str_eq, lookup, lookup-put,
  ok, inl, inr, arith, Bool-cases, Option-cases, Result-cases, eq_iff, >>=-eq-ok, >>-then,
  ok-injective, lookup-Each, raise_if, value_error, not,
}
use mathlib.Core.Path.{subst}
use hovorun_v.Domain.{Timestamp, Instant}
use hovorun_v.Usage.Budgets.{is_technical_id}
use hovorun_v.Jobs.Envelope.{JobEnvelope, validate_envelope}
use hovorun_v.Admission.Record.{AdmissionRecord, AdmissionTicket, stored, malformed, is_running}
use hovorun_v.Admission.Graph.{is_spent}
use hovorun_v.Admission.Transition.{
  AdmissionTransition, AdmissionChange, request, delivery_op, calculate_change, dispatch,
  begin_delivery,
}
use hovorun_v.Admission.Traces.{step, after, after_result, spent-step}
use hovorun_v.Admission.Capacity.{AdmissionLimits}
use hovorun_v.Admission.Space.{Space}
use hovorun_v.Admission.Store.{SealedPayload, initial_record, admit, apply_attempt, time_of}
use hovorun_v.Admission.Accounting.{IsAccounted, IsTicket, keys_of}
use hovorun_v.Admission.Accounting.Apply.{apply_attempt-refines}
use hovorun_v.Admission.Accounting.Entry.{IsAnswered, admit-IsAnswered}
use hovorun_v.Admission.Client.{
  Call, call, begin_delivery_call, deliver_job, apply, validate_claim, ticket_answer,
}
use hovorun_v.Admission.Client.Safety.{IsMoved, unmoved, moved_ticket, call-IsMoved}
use hovorun_v.Admission.Client.Limits.{
  Event, admission, transition, run_event, run_events, space_or, AreValid, IsLimited,
  admission-IsLimited, transition-IsLimited,
}

-- The delivery of the job has begun, or the job settles or has ended.
pub record IsSpent (id : String) (sp : Space) : Type 0 where
  pub ticket : AdmissionRecord
  pub found : lookup id sp.tickets ≡ some (stored ticket)
  pub spent : is_spent ticket.state ≡ true

module _ (id : String) (sp : Space) (s : IsSpent id sp) where
  moved-IsSpent : {sp' : Space} → IsMoved sp sp' → IsSpent id sp'
  moved-IsSpent (unmoved e) = subst (IsSpent id) (sym e) s
  moved-IsSpent {sp'} (moved_ticket other r q found x) = elim (Bool-cases (str_eq other id)) [
    | inr apart ↦ record {
      ticket = s.ticket;
      found =
          rw x.tickets
            (ground (arith, s.found, lookup-put id other (stored (step r q)) sp.tickets));
      spent = s.spent;
    }
    | inl same ↦
        let here : lookup id sp.tickets ≡ some (stored r) =
          subst (λ k. lookup k sp.tickets ≡ some (stored r)) ((eq_iff other id).0 same) found in
        let this : stored r ≡ stored s.ticket = ground (arith, s.found) in
        record {
          ticket = step r q;
          found = rw x.tickets (ground (arith, lookup-put id other (stored (step r q)) sp.tickets));
          spent = spent-step r q (ground (arith, s.spent));
        }
  ]

  entered-IsSpent :
      (e : JobEnvelope) (p : SealedPayload) (l : AdmissionLimits) {sp' : Space}
      → IsAnswered sp e p l sp'
      → IsSpent id sp'
  entered-IsSpent e p l (inl same) = subst (IsSpent id) (sym same) s
  entered-IsSpent e p l (inr x) = record {
    ticket = s.ticket;
    found = rw x.tickets (
        ground (
          arith,
          s.found,
          x.fresh,
          eq_iff e.job_id id,
          lookup-put id e.job_id (stored (initial_record e p (keys_of e))) sp.tickets,
        ));
    spent = s.spent;
  }

  admission-IsSpent :
      (e : JobEnvelope) (p : SealedPayload) (l : AdmissionLimits) (now : Instant)
      → IsAccounted sp
      → validate_envelope e ≡ ok tt
      → IsSpent id (space_or sp (admit sp e p l now))
  admission-IsSpent e p l now a v = elim (Result-cases (admit sp e p l now)) [
    | inl ((x, sp'), h) ↦ rw h (entered-IsSpent e p l (admit-IsAnswered sp e p l a now v h))
    | inr (x, h) ↦ rw h s
  ]

  pub transition-IsSpent : (c : Call) → IsAccounted sp → IsSpent id (space_or sp (call sp c))
  transition-IsSpent c a = elim (Result-cases (call sp c)) [
    | inl ((x, sp'), h) ↦ rw h (moved-IsSpent (call-IsMoved sp c a h))
    | inr (x, h) ↦ rw h s
  ]

-- Nothing that clients do to the store makes a job whose delivery has begun deliverable again.
pub run_events-IsSpent :
    (id : String) (l : AdmissionLimits) (xs : List Event) (sp : Space)
    → AreValid xs
    → IsLimited l sp
    → IsSpent id sp
    → IsSpent id (run_events l sp xs)
unfolding run_events run_event
run_events-IsSpent id l [] sp v i s = s
run_events-IsSpent id l (admission e p now ∷ xs) sp v i s =
    run_events-IsSpent id l xs (space_or sp (admit sp e p l now)) v.1
      (admission-IsLimited l sp i e p now v.0) (admission-IsSpent id sp s e p l now i.accounted v.0)
run_events-IsSpent id l (transition c ∷ xs) sp v i s =
    run_events-IsSpent id l xs (space_or sp (call sp c)) v (transition-IsLimited l sp i c)
      (transition-IsSpent id sp s c i.accounted)

-- The ticket of a delivery that has just begun, before it began.
pub record IsBegun (id : String) (sp sp' : Space) : Type 0 where
  pub ticket : AdmissionRecord
  pub found : lookup id sp.tickets ≡ some (stored ticket)
  pub running : is_running ticket.state ≡ true
  pub spent : IsSpent id sp'

abbrev begin_request : String → Timestamp → AdmissionTransition
begin_request token t = record (request delivery_op) { token = token; now = t }

begun_states :
    (r : AdmissionRecord) (token : String) (now : Timestamp) {t : AdmissionTicket}
    → ticket_answer (some (begin_delivery r (begin_request token now))) ≡ some t
    → (is_running r.state ≡ true) × (is_spent (step r (begin_request token now)).state ≡ true)
unfolding begin_delivery step after_result after calculate_change dispatch
begun_states r token now h = ground arith

delivery_change :
    (r : AdmissionRecord) (token : String) (now : Timestamp) {c : AdmissionChange}
    → calculate_change r (begin_request token now) ≡ ok c
    → begin_delivery r (begin_request token now) ≡ c
unfolding calculate_change dispatch
delivery_change r token now h = ok-injective h

attempt-IsBegun :
    (sp : Space) (id token : String) (now : Timestamp) {x : Option AdmissionChange} {sp' : Space}
    {t : AdmissionTicket}
    → IsAccounted sp
    → apply_attempt sp id (begin_request token now) ≡ ok (x, sp')
    → ticket_answer x ≡ some t
    → IsBegun id sp sp'
unfolding apply_attempt
attempt-IsBegun sp id token now {x} {sp'} {t} a h answered =
    elim (Option-cases (lookup id sp.tickets)) [
      | inl absent ↦
          let none_changed : x ≡ none =
            sym (ap (λ d. d.0) (ok-injective (rw (absent, apply_attempt) at h))) in
          absurd (cc (rw none_changed at answered))
      | inr (malformed, found) ↦ absurd (lookup-Each IsTicket id sp.tickets a.counted.bound found)
      | inr (stored r, found) ↦
          let q = begin_request token now in
          let (sp1, done, applied) =
            apply_attempt-refines sp id r a found q
              (record { owner = λ e. cc; schedule = λ e. cc }) in
          let (c, changed, e) =
            >>=-eq-ok (calculate_change r q) (λ c. ok (some c, sp1)) (sym done ∙ h) in
          let this : some (begin_delivery r q) ≡ x =
            ap some (delivery_change r token now changed) ∙ ap (λ d. d.0) (ok-injective e) in
          let (running, spent) = begun_states r token now (rw (← this) at answered) in
          let tickets = ap (λ d. d.1) (ok-injective e) in
          record {
            ticket = r;
            found = found;
            running = running;
            spent = record {
              ticket = step r q;
              found =
                  subst (λ s. lookup id s.tickets ≡ some (stored (step r q))) tickets
                    (rw applied.tickets (
                      ground
                        (arith, lookup-put id id (stored (step r q)) sp.tickets, eq_iff id id)));
              spent = spent;
            };
          }
    ]

-- A delivery that the store allows is one of a running job, and leaves the job with its delivery begun.
pub begin_delivery-IsBegun :
    (sp : Space) (id token : String) (now : Instant) {x : Option AdmissionChange} {sp' : Space}
    {t : AdmissionTicket}
    → IsAccounted sp
    → call sp (begin_delivery_call id token now) ≡ ok (x, sp')
    → ticket_answer x ≡ some t
    → IsBegun id sp sp'
unfolding call deliver_job apply
begin_delivery-IsBegun sp id token now a h answered =
    let (_, rest) = >>-then (validate_claim now token) h in
    let (_, rest1) = >>-then (raise_if (not (is_technical_id id)) value_error) rest in
    attempt-IsBegun sp id token (time_of now) a rest1 answered
