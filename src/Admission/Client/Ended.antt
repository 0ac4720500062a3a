-- ===== src/Admission/Client/Ended.antt =====
-- Proofs about the calls and reads of admission.py and a ticket that has ended.
use hovorun_v.Prelude.{
  ◌≡◌, sym, ◌∙◌, ap, true, Option, none, some, String, lookup, lookup-put, ok, inl, inr, arith,
  Option-cases, eq_iff, >>=-eq-ok, >>-then, ok-injective, lookup-Each, raise_if, value_error, not,
}
use mathlib.Core.Path.{subst}
use hovorun_v.Usage.Budgets.{is_technical_id}
use hovorun_v.Jobs.Envelope.{JobOutcome}
use hovorun_v.Admission.Record.{
  AdmissionRecord, AdmissionTicket, stored, malformed, is_terminal, read_record, record_keys,
  ticket_of,
}
use hovorun_v.Admission.Transition.{
  AdmissionTransition, AdmissionChange, request, finish_op, calculate_change, dispatch, finish,
  replay_finish,
}
use hovorun_v.Admission.Traces.{step, after, after_result}
use hovorun_v.Admission.Space.{Space}
use hovorun_v.Admission.Store.{apply_attempt}
use hovorun_v.Admission.Accounting.{IsAccounted, IsTicket, IsBound}
use hovorun_v.Admission.Accounting.Apply.{apply_attempt-refines}
use hovorun_v.Admission.Reads.{read_stored, get_ticket}
use hovorun_v.Admission.Client.{call, finish_call, finish_job, apply, ticket_answer, token_or_empty}

-- The ticket of the job is terminal.
pub record IsEnded (id : String) (sp : Space) : Type 0 where
  pub ticket : AdmissionRecord
  pub found : lookup id sp.tickets ≡ some (stored ticket)
  pub ended : is_terminal ticket.state ≡ true

-- A ticket that is read is the one that is stored.
pub record IsRead (id : String) (sp : Space) (t : AdmissionTicket) : Type 0 where
  pub ticket : AdmissionRecord
  pub found : lookup id sp.tickets ≡ some (stored ticket)
  pub job : t.envelope.job_id ≡ id
  pub same : t.state ≡ ticket.state

abbrev finish_request : JobOutcome → String → AdmissionTransition
finish_request o token = record (request finish_op) { outcome = some o; token = token }

finished_state :
    (r : AdmissionRecord) (o : JobOutcome) (token : String) {c : AdmissionChange}
    {t : AdmissionTicket}
    → calculate_change r (finish_request o token) ≡ ok c
    → ticket_answer (some c) ≡ some t
    → is_terminal (step r (finish_request o token)).state ≡ true
unfolding finish replay_finish step after_result after calculate_change dispatch
finished_state r o token h a = ground arith

attempt-IsEnded :
    (sp : Space) (id : String) (o : JobOutcome) (token : String) {x : Option AdmissionChange}
    {sp' : Space} {t : AdmissionTicket}
    → IsAccounted sp
    → apply_attempt sp id (finish_request o token) ≡ ok (x, sp')
    → ticket_answer x ≡ some t
    → IsEnded id sp'
unfolding apply_attempt
attempt-IsEnded sp id o token {x} {sp'} {t} a h answered =
    elim (Option-cases (lookup id sp.tickets)) [
      | inl absent ↦
          let none_changed : x ≡ none =
            sym (ap (λ d. d.0) (ok-injective (rw (absent, apply_attempt) at h))) in
          absurd (cc (rw none_changed at answered))
      | inr (malformed, found) ↦ absurd (lookup-Each IsTicket id sp.tickets a.counted.bound found)
      | inr (stored r, found) ↦
          let q = finish_request o token in
          let (sp1, done, applied) =
            apply_attempt-refines sp id r a found q
              (record { owner = λ e. cc; schedule = λ e. cc }) in
          let (c, changed, e) =
            >>=-eq-ok (calculate_change r q) (λ c. ok (some c, sp1)) (sym done ∙ h) in
          let this : some c ≡ x = ap (λ d. d.0) (ok-injective e) in
          let tickets = ap (λ d. d.1) (ok-injective e) in
          record {
            ticket = step r q;
            found =
                subst (λ s. lookup id s.tickets ≡ some (stored (step r q))) tickets
                  (rw applied.tickets (
                    ground (arith, lookup-put id id (stored (step r q)) sp.tickets, eq_iff id id)));
            ended = finished_state r o token changed (rw (← this) at answered);
          }
    ]

-- A completion that the store answers with a ticket leaves the ticket terminal.
pub finish-IsEnded :
    (sp : Space) (id : String) (o : JobOutcome) (token : Option String) {x : Option AdmissionChange}
    {sp' : Space} {t : AdmissionTicket}
    → IsAccounted sp
    → call sp (finish_call id o token) ≡ ok (x, sp')
    → ticket_answer x ≡ some t
    → IsEnded id sp'
unfolding call finish_job apply
finish-IsEnded sp id o token a h answered =
    let (_, rest) = >>-then (raise_if (not (is_technical_id id)) value_error) h in
    attempt-IsEnded sp id o (token_or_empty token) a rest answered

read_is_stored : (r : AdmissionRecord) {s : AdmissionRecord} → read_record (stored r) ≡ ok s → r ≡ s
unfolding read_record
read_is_stored r h = ground arith

stored_is_read :
    (r : AdmissionRecord) (id : String) {t : AdmissionTicket}
    → read_stored (stored r) id ≡ ok t
    → ticket_of r ≡ t
unfolding read_stored
stored_is_read r id h =
    let (s, read, rest) = >>=-eq-ok (read_record (stored r)) _ h in
    let (keys, _, rest1) = >>=-eq-ok (record_keys s) _ rest in
    let (_, made) = >>-then _ rest1 in ap ticket_of (read_is_stored r read) ∙ ok-injective made

-- What `get` returns is the ticket that stands under its key.
pub get_ticket-IsRead :
    (sp : Space) (id : String) {t : AdmissionTicket}
    → IsAccounted sp
    → get_ticket sp id ≡ ok (some t)
    → IsRead id sp t
unfolding get_ticket ticket_of
get_ticket-IsRead sp id {t} a h =
    let (_, rest) = >>-then (raise_if (not (is_technical_id id)) value_error) h in
    elim (Option-cases (lookup id sp.tickets)) [
      | inl absent ↦ cc (rw absent at rest)
      | inr (malformed, found) ↦ absurd (lookup-Each IsTicket id sp.tickets a.counted.bound found)
      | inr (stored r, found) ↦
          let (u, made, e) = >>=-eq-ok (read_stored (stored r) id) _ (rw found at rest) in
          let this : ticket_of r ≡ t = stored_is_read r id made ∙ cc in
          let bound : IsBound id r = lookup-Each IsTicket id sp.tickets a.counted.bound found in
          record {
            ticket = r;
            found = found;
            job = subst (λ t. t.envelope.job_id ≡ id) this bound.job;
            same = sym (ap (λ t. t.state) this);
          }
    ]
