-- ===== src/Admission/Client.antt =====
-- src/hovorunv2/infrastructure/runtime/admission.py: the methods of `ValkeyAdmissionStore` and
-- `WorkerAdmissionClient`, each as the transition that it asks for and the answer that it reads from it.
pub mod Safety
pub mod Limits
pub mod Spent
pub mod Ended
pub mod Tests
use hovorun_v.Prelude.{
  ℕ, zero, suc, Bool, true, false, not, ◌&&◌, ◌||◌, Option, none, some, List, [], ◌∷◌, String, ltb,
  leb, if◌then◌else◌, Result, ok, err, ◌>>=◌, ◌>>◌, raise_if, value_error, unavailable,
}
use hovorun_v.Domain.{Timestamp, Instant, at, negative, nonfinite}
use hovorun_v.Usage.Budgets.{is_technical_id}
use hovorun_v.Jobs.Envelope.{JobEnvelope, JobOutcome}
use hovorun_v.Jobs.Settlement.{SettlementIntent}
use hovorun_v.Admission.Record.{AdmissionTicket, JobStage, NoticeKind, is_running, ticket_of}
use hovorun_v.Admission.Transition.{
  AdmissionTransition, AdmissionChange, EnqueueState, queue_unavailable, request, enqueued_op,
  claim_op, handoff_op, cancel_op, finish_op, register_op, published_op, notice_op, republish_op,
  reserved_op, defer_op, delivery_op, prepare_op,
}
use hovorun_v.Admission.Space.{Space}
use hovorun_v.Admission.Store.{apply_attempt, time_of}

-- `_apply`, by an attempt that no other client disturbs, with `_id`.
unfoldable pub apply :
    Space → String → AdmissionTransition → Result (Option AdmissionChange × Space)
unfolding apply_attempt is_technical_id
apply sp id q = raise_if (not (is_technical_id id)) value_error >> apply_attempt sp id q

-- `_ticket`
abbrev pub ticket_answer : Option AdmissionChange → Option AdmissionTicket
ticket_answer none = none
ticket_answer (some c) = elim c.next [ none ↦ none | some r ↦ some (ticket_of r) ]

-- `_claimed`
abbrev pub claimed : Option AdmissionChange → Option AdmissionTicket
claimed none = none
claimed (some c) =
    if c.success
    then elim (ticket_answer (some c)) [
      | none ↦ none
      | some t ↦ if is_running t.state then some t else none
    ]
    else none

abbrev pub succeeded : Option AdmissionChange → Bool
succeeded none = false
succeeded (some c) = c.success

pub record PublicationDecision : Type 0 where
  pub state : EnqueueState
  pub ticket : Option AdmissionTicket
  pub not_before : Timestamp
  pub should_publish : Bool

abbrev pub no_publication : PublicationDecision
no_publication = record {
  state = queue_unavailable;
  ticket = none;
  not_before = 0;
  should_publish = false;
}

-- `_publication`
abbrev pub publication : Option AdmissionChange → PublicationDecision
publication none = no_publication
publication (some c) = elim c.next [
  | none ↦ no_publication
  | some r ↦ record {
    state = c.publication_state;
    ticket = some (ticket_of r);
    not_before = r.not_before;
    should_publish = c.should_publish;
  }
]

abbrev pub is_moment : Instant → Bool
is_moment (at t) = true
is_moment negative = false
is_moment nonfinite = false

-- `validate_claim`
unfoldable pub validate_claim : Instant → String → Result (Unit {0})
unfolding is_technical_id
validate_claim now token = raise_if (not (is_moment now) || not (is_technical_id token)) value_error

-- `_validate_publication`
unfoldable pub validate_publication : JobEnvelope → Instant → Result (Unit {0})
validate_publication e not_before = do
  raise_if (not (is_moment not_before)) value_error
  raise_if (leb e.deadline (time_of not_before)) value_error

-- `token or ""`
abbrev pub token_or_empty : Option String → String
token_or_empty none = ""
token_or_empty (some t) = t

-- A call of a public method.
pub data Call : Type 0 where
  mark_enqueued_call : String → JobStage → ℕ → Call
  claim_stage_call : String → JobStage → Instant → String → Option JobEnvelope → Call
  handoff_stage_call : String → String → JobStage → Call
  cancel_call : String → Call
  finish_call : String → JobOutcome → Option String → Call
  register_publication_call : JobEnvelope → Instant → Call
  ack_publication_call : String → JobStage → ℕ → Call
  claim_notice_call : String → NoticeKind → Call
  mark_reserved_call : String → String → Call
  defer_call : String → String → Instant → Call
  begin_delivery_call : String → String → Instant → Call
  prepare_settlement_call : String → String → SettlementIntent → Call
  allow_republication_call : AdmissionTicket → Instant → Call

unfoldable pub mark_enqueued :
    Space → String → JobStage → ℕ → Result (Option AdmissionChange × Space)
unfolding apply
mark_enqueued sp id stage attempt =
    apply sp id (record (request enqueued_op) { stage = stage; attempt = attempt })

unfoldable pub claim_stage :
    Space
    → String
    → JobStage
    → Instant
    → String
    → Option JobEnvelope
    → Result (Option AdmissionChange × Space)
unfolding apply validate_claim
claim_stage sp id stage now token expected = do
  validate_claim now token
  apply sp id (record (request claim_op) {
    stage = stage;
    now = time_of now;
    token = token;
    expected_envelope = expected;
  })

unfoldable pub hand_over :
    Space → String → String → JobStage → Result (Option AdmissionChange × Space)
unfolding apply
hand_over sp id token next_stage =
    apply sp id (record (request handoff_op) { token = token; stage = next_stage })

unfoldable pub cancel_job : Space → String → Result (Option AdmissionChange × Space)
unfolding apply
cancel_job sp id = apply sp id (request cancel_op)

unfoldable pub finish_job :
    Space → String → JobOutcome → Option String → Result (Option AdmissionChange × Space)
unfolding apply
finish_job sp id outcome token =
    apply sp id
      (record (request finish_op) { outcome = some outcome; token = token_or_empty token })

unfoldable pub register_publication :
    Space → JobEnvelope → Instant → Result (Option AdmissionChange × Space)
unfolding apply validate_publication
register_publication sp e not_before = do
  validate_publication e not_before
  apply sp e.job_id
      (record (request register_op) { expected_envelope = some e; not_before = not_before })

unfoldable pub ack_publication :
    Space → String → JobStage → ℕ → Result (Option AdmissionChange × Space)
unfolding apply
ack_publication sp id stage attempt =
    apply sp id (record (request published_op) { stage = stage; attempt = attempt })

unfoldable pub notice_job : Space → String → NoticeKind → Result (Option AdmissionChange × Space)
unfolding apply
notice_job sp id kind = apply sp id (record (request notice_op) { notice = some kind })

unfoldable pub reserve_job : Space → String → String → Result (Option AdmissionChange × Space)
unfolding apply
reserve_job sp id token = apply sp id (record (request reserved_op) { token = token })

unfoldable pub defer_job :
    Space → String → String → Instant → Result (Option AdmissionChange × Space)
unfolding apply
defer_job sp id token not_before =
    apply sp id (record (request defer_op) { token = token; not_before = not_before })

unfoldable pub deliver_job :
    Space → String → String → Instant → Result (Option AdmissionChange × Space)
unfolding apply validate_claim
deliver_job sp id token now = do
  validate_claim now token
  apply sp id (record (request delivery_op) { token = token; now = time_of now })

unfoldable pub prepare_settlement :
    Space → String → String → SettlementIntent → Result (Option AdmissionChange × Space)
unfolding apply
prepare_settlement sp id token intent =
    apply sp id (record (request prepare_op) { token = token; settlement = some intent })

unfoldable pub allow_republication :
    Space → AdmissionTicket → Instant → Result (Option AdmissionChange × Space)
unfolding apply validate_claim
allow_republication sp t now = do
  validate_claim now "publication"
  apply sp t.envelope.job_id
      (record (request republish_op) { stage = t.stage; attempt = t.attempt; now = time_of now })

-- The change that a call makes. The methods return what `_ticket`, `_claimed`, `_publication` or its
-- success tell of it.
unfoldable pub call : Space → Call → Result (Option AdmissionChange × Space)
unfolding mark_enqueued claim_stage hand_over cancel_job finish_job register_publication
    ack_publication notice_job reserve_job defer_job deliver_job prepare_settlement
    allow_republication
call sp (mark_enqueued_call id stage attempt) = mark_enqueued sp id stage attempt
call sp (claim_stage_call id stage now token e) = claim_stage sp id stage now token e
call sp (handoff_stage_call id token stage) = hand_over sp id token stage
call sp (cancel_call id) = cancel_job sp id
call sp (finish_call id outcome token) = finish_job sp id outcome token
call sp (register_publication_call e not_before) = register_publication sp e not_before
call sp (ack_publication_call id stage attempt) = ack_publication sp id stage attempt
call sp (claim_notice_call id kind) = notice_job sp id kind
call sp (mark_reserved_call id token) = reserve_job sp id token
call sp (defer_call id token not_before) = defer_job sp id token not_before
call sp (begin_delivery_call id token now) = deliver_job sp id token now
call sp (prepare_settlement_call id token intent) = prepare_settlement sp id token intent
call sp (allow_republication_call t now) = allow_republication sp t now
