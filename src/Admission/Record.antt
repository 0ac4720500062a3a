-- ===== src/Admission/Record.antt =====
-- src/hovorunv2/infrastructure/runtime/admission_state.py, the persisted ticket: its states, its
-- keys, its validators. `envelope` holds the parsed envelope, since the JSON codec is pydantic's. A
-- key is the fields that its text joins, behind the prefix of its role; each role has a type.
use hovorun_v.Prelude.{
  ℕ, ◌/◌, Bool, true, false, not, ◌&&◌, ◌||◌, xor, Option, none, some, String, is_some, ℤ,
  ℕ_discrete, ℤ-discrete, ltb, leb, ◌==◌, decided, str_eq, Result, ok, err, ◌>>=◌, ◌>>◌,
  if◌then◌else◌, raise_if, conflict, unavailable, value_error, List, [], ◌∷◌,
}
use hovorun_v.Domain.{TargetKind, TargetKind-discrete, user, group, Timestamp, second}
use hovorun_v.Usage.Budgets.{is_technical_id, UnitAmount}
use hovorun_v.Jobs.Envelope.{JobEnvelope, JobOutcome, validate_envelope, same_telegram_id}
use hovorun_v.Jobs.Settlement.{validate_intent, SettlementIntent}

pub data TicketState : Type 0 where
  accepted enqueued running cancelling waiting settling delivery_uncertain terminal : TicketState

pub data JobStage : Type 0 where
  media browser : JobStage

pub data NoticeKind : Type 0 where
  delayed_notice terminal_notice failure_notice : NoticeKind

-- `state in {ACCEPTED, ENQUEUED, WAITING}`
abbrev pub is_queued : TicketState → Bool
is_queued accepted = true
is_queued enqueued = true
is_queued waiting = true
is_queued _ = false

-- `state in {RUNNING, CANCELLING, SETTLING, DELIVERY_UNCERTAIN}`
abbrev pub is_owned : TicketState → Bool
is_owned running = true
is_owned cancelling = true
is_owned settling = true
is_owned delivery_uncertain = true
is_owned _ = false

abbrev pub is_accepted : TicketState → Bool
is_accepted accepted = true
is_accepted _ = false

abbrev pub is_running : TicketState → Bool
is_running running = true
is_running _ = false

abbrev pub is_cancelling : TicketState → Bool
is_cancelling cancelling = true
is_cancelling _ = false

abbrev pub is_waiting : TicketState → Bool
is_waiting waiting = true
is_waiting _ = false

abbrev pub is_settling : TicketState → Bool
is_settling settling = true
is_settling _ = false

abbrev pub is_uncertain : TicketState → Bool
is_uncertain delivery_uncertain = true
is_uncertain _ = false

abbrev pub is_terminal : TicketState → Bool
is_terminal terminal = true
is_terminal _ = false

abbrev pub same_stage : JobStage → JobStage → Bool
same_stage media media = true
same_stage browser browser = true
same_stage _ _ = false

-- `subject:<kind>:<id>`
abbrev pub Owner : Type 0
Owner = TargetKind × ℤ

-- `ingress:group:<id>:sender:<actor>` and `ingress:user:<actor>`
pub data Ingress : Type 0 where
  from_group : ℤ → ℕ → Ingress
  from_user : Option ℕ → Ingress

unfoldable pub Owner-discrete : Discrete Owner
unfolding TargetKind-discrete ℤ-discrete
Owner-discrete = hlevel (TargetKind-discrete, ℤ-discrete)

unfoldable pub Ingress-discrete : Discrete Ingress
unfolding ℕ_discrete ℤ-discrete
Ingress-discrete = hlevel (ℕ_discrete, ℤ-discrete)

-- The pointers that differ from job to job; `totals`, `handoff`, `pending` and `rotation` do not.
pub record AdmissionKeys : Type 0 where
  pub ticket : String
  pub dedupe : String
  pub subject : Owner
  pub ingress : Ingress
  pub payload : String
  pub lane : Owner × String

-- `actor_id or 0`
abbrev pub actor_or_zero : Option ℕ → ℕ
actor_or_zero none = 0
actor_or_zero (some n) = n

abbrev pub ingress_of : JobEnvelope → Ingress
ingress_of e = elim e.target.kind [
  | group ↦ from_group e.target.telegram_id (actor_or_zero e.actor_id)
  | user ↦ from_user e.actor_id
]

abbrev pub owner_of : JobEnvelope → Owner
owner_of e = (e.charged_kind, e.charged_telegram_id)

-- `admission_keys`; `admission_ticket_key` refuses a job whose identity is not technical.
unfoldable pub admission_keys : JobEnvelope → Result AdmissionKeys
unfolding is_technical_id
admission_keys e = do
  raise_if (not (is_technical_id e.job_id)) value_error
  ok (record {
    ticket = e.job_id;
    dedupe = e.dedupe_key;
    subject = owner_of e;
    ingress = ingress_of e;
    payload = e.payload_ref;
    lane = (owner_of e, e.feature);
  })

pub record AdmissionRecord : Type 0 where
  pub envelope : JobEnvelope
  pub state : TicketState
  pub stage : JobStage
  pub byte_size : ℕ
  pub attempt : ℕ
  pub token : String
  pub published : ℕ
  pub publication_registered : ℕ
  pub retry_at : Timestamp
  pub not_before : Timestamp
  pub subject_key : Owner
  pub ingress_key : Ingress
  pub payload_key : String
  pub dedupe_key : String
  pub outcome : Option JobOutcome
  pub settlement : Option SettlementIntent
  pub budget_reserved : Bool
  pub delayed_notice_requested : Bool
  pub terminal_notice_requested : Bool
  pub delayed_notice_claimed : Bool
  pub terminal_notice_claimed : Bool
  pub failure_notice_claimed : Bool

-- The constraints on the fields.
unfoldable pub validate_record_fields : AdmissionRecord → Result (Unit {0})
validate_record_fields r = do
  raise_if (r.byte_size == 0) value_error
  raise_if (ltb 1 r.published || ltb 1 r.publication_registered) value_error

-- `_validate_schedule`
unfoldable pub validate_schedule : AdmissionRecord → Result (Unit {0})
validate_schedule r = raise_if (leb r.envelope.deadline r.not_before) value_error

-- `bool(token)`
abbrev pub has_token : String → Bool
has_token t = not (str_eq t "")

-- `_validate_execution_owner`
unfoldable pub validate_execution_owner : AdmissionRecord → Result (Unit {0})
validate_execution_owner r = elim (is_owned r.state) [
  | true ↦ raise_if (not (is_technical_id r.token) || r.attempt == 0) value_error
  | false ↦ raise_if (is_queued r.state && has_token r.token) value_error
]

-- `bool(intent.actual)`
abbrev pub has_amounts : List UnitAmount → Bool
has_amounts [] = false
has_amounts (_ ∷ _) = true

-- `_validate_terminal_outcome`
unfoldable pub validate_terminal_outcome : AdmissionRecord → Result (Unit {0})
validate_terminal_outcome r = raise_if (xor (is_terminal r.state) (is_some r.outcome)) value_error

-- `_validate_receipt_binding`; the `int` of a timestamp is its whole seconds.
unfoldable pub validate_receipt_binding : SettlementIntent → JobEnvelope → Result (Unit {0})
validate_receipt_binding intent job = elim intent.event [
  | none ↦ ok tt
  | some event ↦
      raise_if
        (not (str_eq event.event_id job.job_id)
          || not (decided (TargetKind-discrete event.subject.kind job.charged_kind))
          || not (same_telegram_id event.subject.telegram_id job.charged_telegram_id))
        conflict
      >> raise_if
          (ltb event.occurred_at (job.accepted_at / second)
            || ltb (job.deadline / second) event.occurred_at)
          conflict
]

-- `_validate_settlement`
unfoldable pub validate_settlement : AdmissionRecord → Result (Unit {0})
unfolding validate_receipt_binding
validate_settlement r = elim r.settlement [
  | none ↦ raise_if (is_settling r.state) value_error
  | some intent ↦
      raise_if (not (is_settling r.state || is_terminal r.state)) value_error
      >> (raise_if (xor r.budget_reserved (has_amounts intent.actual)) value_error
          >> validate_receipt_binding intent r.envelope)
]

-- What pydantic runs on a stored ticket: the fields, the embedded envelope, `validate_lifecycle`.
unfoldable pub validate_lifecycle : AdmissionRecord → Result (Unit {0})
unfolding validate_schedule validate_execution_owner validate_terminal_outcome validate_settlement
validate_lifecycle r = do
  validate_schedule r
  validate_execution_owner r
  validate_terminal_outcome r
  validate_settlement r

-- The settlement of a ticket is validated with it.
unfoldable pub validate_intents : Option SettlementIntent → Result (Unit {0})
validate_intents none = ok tt
validate_intents (some i) = validate_intent i

unfoldable pub validate_record : AdmissionRecord → Result (Unit {0})
unfolding validate_record_fields validate_intents validate_lifecycle
validate_record r = do
  validate_record_fields r
  validate_intents r.settlement
  validate_envelope r.envelope
  validate_lifecycle r

-- What a read of a ticket key finds.
pub data Stored : Type 0 where
  malformed : Stored
  stored : AdmissionRecord → Stored

-- `read_record`: whatever the validators raise becomes `AdmissionUnavailableError`.
unfoldable pub read_record : Stored → Result AdmissionRecord
read_record malformed = err unavailable
read_record (stored r) = elim (validate_record r) [ ok _ ↦ ok r | err _ ↦ err unavailable ]

unfoldable pub pointers_agree : AdmissionRecord → AdmissionKeys → Bool
unfolding Owner-discrete Ingress-discrete
pointers_agree r k =
    decided (Owner-discrete r.subject_key k.subject)
    && decided (Ingress-discrete r.ingress_key k.ingress)
    && str_eq r.payload_key k.payload
    && str_eq r.dedupe_key k.dedupe

-- `AdmissionRecord.keys`
unfoldable pub record_keys : AdmissionRecord → Result AdmissionKeys
unfolding admission_keys pointers_agree
record_keys r = do
  keys ← admission_keys r.envelope
  raise_if (not (pointers_agree r keys)) unavailable
  ok keys

-- The public view of a ticket.
pub record AdmissionTicket : Type 0 where
  pub envelope : JobEnvelope
  pub state : TicketState
  pub byte_size : ℕ
  pub stage : JobStage
  pub token : Option String
  pub attempt : ℕ
  pub outcome : Option JobOutcome
  pub not_before : Timestamp
  pub settlement : Option SettlementIntent
  pub budget_reserved : Bool
  pub delayed_notice_requested : Bool
  pub terminal_notice_requested : Bool

-- `AdmissionRecord.ticket`
unfoldable pub ticket_of : AdmissionRecord → AdmissionTicket
ticket_of r = record {
  envelope = r.envelope;
  state = r.state;
  byte_size = r.byte_size;
  stage = r.stage;
  token = if has_token r.token then some r.token else none;
  attempt = r.attempt;
  outcome = r.outcome;
  not_before = r.not_before;
  settlement = r.settlement;
  budget_reserved = r.budget_reserved;
  delayed_notice_requested = r.delayed_notice_requested;
  terminal_notice_requested = r.terminal_notice_requested;
}
