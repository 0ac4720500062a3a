-- ===== src/Admission/Transition.antt =====
-- src/hovorunv2/infrastructure/runtime/admission_state.py, the lifecycle: `calculate_change` and the
-- functions that it dispatches to, one for each. `model_copy(update=…)` is a record update.
use hovorun_v.Prelude.{
  ℕ, ◌+◌, max, Bool, true, false, not, ◌&&◌, ◌||◌, Option, none, some, String, [], ◌∷◌, ltb, leb,
  ◌==◌, decided, str_eq, if◌then◌else◌, Result, ok, err, ◌>>◌, raise_if, conflict, value_error,
  type_error,
}
use hovorun_v.Domain.{Timestamp, Instant, at, negative, nonfinite, seconds}
use hovorun_v.Usage.Policies.{requests}
use hovorun_v.Jobs.Envelope.{
  JobEnvelope, JobEnvelope-discrete, JobOutcome, complete, outcome_expired, cancelled, same_outcome,
}
use hovorun_v.Jobs.Settlement.{SettlementIntent, SettlementIntent-discrete}
use hovorun_v.Admission.Record.{
  TicketState, accepted, enqueued, running, cancelling, waiting, settling, delivery_uncertain,
  terminal, JobStage, media, browser, NoticeKind, delayed_notice, terminal_notice, failure_notice,
  is_queued, is_cancelling, is_owned, is_accepted, is_running, is_waiting, is_settling,
  is_uncertain, is_terminal, same_stage, AdmissionRecord, has_token, validate_record,
}

pub data EnqueueState : Type 0 where
  published_now exists queue_unavailable enqueue_expired : EnqueueState

pub data AdmissionOperation : Type 0 where
  enqueued_op claim_op handoff_op cancel_op finish_op register_op published_op : AdmissionOperation
  notice_op republish_op reserved_op defer_op delivery_op prepare_op : AdmissionOperation

-- `now` has passed `validate_claim`, and `not_before` is as the caller gave it.
pub record AdmissionTransition : Type 0 where
  pub operation : AdmissionOperation
  pub stage : JobStage
  pub attempt : ℕ
  pub token : String
  pub outcome : Option JobOutcome
  pub now : Timestamp
  pub notice : Option NoticeKind
  pub expected_envelope : Option JobEnvelope
  pub not_before : Instant
  pub settlement : Option SettlementIntent

-- A request with the defaults of the source.
abbrev pub request : AdmissionOperation → AdmissionTransition
request op = record {
  operation = op;
  stage = media;
  attempt = 0;
  token = "";
  outcome = none;
  now = 0;
  notice = none;
  expected_envelope = none;
  not_before = at 0;
  settlement = none;
}

pub record AdmissionChange : Type 0 where
  pub next : Option AdmissionRecord
  pub write : Bool
  pub release : Bool
  pub handoff : Option Bool
  pub success : Bool
  pub publication_state : EnqueueState
  pub should_publish : Bool

-- `AdmissionChange(None)`
abbrev pub refused : AdmissionChange
refused = record {
  next = none;
  write = false;
  release = false;
  handoff = none;
  success = false;
  publication_state = exists;
  should_publish = false;
}

-- `AdmissionChange(record)`
abbrev pub unchanged : AdmissionRecord → AdmissionChange
unchanged r = record refused { next = some r }

-- `AdmissionChange(record, write=True, success=True)`
abbrev pub written : AdmissionRecord → AdmissionChange
written r = record refused { next = some r; write = true; success = true }

-- `AdmissionChange(record, write=True, release=True, handoff=False, success=True)`
abbrev pub released_change : AdmissionRecord → AdmissionChange
released_change r = record refused {
  next = some r;
  write = true;
  release = true;
  handoff = some false;
  success = true;
}

abbrev pub same_envelope : JobEnvelope → JobEnvelope → Bool
same_envelope a b = decided (JobEnvelope-discrete a b)

abbrev pub same_intent : SettlementIntent → SettlementIntent → Bool
same_intent a b = decided (SettlementIntent-discrete a b)

abbrev pub same_attempt : AdmissionRecord → AdmissionTransition → Bool
same_attempt r q = same_stage r.stage q.stage && r.attempt == q.attempt

-- `RECOVERY_RETRY_SECONDS`
abbrev pub recovery_retry : Timestamp
recovery_retry = seconds 5

abbrev pub terminated : AdmissionRecord → JobOutcome → AdmissionRecord
terminated r o = record r { state = terminal; outcome = some o; terminal_notice_requested = true }

-- `_replay_finish`
unfoldable pub replay_finish :
    AdmissionRecord → AdmissionTransition → JobOutcome → Result AdmissionChange
replay_finish r q o =
    if has_token q.token && not (str_eq q.token r.token) then ok refused else elim r.outcome [
      | none ↦ err conflict
      | some old ↦
          if same_outcome old o then ok (record (unchanged r) { success = true }) else err conflict
    ]

-- `_completion_owner_matches`
unfoldable pub completion_owner_matches : AdmissionRecord → String → Bool
completion_owner_matches r token =
    if is_owned r.state then str_eq token r.token else not (has_token token)

-- `record.settlement is not None and record.settlement.outcome != outcome`
abbrev pub contradicts : Option SettlementIntent → JobOutcome → Bool
contradicts none o = false
contradicts (some i) o = not (same_outcome i.outcome o)

-- `_finish`
unfoldable pub finish : AdmissionRecord → AdmissionTransition → Result AdmissionChange
unfolding replay_finish completion_owner_matches
finish r q = elim q.outcome [
  | none ↦ err type_error
  | some o ↦
      if is_terminal r.state
      then replay_finish r q o
      else if is_uncertain r.state
      then ok refused
      else if r.budget_reserved && not (is_settling r.state)
      then ok refused
      else if contradicts r.settlement o
      then err conflict
      else if not (completion_owner_matches r q.token)
      then ok refused
      else ok (released_change (terminated r o))
]

-- The settlement of a reservation that no execution has used.
abbrev pub unused_reservation : JobOutcome → SettlementIntent
unused_reservation o = record {
  outcome = o;
  actual = record { unit = requests; amount = 0 } ∷ [];
  event = none;
}

-- `_queued_terminal`
unfoldable pub queued_terminal : AdmissionRecord → JobOutcome → AdmissionChange
queued_terminal r o =
    if r.budget_reserved
    then record (written (record r {
      state = settling;
      token = "recovery";
      settlement = some (unused_reservation o);
    })) { handoff = some false }
    else released_change (terminated r o)

abbrev pub expects_other : AdmissionRecord → Option JobEnvelope → Bool
expects_other r none = false
expects_other r (some e) = not (same_envelope r.envelope e)

-- `_claim`
unfoldable pub claim : AdmissionRecord → AdmissionTransition → AdmissionChange
unfolding queued_terminal
claim r q =
    if not (is_queued r.state)
    then refused
    else if expects_other r q.expected_envelope
    then refused
    else if leb r.envelope.deadline q.now
    then queued_terminal r outcome_expired
    else if ltb q.now r.not_before || not (same_stage r.stage q.stage)
    then refused
    else record (written (record r { state = running; token = q.token; attempt = r.attempt + 1 })) {
      handoff = some false;
    }

abbrev pub is_media : JobStage → Bool
is_media media = true
is_media browser = false

-- `_require_stage_handoff`
unfoldable pub require_stage_handoff : AdmissionRecord → AdmissionTransition → Result (Unit {0})
require_stage_handoff r q = do
  raise_if (not (str_eq r.token q.token)) value_error
  raise_if (not (is_media r.stage) || is_media q.stage) value_error

-- `_handoff`
unfoldable pub handoff_stage : AdmissionRecord → AdmissionTransition → Result AdmissionChange
unfolding require_stage_handoff
handoff_stage r q =
    if not (is_running r.state)
    then ok refused
    else (require_stage_handoff r q
        >> ok
            (record (written (record r {
              state = accepted;
              stage = q.stage;
              token = "";
              published = 0;
              publication_registered = 0;
              retry_at = 0;
              not_before = 0;
            })) { handoff = some true }))

-- `register_publication` has refused every instant but a finite one that is not negative.
abbrev pub stored_instant : Instant → Timestamp
stored_instant (at t) = t
stored_instant negative = 0
stored_instant nonfinite = 0

abbrev pub expects_this : AdmissionRecord → Option JobEnvelope → Bool
expects_this r none = false
expects_this r (some e) = same_envelope r.envelope e

-- `_register`
unfoldable pub register : AdmissionRecord → AdmissionTransition → Result AdmissionChange
register r q =
    if not (expects_this r q.expected_envelope)
    then err value_error
    else if r.published == 1 || not (is_accepted r.state)
    then ok (unchanged r)
    else if not (r.publication_registered == 0)
    then ok (record (unchanged r) { should_publish = true })
    else ok
        (record (unchanged
          (record r { not_before = stored_instant q.not_before; publication_registered = 1 })) {
            write = true;
            publication_state = published_now;
            should_publish = true;
          })

-- `_cancel`
unfoldable pub cancel : AdmissionRecord → AdmissionChange
unfolding queued_terminal
cancel r =
    if is_running r.state
    then written (record r { state = cancelling })
    else if is_queued r.state
    then queued_terminal r cancelled
    else unchanged r

abbrev pub is_quiet_outcome : Option JobOutcome → Bool
is_quiet_outcome none = false
is_quiet_outcome (some o) = same_outcome o complete || same_outcome o cancelled

abbrev pub is_busy : TicketState → Bool
is_busy delivery_uncertain = true
is_busy settling = true
is_busy cancelling = true
is_busy _ = false

-- `_failure_notice`
unfoldable pub claim_failure_notice : AdmissionRecord → AdmissionChange
claim_failure_notice r =
    if r.failure_notice_claimed || r.terminal_notice_claimed
    then unchanged r
    else if is_busy r.state
    then unchanged r
    else if is_quiet_outcome r.outcome
    then unchanged r
    else written (record r { failure_notice_claimed = true })

-- `_notice`
unfoldable pub claim_notice : AdmissionRecord → Option NoticeKind → Result AdmissionChange
unfolding claim_failure_notice
claim_notice r none = err type_error
claim_notice r (some failure_notice) = ok (claim_failure_notice r)
claim_notice r (some delayed_notice) = ok (
    if not (is_waiting r.state) || not r.delayed_notice_requested || r.delayed_notice_claimed
    then unchanged r
    else written (record r { delayed_notice_claimed = true }))
claim_notice r (some terminal_notice) = ok (
    if not (is_terminal r.state) || not r.terminal_notice_requested || r.terminal_notice_claimed
    then unchanged r
    else written (record r { terminal_notice_claimed = true }))

-- `_republish`
unfoldable pub republish : AdmissionRecord → AdmissionTransition → AdmissionChange
republish r q =
    if not (is_queued r.state)
    then unchanged r
    else if not (same_attempt r q)
    then unchanged r
    else if not (leb (max r.not_before r.retry_at) q.now && ltb q.now r.envelope.deadline)
    then unchanged r
    else written (record r { retry_at = q.now + recovery_retry })

-- The `ENQUEUED` case of `_acknowledge`.
unfoldable pub mark_enqueued : AdmissionRecord → AdmissionTransition → AdmissionChange
mark_enqueued r q =
    if is_accepted r.state && same_attempt r q
    then record (unchanged (record r { state = enqueued })) { write = true; handoff = some false }
    else unchanged r

-- The `PUBLISHED` case of `_acknowledge`.
unfoldable pub mark_published : AdmissionRecord → AdmissionTransition → AdmissionChange
mark_published r q =
    if not (is_terminal r.state) && same_attempt r q
    then written (record r { published = 1 })
    else unchanged r

-- The `RESERVED` case of `_execution_change`.
unfoldable pub mark_reserved : AdmissionRecord → AdmissionTransition → AdmissionChange
mark_reserved r q =
    if not (is_running r.state || is_cancelling r.state) || not (str_eq r.token q.token)
    then refused
    else written (record r { budget_reserved = true })

abbrev pub is_scheduled : AdmissionRecord → Instant → Option Timestamp
is_scheduled r (at t) =
    if leb r.envelope.accepted_at t && ltb t r.envelope.deadline then some t else none
is_scheduled r negative = none
is_scheduled r nonfinite = none

abbrev pub deferred : AdmissionRecord → Timestamp → AdmissionRecord
deferred r t = record r {
  state = waiting;
  budget_reserved = false;
  delayed_notice_requested = true;
  token = "";
  not_before = t;
  published = 0;
  publication_registered = 0;
  retry_at = 0;
}

-- `_defer`
unfoldable pub defer : AdmissionRecord → AdmissionTransition → Result AdmissionChange
defer r q =
    if not (is_running r.state) || not (str_eq r.token q.token)
    then ok refused
    else if r.budget_reserved
    then ok refused
    else elim (is_scheduled r q.not_before) [
      | none ↦ err value_error
      | some t ↦ ok (written (deferred r t))
    ]

-- `_delivery`
unfoldable pub begin_delivery : AdmissionRecord → AdmissionTransition → AdmissionChange
begin_delivery r q =
    if not (is_running r.state) || not (str_eq r.token q.token)
    then refused
    else if leb r.envelope.deadline q.now
    then refused
    else written (record r { state = delivery_uncertain })

-- `record.settlement is not None and record.settlement != intent`
abbrev pub disagrees : Option SettlementIntent → SettlementIntent → Bool
disagrees none i = false
disagrees (some old) i = not (same_intent old i)

abbrev pub prepared : AdmissionRecord → SettlementIntent → AdmissionRecord
prepared r i = record r { state = settling; settlement = some i }

-- The end of `_prepare`. Pydantic reports what a validator raises as a `ValidationError`, which is a
-- `ValueError`.
unfoldable pub record_settlement : AdmissionRecord → SettlementIntent → Result AdmissionChange
record_settlement r i =
    if disagrees r.settlement i then err conflict else elim (validate_record (prepared r i)) [
      | ok _ ↦ ok (written (prepared r i))
      | err _ ↦ err value_error
    ]

-- `_prepare`
unfoldable pub prepare : AdmissionRecord → AdmissionTransition → Result AdmissionChange
unfolding record_settlement
prepare r q =
    if not (str_eq r.token q.token) || not (has_token q.token)
    then ok refused
    else if not (is_owned r.state)
    then ok refused
    else elim q.settlement [ none ↦ err type_error | some i ↦ record_settlement r i ]

unfoldable pub dispatch :
    AdmissionOperation → AdmissionRecord → AdmissionTransition → Result AdmissionChange
unfolding claim handoff_stage finish register cancel mark_reserved defer begin_delivery prepare
    claim_notice republish mark_enqueued mark_published
dispatch claim_op r q = ok (claim r q)
dispatch handoff_op r q = handoff_stage r q
dispatch finish_op r q = finish r q
dispatch register_op r q = register r q
dispatch cancel_op r q = ok (cancel r)
dispatch reserved_op r q = ok (mark_reserved r q)
dispatch defer_op r q = defer r q
dispatch delivery_op r q = ok (begin_delivery r q)
dispatch prepare_op r q = prepare r q
dispatch notice_op r q = claim_notice r q.notice
dispatch republish_op r q = ok (republish r q)
dispatch enqueued_op r q = ok (mark_enqueued r q)
dispatch published_op r q = ok (mark_published r q)

-- `calculate_change`, `_execution_change` and `_acknowledge`: one case for each operation.
unfoldable pub calculate_change : AdmissionRecord → AdmissionTransition → Result AdmissionChange
unfolding dispatch
calculate_change r q = dispatch q.operation r q
