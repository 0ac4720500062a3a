-- ===== src/Worker/Runner.antt =====
-- src/hovorunv2/application/jobs/feature_job_runner.py: a job from its claim to its reservation.
use hovorun_v.Prelude.{
  ℕ, ℤ, Bool, true, false, Option, none, some, List, [], ◌∷◌, map, String, str_eq, if◌then◌else◌,
  Error, conflict, value_error, Result, ok, err, ltb, ◌/◌, contains,
}
use hovorun_v.Domain.{Timestamp, at, is_group, second}
use hovorun_v.Usage.Policies.{UsageUnit, UsageUnit-discrete, UsagePolicy, ResolvedUsage, requests}
use hovorun_v.Usage.Budgets.{
  UnitAmount, BudgetRequest, ReservationDecision, ReservationState, waiting, expired, impossible,
  unavailable, validate_request,
}
use hovorun_v.Usage.Ledger.{AccountingSubject, validate_subject}
use hovorun_v.Jobs.Envelope.{
  JobEnvelope, JobOutcome, outcome_expired, payload_unavailable, failed, cancelled,
}
use hovorun_v.Jobs.Settlement.{SettlementIntent}
use hovorun_v.Feature.Registry.{FeatureDefinition}
use hovorun_v.Feature.Commands.{CommandName, resolve_provider_command, capture}
use hovorun_v.Admission.Record.{AdmissionTicket, delayed_notice, terminal_notice}
use hovorun_v.Admission.Client.{finish_call, defer_call, ticket_answer}
use hovorun_v.Worker.Action.{Action, pure, raise, lift, ◌>>=◌, ◌>>◌, unless_none, catching}
use hovorun_v.Worker.World.{
  Ports, World, NoticeText, timeout_text, limit_wait_text, limit_failure_text,
  application_failure_text, LoadedPayload, PayloadState, ready, expired_payload, payload_loaded,
  usage_resolved, total_read, ask, transact, read_ticket, ask_budget,
}
use hovorun_v.Worker.Lifecycle.{complete_job}
use hovorun_v.Worker.Notices.{outcome_value, waiting_value, notify, notify_application_failure}

abbrev is_ready : PayloadState → Bool
is_ready ready = true
is_ready _ = false

abbrev is_expired_payload : PayloadState → Bool
is_expired_payload expired_payload = true
is_expired_payload _ = false

-- `envelope.target.telegram_id if envelope.target.kind == TargetKind.GROUP else None`
abbrev pub group_of : JobEnvelope → Option ℤ
group_of e = if is_group e.target.kind then some e.target.telegram_id else none

-- `MEDIA_BUCKET`
abbrev pub media_bucket : String
media_bucket = "family:media"

unfoldable pub media_policies : List UsagePolicy → List UsagePolicy
media_policies [] = []
media_policies (u ∷ us) =
    if str_eq u.bucket media_bucket then u ∷ media_policies us else media_policies us

-- `dict.fromkeys(policy.unit for policy in usage.policies)`, of the units that are not seen yet.
unfoldable pub distinct_units : List UsageUnit → List UsagePolicy → List UsageUnit
unfolding UsageUnit-discrete
distinct_units seen [] = []
distinct_units seen (u ∷ us) =
    if contains UsageUnit-discrete u.unit seen
    then distinct_units seen us
    else u.unit ∷ distinct_units (u.unit ∷ seen) us

abbrev pub one_request : UsageUnit → UnitAmount
one_request u = record { unit = u; amount = 1 }

-- `_resolve_provider_command` and the usage of the family that it picks.
abbrev pub family_usage : Option CommandName → ResolvedUsage → ResolvedUsage
family_usage none u = u
family_usage (some provider) u = record u { policies = media_policies u.policies }

abbrev pub zero_intent : JobOutcome → SettlementIntent
zero_intent outcome = record {
  outcome = outcome;
  actual = record { unit = requests; amount = 0 } ∷ [];
  event = none;
}

abbrev is_waiting_decision : ReservationState → Bool
is_waiting_decision waiting = true
is_waiting_decision _ = false

abbrev is_unavailable_decision : ReservationState → Bool
is_unavailable_decision unavailable = true
is_unavailable_decision _ = false

-- The outcome of a reservation that was denied for good.
abbrev denied_outcome : ReservationState → JobOutcome
denied_outcome expired = outcome_expired
denied_outcome waiting = outcome_expired
denied_outcome _ = failed

-- `notices.get(reservation.state, APPLICATION_FAILURE_NOTICE_TEXT)`
abbrev denied_text : ReservationState → NoticeText
denied_text expired = timeout_text
denied_text waiting = limit_failure_text
denied_text impossible = limit_failure_text
denied_text _ = application_failure_text

-- The request of `_reserve_execution_budget`.
abbrev pub budget_request : JobEnvelope → ResolvedUsage → BudgetRequest
budget_request e usage = record {
  reservation_id = e.job_id;
  usage = usage;
  estimates = map one_request (distinct_units [] usage.policies);
  deadline = at e.deadline;
}

module _ (p : Ports) where
  -- `_complete_zero`
  unfoldable pub complete_zero : String → String → JobOutcome → Action World (Unit {0})
  unfolding complete_job
  complete_zero id token outcome = complete_job p id token (zero_intent outcome)

  -- `except AdmissionConflictError`
  abbrev pub log_conflict : Error → Action World (Unit {0})
  log_conflict conflict = pure tt
  log_conflict e = raise e

  abbrev pub is_reserved_ticket : Option AdmissionTicket → Bool
  is_reserved_ticket none = false
  is_reserved_ticket (some t) = t.budget_reserved

  -- `_finish_ticket_safe`
  unfoldable pub finish_ticket_safe : String → String → JobOutcome → Action World (Unit {0})
  unfolding read_ticket complete_zero transact
  finish_ticket_safe id token outcome =
      catching
        (do
          found ← read_ticket p id
          if is_reserved_ticket found
              then complete_zero id token outcome
              else (transact p (finish_call id outcome (some token)) >> pure tt))
        log_conflict

  -- `_load_payload`
  unfoldable pub load_payload : JobEnvelope → String → Action World (Option LoadedPayload)
  unfolding ask finish_ticket_safe notify_application_failure
  load_payload e token = do
    loaded ← ask p (payload_loaded e.payload_ref e.job_id) p.load
    let outcome = if is_expired_payload loaded.state then outcome_expired else payload_unavailable
    let refuse = do
      finish_ticket_safe e.job_id token outcome
      notify_application_failure p e
      pure none
    if is_ready loaded.state
        then unless_none loaded.data_bytes refuse (λ _. pure (some loaded))
        else refuse

  -- `_handle_unavailable_payload`
  unfoldable pub handle_unavailable_payload : String → Action World String
  unfolding read_ticket outcome_value
  handle_unavailable_payload id = do
    found ← read_ticket p id
    unless_none found (pure (outcome_value payload_unavailable)) λ t.
        unless_none t.outcome (pure (outcome_value payload_unavailable)) λ o. pure (outcome_value o)

  unfoldable pub read_totals : AccountingSubject → ℕ → List UsagePolicy → Action World (List ℕ)
  unfolding ask
  read_totals s t [] = pure []
  read_totals s t (u ∷ us) = do
    n ← ask p (total_read s u t) p.usage_total
    rest ← read_totals s t us
    pure (n ∷ rest)

  -- `feature_key` of `_reserve_execution_budget`
  abbrev pub feature_key : JobEnvelope → Option CommandName → Result String
  feature_key e none = ok e.feature
  feature_key e (some provider) = key_of (capture p.registry provider true)
    where
      key_of : Result FeatureDefinition → Result String
      key_of (ok d) = ok d.key
      key_of (err x) = err x

  -- `_reserve_execution_budget`
  unfoldable pub reserve_execution_budget :
      JobEnvelope → Timestamp → Action World ReservationDecision
  unfolding ask read_totals ask_budget resolve_provider_command capture validate_request
      media_policies distinct_units
  reserve_execution_budget e time = do
    let provider = resolve_provider_command e.feature
    key ← lift (feature_key e provider)
    resolved ← ask p (usage_resolved key e.trigger e.actor_id (group_of e)) p.resolve
    let usage = family_usage provider resolved
    let q = budget_request e usage
    lift (validate_request q)
    let subject : AccountingSubject = record {
      kind = usage.subject.kind;
      telegram_id = usage.subject.telegram_id;
    }
    lift (validate_subject subject)
    totals ← read_totals subject (time / second) usage.policies
    ask_budget p q time totals

  -- The end of `_handle_denied_reservation`.
  unfoldable pub refuse_reservation : JobEnvelope → String → ReservationState → Action World String
  unfolding finish_ticket_safe notify outcome_value
  refuse_reservation e token state = do
    finish_ticket_safe e.job_id token (denied_outcome state)
    notify p e terminal_notice (denied_text state)
    pure (outcome_value (denied_outcome state))

  -- The case of `_handle_denied_reservation` that waits for a quota.
  unfoldable pub wait_for_quota : JobEnvelope → String → Timestamp → Action World String
  unfolding transact finish_ticket_safe notify outcome_value
  wait_for_quota e token retry = do
    deferred ← transact p (defer_call e.job_id token (at retry))
    unless_none (ticket_answer deferred)
        (finish_ticket_safe e.job_id token cancelled >> pure (outcome_value cancelled))
        (λ _. notify p e delayed_notice limit_wait_text >> pure waiting_value)

  -- `_handle_denied_reservation`
  unfoldable pub handle_denied_reservation :
      JobEnvelope → String → ReservationDecision → Action World String
  unfolding wait_for_quota refuse_reservation notify_application_failure outcome_value
  handle_denied_reservation e token d =
      if is_waiting_decision d.state
      then (unless_none d.next_eligible_at (raise value_error) λ retry.
          if ltb retry e.deadline
          then wait_for_quota e token retry
          else refuse_reservation e token d.state)
      else (if is_unavailable_decision d.state
          then (notify_application_failure p e >> pure (outcome_value failed))
          else refuse_reservation e token d.state)
