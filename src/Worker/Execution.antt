-- ===== src/Worker/Execution.antt =====
-- src/hovorunv2/application/jobs/feature_job_runner.py: a job from its extraction to its delivery, and
-- `run`. Captions and their translation are an answer of a port.
use hovorun_v.Prelude.{
  ◌-◌, ◌/◌, not, Option, none, some, is_some, [], ◌∷◌, map, String, if◌then◌else◌, ok, is_ok, leb,
}
use hovorun_v.Domain.{Timestamp, at, second}
use hovorun_v.Usage.Policies.{UsagePolicy, ResolvedUsage, requests}
use hovorun_v.Usage.Budgets.{is_allowed}
use hovorun_v.Usage.Ledger.{UsageCharge}
use hovorun_v.Jobs.Envelope.{
  JobEnvelope, validate_envelope, complete, outcome_expired, failed, cancelled,
}
use hovorun_v.Jobs.Settlement.{SettlementIntent, validate_intent}
use hovorun_v.Feature.Registry.{FeatureDefinition}
use hovorun_v.Feature.Commands.{capture, envelope_is_current}
use hovorun_v.Admission.Record.{JobStage, is_cancelling, delayed_notice, terminal_notice}
use hovorun_v.Admission.Client.{
  claim_stage_call, finish_call, mark_reserved_call, begin_delivery_call, claimed, ticket_answer,
}
use hovorun_v.Worker.Action.{Action, pure, raise, lift, ◌>>=◌, ◌>>◌, unless_none, catching}
use hovorun_v.Worker.World.{
  Ports, World, timeout_text, delayed_text, extraction_failure_text, MediaPayload, MediaClient,
  Delivery, delivery_accepted, delivery_unknown, delivery_rejected, delivery_broken, noted,
  emergency_read, target_checked, access_evaluated, usage_resolved, payload_translated,
  media_delivered, ask, now, token_hex, transact, read_ticket,
}
use hovorun_v.Worker.Lifecycle.{complete_job}
use hovorun_v.Worker.Notices.{
  outcome_value, uncertain_value, delayed_notice_after, notify, notify_application_failure,
}
use hovorun_v.Worker.Runner.{
  group_of, complete_zero, load_payload, handle_unavailable_payload, reserve_execution_budget,
  handle_denied_reservation,
}
use hovorun_v.Worker.Extraction.{
  Extracted, obtained, handed_off, timed_out, not_extracted, extract_stage,
}

abbrev charge_of : UsagePolicy → UsageCharge
charge_of u = record { bucket = u.bucket; amount = 1; unit = u.unit; window = u.window }

-- The intent of `_settlement_intent`.
unfoldable pub delivered_intent : JobEnvelope → ResolvedUsage → Timestamp → SettlementIntent
delivered_intent e usage time = record {
  outcome = complete;
  actual = record { unit = requests; amount = 1 } ∷ [];
  event = some (record {
    event_id = e.job_id;
    subject = record { kind = e.charged_kind; telegram_id = e.charged_telegram_id };
    occurred_at = time / second;
    charges = map charge_of usage.policies;
  });
}

module _ (p : Ports) where
  -- `_settlement_intent`; the dataclasses and pydantic check what it makes.
  unfoldable pub settlement_intent :
      JobEnvelope → FeatureDefinition → Timestamp → Action World SettlementIntent
  unfolding ask delivered_intent validate_intent
  settlement_intent e d time = do
    usage ← ask p (usage_resolved d.key e.trigger e.actor_id (group_of e)) p.resolve
    lift (validate_intent (delivered_intent e usage time))
    pure (delivered_intent e usage time)

  -- `_check_post_extraction_gates`; the client names the provider.
  unfoldable pub check_gates :
      JobEnvelope → MediaPayload → MediaClient → Action World (Option FeatureDefinition)
  unfolding ask capture
  check_gates e m c = do
    active ← ask p (target_checked e.target) p.active_target
    if not active then pure none else (do
      d ← lift (capture p.registry c.name m.is_video)
      allowed ← ask p (access_evaluated d.key e.target.telegram_id e.actor_id e.trigger) p.evaluate
      pure (if allowed then some d else none))

  abbrev pub deliver_now : JobEnvelope → MediaPayload → Action World (Option Delivery)
  deliver_now e m w =
      (ok (some (p.deliver (media_delivered e m ∷ w.trace))), noted (media_delivered e m) w)

  -- `begin_delivery` and the delivery that it fences.
  unfoldable pub fenced_delivery :
      JobEnvelope → MediaPayload → String → Timestamp → Action World (Option Delivery)
  unfolding transact
  fenced_delivery e m token time = do
    begun ← transact p (begin_delivery_call e.job_id token (at time))
    unless_none (ticket_answer begun) (pure none) λ _. deliver_now e m

  -- What `_deliver_and_account` makes of a delivery.
  unfoldable pub account_delivery :
      JobEnvelope → FeatureDefinition → String → Timestamp → Delivery → Action World String
  unfolding settlement_intent complete_job complete_zero outcome_value
  account_delivery e d token time delivery_accepted = do
    intent ← settlement_intent e d time
    complete_job p e.job_id token intent
    pure (outcome_value complete)
  account_delivery e d token time delivery_unknown = pure uncertain_value
  account_delivery e d token time delivery_rejected = do
    complete_zero p e.job_id token failed
    pure (outcome_value failed)
  account_delivery e d token time (delivery_broken x) = raise x

  -- `_deliver_and_account`
  unfoldable pub deliver_and_account :
      JobEnvelope → MediaPayload → FeatureDefinition → String → Timestamp → Action World String
  unfolding ask now fenced_delivery account_delivery complete_zero outcome_value
  deliver_and_account e m d token time = do
    translated ← ask p (payload_translated m e.target.telegram_id) p.translate
    current ← now p
    done ← fenced_delivery e translated token current
    unless_none done (complete_zero p e.job_id token cancelled >> pure (outcome_value cancelled))
        (account_delivery e d token time)

  -- `_finish_extraction`
  unfoldable pub finish_extraction :
      JobEnvelope → String → Timestamp → MediaPayload → MediaClient → Action World String
  unfolding check_gates complete_zero deliver_and_account outcome_value
  finish_extraction e token time m c = do
    d ← check_gates e m c
    unless_none d (complete_zero p e.job_id token complete >> pure (outcome_value complete))
        (λ d. deliver_and_account e m d token time)

  -- What `_extract_and_deliver` makes of an extraction.
  unfoldable pub conclude_extraction :
      JobEnvelope → String → Timestamp → Extracted → Action World String
  unfolding finish_extraction complete_zero notify outcome_value
  conclude_extraction e token time (obtained m c) = finish_extraction e token time m c
  conclude_extraction e token time handed_off = pure (outcome_value complete)
  conclude_extraction e token time timed_out = do
    complete_zero p e.job_id token outcome_expired
    notify p e terminal_notice timeout_text
    pure (outcome_value outcome_expired)
  conclude_extraction e token time not_extracted = do
    complete_zero p e.job_id token failed
    notify p e terminal_notice extraction_failure_text
    pure (outcome_value failed)

  -- `_extract_and_deliver`
  unfoldable pub extract_and_deliver :
      JobEnvelope → String → JobStage → String → Timestamp → Action World String
  unfolding extract_stage conclude_extraction
  extract_and_deliver e bytes stage token time = do
    found ← extract_stage p e bytes stage token
    conclude_extraction e token time found

  -- The delayed notice of `_execute_reserved`.
  unfoldable pub notify_delay : JobEnvelope → Timestamp → Action World (Unit {0})
  unfolding notify
  notify_delay e time =
      if leb delayed_notice_after (time - e.accepted_at)
      then notify p e delayed_notice delayed_text
      else pure tt

  -- `_execute_reserved`
  unfoldable pub execute_reserved :
      JobEnvelope → String → JobStage → String → Timestamp → Action World String
  unfolding transact complete_zero notify_delay ask envelope_is_current extract_and_deliver
      outcome_value
  execute_reserved e bytes stage token time = do
    marked ← transact p (mark_reserved_call e.job_id token)
    unless_none (ticket_answer marked) (pure (outcome_value failed)) λ t.
        if is_cancelling t.state
        then (complete_zero p e.job_id token cancelled >> pure (outcome_value cancelled))
        else (do
          notify_delay e time
          state ← ask p (emergency_read e.feature) p.emergency_state
          if not (envelope_is_current e.feature_epoch state)
              then (complete_zero p e.job_id token cancelled >> pure (outcome_value cancelled))
              else extract_and_deliver e bytes stage token time)

  -- What `_execute_claimed` does within its `try`.
  unfoldable pub execute_loaded : JobEnvelope → JobStage → String → Action World String
  unfolding load_payload handle_unavailable_payload now reserve_execution_budget
      handle_denied_reservation execute_reserved
  execute_loaded e stage token = do
    loaded ← load_payload p e token
    unless_none loaded (handle_unavailable_payload p e.job_id) λ payload.
        unless_none payload.data_bytes (handle_unavailable_payload p e.job_id) λ bytes. do
          time ← now p
          d ← reserve_execution_budget p e time
          if is_allowed d
              then execute_reserved e bytes stage token time
              else handle_denied_reservation p e token d

  -- `_execute_claimed`
  unfoldable pub execute_claimed : JobEnvelope → JobStage → String → Action World String
  unfolding execute_loaded notify_application_failure outcome_value
  execute_claimed e stage token =
      catching (execute_loaded e stage token)
        (λ _. notify_application_failure p e >> pure (outcome_value failed))

  -- `_finish_expired_unclaimed`
  unfoldable pub finish_expired_unclaimed : JobEnvelope → Action World (Unit {0})
  unfolding transact notify
  finish_expired_unclaimed e = do
    catching (transact p (finish_call e.job_id outcome_expired none) >> pure tt) (λ _. pure tt)
    notify p e terminal_notice timeout_text

  -- `_parse_and_claim`: the token of the claim, when there is one.
  unfoldable pub parse_and_claim : JobEnvelope → JobStage → Action World (Option String)
  unfolding now finish_expired_unclaimed token_hex transact
  parse_and_claim e stage = do
    time ← now p
    if leb e.deadline time then (finish_expired_unclaimed e >> pure none) else (do
      token ← token_hex p
      done ← transact p (claim_stage_call e.job_id stage (at time) token (some e))
      pure (if is_some (claimed done) then some token else none))

  -- `_resolve_unclaimed`
  unfoldable pub resolve_unclaimed : JobEnvelope → Action World String
  unfolding read_ticket now outcome_value
  resolve_unclaimed e = do
    found ← read_ticket p e.job_id
    unless_none found (pure (outcome_value failed)) λ t.
        unless_none t.outcome
          (do
            time ← now p
            if leb t.envelope.deadline time
                then pure (outcome_value outcome_expired)
                else (if is_cancelling t.state
                    then pure (outcome_value cancelled)
                    else pure (outcome_value failed)))
          (λ o. pure (outcome_value o))

  -- `_run_envelope`
  unfoldable pub run_envelope : JobEnvelope → JobStage → Action World String
  unfolding parse_and_claim resolve_unclaimed execute_claimed
  run_envelope e stage = do
    token ← parse_and_claim e stage
    unless_none token (resolve_unclaimed e) (execute_claimed e stage)

  -- `FeatureJobRunner.run`, at the fields that the data of an envelope have, if they have its shape.
  unfoldable pub run_job : Option JobEnvelope → JobStage → Action World String
  unfolding validate_envelope run_envelope notify_application_failure outcome_value
  run_job none stage = pure (outcome_value failed)
  run_job (some e) stage =
      if not (is_ok (validate_envelope e))
      then pure (outcome_value failed)
      else catching (run_envelope e stage)
          (λ _. notify_application_failure p e >> pure (outcome_value failed))
