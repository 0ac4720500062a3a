-- ===== src/Worker/Notices.antt =====
-- src/hovorunv2/application/jobs/feature_job_runner.py: the feedback of a worker and the codes that it
-- returns.
use hovorun_v.Prelude.{Bool, true, false, not, none, some, String, if◌then◌else◌}
use hovorun_v.Domain.{Timestamp, seconds}
use hovorun_v.Jobs.Envelope.{
  JobEnvelope, JobOutcome, complete, outcome_expired, payload_unavailable, failed, cancelled,
}
use hovorun_v.Admission.Record.{NoticeKind, delayed_notice, terminal_notice, failure_notice}
use hovorun_v.Admission.Client.{claim_notice_call, succeeded}
use hovorun_v.Worker.Action.{Action, pure, ◌>>=◌, ◌>>◌, unless_none, catching}
use hovorun_v.Worker.World.{
  Ports, World, NoticeText, application_failure_text, feedback_checked, notice_gated, message_sent,
  ask, transact,
}

-- `JobOutcome.value`
unfoldable pub outcome_value : JobOutcome → String
outcome_value complete = "complete"
outcome_value outcome_expired = "expired"
outcome_value payload_unavailable = "payload_unavailable"
outcome_value failed = "failed"
outcome_value cancelled = "cancelled"

-- `TicketState.DELIVERY_UNCERTAIN.value`
abbrev pub uncertain_value : String
uncertain_value = "delivery_uncertain"

-- `ReservationState.WAITING.value`
abbrev pub waiting_value : String
waiting_value = "waiting"

-- `DELAYED_NOTICE_SECONDS`
abbrev pub delayed_notice_after : Timestamp
delayed_notice_after = seconds 20

abbrev is_delayed : NoticeKind → Bool
is_delayed delayed_notice = true
is_delayed terminal_notice = false
is_delayed failure_notice = false

module _ (p : Ports) where
  -- The two messages at the end of `_notify`: one without a reply when the reply is refused.
  unfoldable pub send_notice : JobEnvelope → NoticeText → Action World (Unit {0})
  unfolding ask
  send_notice e text = do
    sent ← ask p (message_sent e.target.telegram_id text (some e.message_id)) p.send_message
    unless_none sent (ask p (message_sent e.target.telegram_id text none) p.send_message >> pure tt)
        (λ _. pure tt)

  -- The end of `_notify`, once the gate has let the notice through.
  unfoldable pub claim_and_send : JobEnvelope → NoticeKind → NoticeText → Action World (Unit {0})
  unfolding transact send_notice
  claim_and_send e kind text = do
    claimed ← transact p (claim_notice_call e.job_id kind)
    if succeeded claimed then catching (send_notice e text) (λ _. pure tt) else pure tt

  -- `_notify`
  unfoldable pub notify : JobEnvelope → NoticeKind → NoticeText → Action World (Unit {0})
  unfolding ask claim_and_send
  notify e kind text = do
    allowed ← ask p (feedback_checked e.target) p.feedback_allowed
    if not allowed
        then pure tt
        else (if is_delayed kind
            then (do
              let_through ← ask p (notice_gated e.target) p.claim_delayed
              if let_through then claim_and_send e kind text else pure tt)
            else claim_and_send e kind text)

  -- `_notify_application_failure`
  unfoldable pub notify_application_failure : JobEnvelope → Action World (Unit {0})
  unfolding notify
  notify_application_failure e =
      catching (notify e failure_notice application_failure_text) (λ _. pure tt)
