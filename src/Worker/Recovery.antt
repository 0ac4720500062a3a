-- ===== src/Worker/Recovery.antt =====
-- src/hovorunv2/application/jobs/feature_job_runner.py: `recover` and what it clears. The pages of
-- tickets that it goes through are answers of the server.
use hovorun_v.Prelude.{
  ℕ, ◌+◌, Bool, true, false, not, ◌||◌, Option, none, some, List, [], ◌∷◌, String, if◌then◌else◌,
  leb,
}
use hovorun_v.Domain.{Timestamp}
use hovorun_v.Feature.Commands.{FeatureEmergencyState, resolve_emergency_key}
use hovorun_v.Admission.Record.{
  AdmissionTicket, is_queued, is_running, is_terminal, is_cancelling, terminal_notice,
}
use hovorun_v.Admission.Reads.{keep_family}
use hovorun_v.Admission.Client.{cancel_call}
use hovorun_v.Worker.Action.{Action, pure, ◌>>=◌, ◌>>◌}
use hovorun_v.Worker.World.{
  Ports, World, timeout_text, payload_deleted, page_read, pending_read, disabled_read, ask, now,
  transact, read_ticket, finish_budget,
}
use hovorun_v.Worker.Lifecycle.{recover_tickets}
use hovorun_v.Worker.Notices.{notify}

-- `self._admission.get(job_id) or ticket`
abbrev found_or : AdmissionTicket → Option AdmissionTicket → AdmissionTicket
found_or t none = t
found_or t (some u) = u

module _ (p : Ports) where
  -- The loop of `_notify_expired_notices`.
  unfoldable pub notify_each : Timestamp → List AdmissionTicket → Action World ℕ
  unfolding notify
  notify_each time [] = pure 0
  notify_each time (t ∷ ts) =
      if not (is_queued t.state) || not (leb t.envelope.deadline time)
      then notify_each time ts
      else (do
        notify p t.envelope terminal_notice timeout_text
        rest ← notify_each time ts
        pure (1 + rest))

  -- `_notify_expired_notices`
  unfoldable pub notify_expired_notices : Action World ℕ
  unfolding now ask notify_each
  notify_expired_notices = do
    time ← now p
    page ← ask p page_read p.recovery_page
    notify_each time page

  -- The loop of `pending_for_feature`.
  unfoldable pub read_pending : String → List String → Action World (List AdmissionTicket)
  unfolding read_ticket resolve_emergency_key
  read_pending key [] = pure []
  read_pending key (id ∷ ids) = do
    found ← read_ticket p id
    rest ← read_pending key ids
    pure (keep_family key found rest)

  -- `self._admission.pending_for_feature(feature)`
  unfoldable pub pending_for_feature : String → Action World (List AdmissionTicket)
  unfolding ask read_pending resolve_emergency_key
  pending_for_feature feature = do
    ids ← ask p (pending_read feature) p.pending_ids
    read_pending (resolve_emergency_key feature) ids

  -- `terminal` of `_clear_feature`; the clock is read for a ticket that is being cancelled only.
  unfoldable pub has_stopped : AdmissionTicket → Action World Bool
  unfolding now
  has_stopped t =
      if is_terminal t.state
      then pure true
      else (if not (is_cancelling t.state)
          then pure false
          else (do time ← now p; pure (leb t.envelope.deadline time)))

  -- What `_clear_feature` does with a ticket that has stopped.
  unfoldable pub clear_stopped : AdmissionTicket → String → Action World (Unit {0})
  unfolding ask now finish_budget
  clear_stopped t id = do
    ask p (payload_deleted t.envelope.payload_ref) p.delete
    if not t.budget_reserved
        then pure tt
        else (do time ← now p; finish_budget p id [] time; pure tt)

  -- What `_clear_feature` does with each ticket.
  unfoldable pub clear_ticket : AdmissionTicket → Action World (Unit {0})
  unfolding transact read_ticket has_stopped clear_stopped
  clear_ticket t = do
    let id = t.envelope.job_id
    if is_queued t.state || is_running t.state
        then (transact p (cancel_call id) >> pure tt)
        else pure tt
    found ← read_ticket p id
    let updated = found_or t found
    stopped ← has_stopped updated
    if stopped then clear_stopped updated id else pure tt

  unfoldable pub clear_each : List AdmissionTicket → Action World ℕ
  unfolding clear_ticket
  clear_each [] = pure 0
  clear_each (t ∷ ts) = do clear_ticket t; rest ← clear_each ts; pure (1 + rest)

  -- `_clear_feature`
  unfoldable pub clear_feature : String → Action World ℕ
  unfolding pending_for_feature clear_each
  clear_feature feature = do page ← pending_for_feature feature; clear_each page

  unfoldable pub clear_features : List FeatureEmergencyState → Action World ℕ
  unfolding clear_feature
  clear_features [] = pure 0
  clear_features (s ∷ ss) = do
    cleared ← clear_feature s.feature_key
    rest ← clear_features ss
    pure (cleared + rest)

  -- `_clear_disabled_features`
  unfoldable pub clear_disabled_features : Action World ℕ
  unfolding ask clear_features
  clear_disabled_features = do
    states ← ask p disabled_read p.disabled_features
    clear_features states

  -- `FeatureJobRunner.recover`
  unfoldable pub recover_jobs : Action World ℕ
  unfolding notify_expired_notices recover_tickets clear_disabled_features
  recover_jobs = do
    notified ← notify_expired_notices
    recovered ← recover_tickets p
    cleared ← clear_disabled_features
    pure (notified + recovered + cleared)
