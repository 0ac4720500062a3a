-- ===== src/Worker/Lifecycle.antt =====
-- src/hovorunv2/application/jobs/worker_lifecycle_service.py: `WorkerLifecycleService`. The actor that
-- an audit entry names is left out.
use hovorun_v.Prelude.{
  ℕ, ◌+◌, Bool, true, false, not, ◌&&◌, Option, none, some, List, [], ◌∷◌, String, str_eq, decided,
  if◌then◌else◌, ltb, leb, unavailable,
}
use hovorun_v.Domain.{Timestamp, at}
use hovorun_v.Usage.Budgets.{UnitAmount, ReservationState, committed, released}
use hovorun_v.Usage.Ledger.{UsageEvent}
use hovorun_v.Jobs.Settlement.{SettlementIntent, SettlementIntent-discrete}
use hovorun_v.Admission.Record.{AdmissionTicket, is_queued, is_settling, is_terminal}
use hovorun_v.Admission.Client.{
  prepare_settlement_call, finish_call, claim_stage_call, allow_republication_call, ticket_answer,
  succeeded,
}
use hovorun_v.Worker.Action.{Action, pure, raise, ◌>>=◌, ◌>>◌, unless_none, catching}
use hovorun_v.Worker.World.{
  Ports, World, receipt_applied, page_read, stage_published, ask, now, transact, read_ticket,
  finish_budget, expire_stale,
}

abbrev same_owner_token : Option String → Option String → Bool
same_owner_token none none = true
same_owner_token (some a) (some b) = str_eq a b
same_owner_token none (some b) = false
same_owner_token (some a) none = false

abbrev same_settlement : Option SettlementIntent → Option SettlementIntent → Bool
same_settlement none none = true
same_settlement (some a) (some b) = decided (SettlementIntent-discrete a b)
same_settlement none (some b) = false
same_settlement (some a) none = false

-- `(current.token, current.settlement) == (ticket.token, ticket.settlement)`
unfoldable pub same_proof : AdmissionTicket → AdmissionTicket → Bool
same_proof a b = same_owner_token a.token b.token && same_settlement a.settlement b.settlement

-- `decision.state in {COMMITTED, RELEASED}`
abbrev pub is_settled : ReservationState → Bool
is_settled committed = true
is_settled released = true
is_settled _ = false

module _ (p : Ports) where
  -- `_current_settlement`
  unfoldable pub current_settlement : AdmissionTicket → Action World AdmissionTicket
  unfolding read_ticket same_proof
  current_settlement t = do
    found ← read_ticket p t.envelope.job_id
    unless_none found (raise unavailable)
        λ current. if same_proof current t then pure current else raise unavailable

  -- `if intent.event is not None`
  unfoldable pub apply_receipt : Option UsageEvent → Action World (Unit {0})
  unfolding ask
  apply_receipt none = pure tt
  apply_receipt (some event) = ask p (receipt_applied event) p.apply_batch

  -- `if intent.actual`
  unfoldable pub settle_budget : String → List UnitAmount → Action World (Unit {0})
  unfolding now finish_budget
  settle_budget id [] = pure tt
  settle_budget id (a ∷ rest) = do
    time ← now p
    d ← finish_budget p id (a ∷ rest) time
    if is_settled d.state then pure tt else raise unavailable

  -- The end of `reconcile`, once the ticket is known to settle.
  unfoldable pub settle : AdmissionTicket → SettlementIntent → String → Action World (Unit {0})
  unfolding apply_receipt settle_budget transact
  settle t intent token = do
    apply_receipt intent.event
    settle_budget t.envelope.job_id intent.actual
    done ← transact p (finish_call t.envelope.job_id intent.outcome (some token))
    unless_none (ticket_answer done) (raise unavailable) λ _. pure tt

  unfoldable pub reconcile : AdmissionTicket → Action World (Unit {0})
  unfolding current_settlement settle
  reconcile t = do
    current ← current_settlement t
    if is_terminal current.state
        then pure tt
        else (if not (is_settling current.state)
            then raise unavailable
            else unless_none current.settlement (raise unavailable) λ intent.
              unless_none current.token (raise unavailable) λ token. settle current intent token)

  unfoldable pub complete_job : String → String → SettlementIntent → Action World (Unit {0})
  unfolding transact reconcile
  complete_job id token intent = do
    prepared ← transact p (prepare_settlement_call id token intent)
    unless_none (ticket_answer prepared) (raise unavailable) reconcile

  -- The case of `_recover_ticket` after the deadline.
  unfoldable pub expire_ticket : AdmissionTicket → Timestamp → Action World ℕ
  unfolding transact read_ticket reconcile
  expire_ticket t time = do
    transact p (claim_stage_call t.envelope.job_id t.stage (at time) "expiry" none)
    found ← read_ticket p t.envelope.job_id
    unless_none found (pure tt)
        λ expired. if is_settling expired.state then reconcile expired else pure tt
    pure 1

  -- The case of `_recover_ticket` within the deadline.
  unfoldable pub republish_ticket : AdmissionTicket → Timestamp → Action World ℕ
  unfolding transact ask
  republish_ticket t time = do
    allowed ← transact p (allow_republication_call t (at time))
    if not (succeeded allowed) then pure 0 else (do
      sent ← ask p (stage_published t.envelope t.stage) p.publish_stage
      pure (if sent then 1 else 0))

  -- `_recover_ticket`
  unfoldable pub recover_ticket : AdmissionTicket → Action World ℕ
  unfolding now reconcile expire_ticket republish_ticket
  recover_ticket t =
      if is_settling t.state
      then (reconcile t >> pure 1)
      else (if not (is_queued t.state) then pure 0 else (do
        time ← now p
        if leb t.envelope.deadline time
            then expire_ticket t time
            else (if ltb time t.not_before then pure 0 else republish_ticket t time)))

  -- The loop of `recover`: what a ticket raises is logged.
  unfoldable pub recover_each : List AdmissionTicket → Action World ℕ
  unfolding recover_ticket
  recover_each [] = pure 0
  recover_each (t ∷ ts) = do
    n ← catching (recover_ticket t) (λ e. pure 0)
    rest ← recover_each ts
    pure (n + rest)

  -- `WorkerLifecycleService.recover`
  unfoldable pub recover_tickets : Action World ℕ
  unfolding ask recover_each now expire_stale
  recover_tickets = do
    page ← ask p page_read p.recovery_page
    recovered ← recover_each page
    reclaimed ← catching (do time ← now p; expire_stale p time) (λ e. pure 0)
    pure (recovered + reclaimed)
