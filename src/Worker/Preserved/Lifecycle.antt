-- ===== src/Worker/Preserved/Lifecycle.antt =====
-- Proofs that the methods of worker_lifecycle_service.py, and the feedback of feature_job_runner.py,
-- keep what every single step keeps.
use hovorun_v.Prelude.{◌+◌, Option, none, some, List, [], ◌∷◌, String}
use hovorun_v.Domain.{Timestamp}
use hovorun_v.Usage.Budgets.{UnitAmount}
use hovorun_v.Usage.Ledger.{UsageEvent}
use hovorun_v.Jobs.Envelope.{JobEnvelope}
use hovorun_v.Jobs.Settlement.{SettlementIntent}
use hovorun_v.Admission.Record.{AdmissionTicket, NoticeKind}
use hovorun_v.Worker.Action.Keeps.{Keeps, pure-Keeps, bind-Keeps, catching-Keeps}
use hovorun_v.Worker.World.{Ports, World, NoticeText}
use hovorun_v.Worker.Lifecycle.{
  current_settlement, apply_receipt, settle_budget, settle, reconcile, complete_job, expire_ticket,
  republish_ticket, recover_ticket, recover_each, recover_tickets,
}
use hovorun_v.Worker.Notices.{send_notice, claim_and_send, notify, notify_application_failure}
use hovorun_v.Worker.Preserved.{IsPreserved, steps, expire_stale-Keeps}

module _ (p : Ports) (P : World → Type 0) (k : IsPreserved p P) where
  current_settlement-Keeps : (t : AdmissionTicket) → Keeps P (current_settlement p t)
  unfolding current_settlement
  current_settlement-Keeps t = search (steps) depth 16

  pub apply_receipt-Keeps : (event : Option UsageEvent) → Keeps P (apply_receipt p event)
  unfolding apply_receipt
  apply_receipt-Keeps none = search steps
  apply_receipt-Keeps (some event) = search steps

  pub settle_budget-Keeps :
      (id : String) (actual : List UnitAmount) → Keeps P (settle_budget p id actual)
  unfolding settle_budget
  settle_budget-Keeps id [] = search steps
  settle_budget-Keeps id (a ∷ rest) = search steps

  settle-Keeps :
      (t : AdmissionTicket) (i : SettlementIntent) (token : String) → Keeps P (settle p t i token)
  unfolding settle
  settle-Keeps t i token = search (steps, apply_receipt-Keeps, settle_budget-Keeps) depth 16

  reconcile-Keeps : (t : AdmissionTicket) → Keeps P (reconcile p t)
  unfolding reconcile
  reconcile-Keeps t = search (steps, current_settlement-Keeps, settle-Keeps) depth 16

  pub complete_job-Keeps :
      (id token : String) (i : SettlementIntent) → Keeps P (complete_job p id token i)
  unfolding complete_job
  complete_job-Keeps id token i = search (steps, reconcile-Keeps) depth 16

  expire_ticket-Keeps : (t : AdmissionTicket) (time : Timestamp) → Keeps P (expire_ticket p t time)
  unfolding expire_ticket
  expire_ticket-Keeps t time = search (steps, reconcile-Keeps) depth 16

  republish_ticket-Keeps :
      (t : AdmissionTicket) (time : Timestamp) → Keeps P (republish_ticket p t time)
  unfolding republish_ticket
  republish_ticket-Keeps t time = search (steps) depth 16

  recover_ticket-Keeps : (t : AdmissionTicket) → Keeps P (recover_ticket p t)
  unfolding recover_ticket
  recover_ticket-Keeps t =
      search (steps, reconcile-Keeps, expire_ticket-Keeps, republish_ticket-Keeps) depth 16

  recover_each-Keeps : (ts : List AdmissionTicket) → Keeps P (recover_each p ts)
  unfolding recover_each
  recover_each-Keeps [] = search steps
  recover_each-Keeps (t ∷ ts) =
      bind-Keeps _ _ (catching-Keeps _ _ (recover_ticket-Keeps t) λ e. pure-Keeps 0)
        λ n. bind-Keeps _ _ (recover_each-Keeps ts) λ rest. pure-Keeps (n + rest)

  pub recover_tickets-Keeps : Keeps P (recover_tickets p)
  unfolding recover_tickets
  recover_tickets-Keeps = search (steps, recover_each-Keeps, expire_stale-Keeps) depth 16

  send_notice-Keeps : (e : JobEnvelope) (text : NoticeText) → Keeps P (send_notice p e text)
  unfolding send_notice
  send_notice-Keeps e text = search (steps) depth 16

  claim_and_send-Keeps :
      (e : JobEnvelope) (kind : NoticeKind) (text : NoticeText)
      → Keeps P (claim_and_send p e kind text)
  unfolding claim_and_send
  claim_and_send-Keeps e kind text = search (steps, send_notice-Keeps) depth 16

  pub notify-Keeps :
      (e : JobEnvelope) (kind : NoticeKind) (text : NoticeText) → Keeps P (notify p e kind text)
  unfolding notify
  notify-Keeps e kind text = search (steps, claim_and_send-Keeps) depth 16

  pub notify_application_failure-Keeps :
      (e : JobEnvelope) → Keeps P (notify_application_failure p e)
  unfolding notify_application_failure
  notify_application_failure-Keeps e = search (steps, notify-Keeps) depth 16
