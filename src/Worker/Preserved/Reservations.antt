-- ===== src/Worker/Preserved/Reservations.antt =====
-- Proofs that the methods of feature_job_runner.py keep what every single step keeps: from the claim of a job to its reservation.
use hovorun_v.Prelude.{
  ℕ, refl, List, [], ◌∷◌, String, Error, conflict, value_error, type_error, key_error, unavailable,
  assertion_error,
}
use hovorun_v.Domain.{Timestamp}
use hovorun_v.Usage.Policies.{UsagePolicy}
use hovorun_v.Usage.Budgets.{ReservationDecision, ReservationState}
use hovorun_v.Usage.Ledger.{AccountingSubject}
use hovorun_v.Jobs.Envelope.{JobEnvelope, JobOutcome}
use hovorun_v.Feature.Commands.{resolve_provider_command}
use hovorun_v.Usage.Budgets.{validate_request}
use hovorun_v.Worker.Action.{lift}
use hovorun_v.Worker.Action.Keeps.{Keeps, pure-Keeps, lift-Keeps, bind_lift-Keeps, bind-Keeps}
use hovorun_v.Worker.World.{Ports, World, total_read, usage_resolved}
use hovorun_v.Worker.Preserved.{IsPreserved, steps, ask-Keeps, ask_bind-Keeps, ask_budget-Keeps}
use hovorun_v.Worker.Preserved.Lifecycle.{
  complete_job-Keeps, notify-Keeps, notify_application_failure-Keeps,
}
use hovorun_v.Worker.Runner.{
  budget_request, family_usage, feature_key, group_of, complete_zero, log_conflict,
  finish_ticket_safe, load_payload, handle_unavailable_payload, read_totals,
  reserve_execution_budget, refuse_reservation, wait_for_quota, handle_denied_reservation,
}

module _ (p : Ports) (P : World → Type 0) (k : IsPreserved p P) where
  pub complete_zero-Keeps :
      (id token : String) (o : JobOutcome) → Keeps P (complete_zero p id token o)
  unfolding complete_zero
  complete_zero-Keeps id token o = search (steps, complete_job-Keeps) depth 20

  log_conflict-Keeps : (e : Error) → Keeps P (log_conflict p e)
  log_conflict-Keeps conflict = search steps
  log_conflict-Keeps value_error = search steps
  log_conflict-Keeps type_error = search steps
  log_conflict-Keeps key_error = search steps
  log_conflict-Keeps unavailable = search steps
  log_conflict-Keeps assertion_error = search steps

  finish_ticket_safe-Keeps :
      (id token : String) (o : JobOutcome) → Keeps P (finish_ticket_safe p id token o)
  unfolding finish_ticket_safe
  finish_ticket_safe-Keeps id token o =
      search (steps, complete_zero-Keeps, log_conflict-Keeps) depth 20

  pub load_payload-Keeps : (e : JobEnvelope) (token : String) → Keeps P (load_payload p e token)
  unfolding load_payload
  load_payload-Keeps e token =
      search (steps, finish_ticket_safe-Keeps, notify_application_failure-Keeps) depth 20

  pub handle_unavailable_payload-Keeps : (id : String) → Keeps P (handle_unavailable_payload p id)
  unfolding handle_unavailable_payload
  handle_unavailable_payload-Keeps id = search (steps) depth 20

  read_totals-Keeps :
      (s : AccountingSubject) (t : ℕ) (us : List UsagePolicy) → Keeps P (read_totals p s t us)
  unfolding read_totals
  read_totals-Keeps s t [] = search steps
  read_totals-Keeps s t (u ∷ us) =
      bind-Keeps _ _ (ask-Keeps p P k (total_read s u t) p.usage_total refl)
        λ n. bind-Keeps _ _ (read_totals-Keeps s t us) λ rest. pure-Keeps (n ∷ rest)

  pub reserve_execution_budget-Keeps :
      (e : JobEnvelope) (time : Timestamp) → Keeps P (reserve_execution_budget p e time)
  unfolding reserve_execution_budget
  reserve_execution_budget-Keeps e time =
      let provider = resolve_provider_command e.feature in
      bind-Keeps (lift (feature_key p e provider)) _ (lift-Keeps (feature_key p e provider)) λ key.
        ask_bind-Keeps p P k (usage_resolved key e.trigger e.actor_id (group_of e)) p.resolve _ refl
          λ t u resolved.
            let q = budget_request e (family_usage provider u) in
            bind_lift-Keeps (validate_request q) _ λ _ valid. bind-Keeps _ _ (lift-Keeps _) λ _.
              bind-Keeps _ _ (read_totals-Keeps _ _ _) λ totals.
                ask_budget-Keeps p P k q time totals (k.owns e provider t u resolved valid)

  refuse_reservation-Keeps :
      (e : JobEnvelope) (token : String) (s : ReservationState)
      → Keeps P (refuse_reservation p e token s)
  unfolding refuse_reservation
  refuse_reservation-Keeps e token s =
      search (steps, finish_ticket_safe-Keeps, notify-Keeps) depth 20

  wait_for_quota-Keeps :
      (e : JobEnvelope) (token : String) (t : Timestamp) → Keeps P (wait_for_quota p e token t)
  unfolding wait_for_quota
  wait_for_quota-Keeps e token t = search (steps, finish_ticket_safe-Keeps, notify-Keeps) depth 20

  pub handle_denied_reservation-Keeps :
      (e : JobEnvelope) (token : String) (d : ReservationDecision)
      → Keeps P (handle_denied_reservation p e token d)
  unfolding handle_denied_reservation
  handle_denied_reservation-Keeps e token d =
      search
        (steps, wait_for_quota-Keeps, refuse_reservation-Keeps, notify_application_failure-Keeps)
        depth 20
