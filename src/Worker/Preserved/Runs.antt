-- ===== src/Worker/Preserved/Runs.antt =====
-- Proofs that the methods of feature_job_runner.py keep what every single step keeps: from the reservation of a job to its delivery, and `run`.
use hovorun_v.Prelude.{Option, none, some, String}
use hovorun_v.Domain.{Timestamp}
use hovorun_v.Jobs.Envelope.{JobEnvelope}
use hovorun_v.Feature.Registry.{FeatureDefinition}
use hovorun_v.Admission.Record.{JobStage}
use hovorun_v.Worker.Action.Keeps.{Keeps}
use hovorun_v.Worker.World.{
  Ports, World, MediaPayload, MediaClient, Delivery, delivery_accepted, delivery_unknown,
  delivery_rejected, delivery_broken,
}
use hovorun_v.Worker.Preserved.{IsPreserved, steps}
use hovorun_v.Worker.Preserved.Lifecycle.{
  complete_job-Keeps, notify-Keeps, notify_application_failure-Keeps,
}
use hovorun_v.Worker.Execution.{
  settlement_intent, check_gates, account_delivery, deliver_and_account, finish_extraction,
  conclude_extraction, extract_and_deliver, notify_delay, execute_reserved, execute_loaded,
  execute_claimed, finish_expired_unclaimed, parse_and_claim, resolve_unclaimed, run_envelope,
  run_job,
}
use hovorun_v.Worker.Extraction.{Extracted, obtained, handed_off, timed_out, not_extracted}
use hovorun_v.Worker.Preserved.Reservations.{
  complete_zero-Keeps, load_payload-Keeps, handle_unavailable_payload-Keeps,
  reserve_execution_budget-Keeps, handle_denied_reservation-Keeps,
}
use hovorun_v.Worker.Preserved.Extractions.{extract_stage-Keeps}

module _ (p : Ports) (P : World → Type 0) (k : IsPreserved p P) where
  settlement_intent-Keeps :
      (e : JobEnvelope) (d : FeatureDefinition) (t : Timestamp)
      → Keeps P (settlement_intent p e d t)
  unfolding settlement_intent
  settlement_intent-Keeps e d t = search (steps) depth 20

  check_gates-Keeps :
      (e : JobEnvelope) (m : MediaPayload) (c : MediaClient) → Keeps P (check_gates p e m c)
  unfolding check_gates
  check_gates-Keeps e m c = search (steps) depth 20

  account_delivery-Keeps :
      (e : JobEnvelope) (d : FeatureDefinition) (token : String) (t : Timestamp) (x : Delivery)
      → Keeps P (account_delivery p e d token t x)
  unfolding account_delivery
  account_delivery-Keeps e d token t delivery_accepted =
      search (steps, settlement_intent-Keeps, complete_job-Keeps) depth 20
  account_delivery-Keeps e d token t delivery_unknown = search (steps) depth 20
  account_delivery-Keeps e d token t delivery_rejected =
      search (steps, complete_zero-Keeps) depth 20
  account_delivery-Keeps e d token t (delivery_broken x) = search (steps) depth 20

  deliver_and_account-Keeps :
      (e : JobEnvelope) (m : MediaPayload) (d : FeatureDefinition) (token : String) (t : Timestamp)
      → Keeps P (deliver_and_account p e m d token t)
  unfolding deliver_and_account
  deliver_and_account-Keeps e m d token t =
      search (steps, account_delivery-Keeps, complete_zero-Keeps) depth 20

  finish_extraction-Keeps :
      (e : JobEnvelope) (token : String) (t : Timestamp) (m : MediaPayload) (c : MediaClient)
      → Keeps P (finish_extraction p e token t m c)
  unfolding finish_extraction
  finish_extraction-Keeps e token t m c =
      search (steps, check_gates-Keeps, complete_zero-Keeps, deliver_and_account-Keeps) depth 20

  conclude_extraction-Keeps :
      (e : JobEnvelope) (token : String) (t : Timestamp) (x : Extracted)
      → Keeps P (conclude_extraction p e token t x)
  unfolding conclude_extraction
  conclude_extraction-Keeps e token t (obtained m c) =
      search (steps, finish_extraction-Keeps) depth 20
  conclude_extraction-Keeps e token t handed_off = search (steps) depth 20
  conclude_extraction-Keeps e token t timed_out =
      search (steps, complete_zero-Keeps, notify-Keeps) depth 20
  conclude_extraction-Keeps e token t not_extracted =
      search (steps, complete_zero-Keeps, notify-Keeps) depth 20

  extract_and_deliver-Keeps :
      (e : JobEnvelope) (bytes : String) (s : JobStage) (token : String) (t : Timestamp)
      → Keeps P (extract_and_deliver p e bytes s token t)
  unfolding extract_and_deliver
  extract_and_deliver-Keeps e bytes s token t =
      search (steps, extract_stage-Keeps, conclude_extraction-Keeps) depth 20

  notify_delay-Keeps : (e : JobEnvelope) (t : Timestamp) → Keeps P (notify_delay p e t)
  unfolding notify_delay
  notify_delay-Keeps e t = search (steps, notify-Keeps) depth 20

  execute_reserved-Keeps :
      (e : JobEnvelope) (bytes : String) (s : JobStage) (token : String) (t : Timestamp)
      → Keeps P (execute_reserved p e bytes s token t)
  unfolding execute_reserved
  execute_reserved-Keeps e bytes s token t =
      search (steps, complete_zero-Keeps, notify_delay-Keeps, extract_and_deliver-Keeps) depth 20

  execute_loaded-Keeps :
      (e : JobEnvelope) (s : JobStage) (token : String) → Keeps P (execute_loaded p e s token)
  unfolding execute_loaded
  execute_loaded-Keeps e s token =
      search
        (
          steps, load_payload-Keeps, handle_unavailable_payload-Keeps,
          reserve_execution_budget-Keeps, handle_denied_reservation-Keeps, execute_reserved-Keeps,
        )
        depth 20

  execute_claimed-Keeps :
      (e : JobEnvelope) (s : JobStage) (token : String) → Keeps P (execute_claimed p e s token)
  unfolding execute_claimed
  execute_claimed-Keeps e s token =
      search (steps, execute_loaded-Keeps, notify_application_failure-Keeps) depth 20

  finish_expired_unclaimed-Keeps : (e : JobEnvelope) → Keeps P (finish_expired_unclaimed p e)
  unfolding finish_expired_unclaimed
  finish_expired_unclaimed-Keeps e = search (steps, notify-Keeps) depth 20

  parse_and_claim-Keeps : (e : JobEnvelope) (s : JobStage) → Keeps P (parse_and_claim p e s)
  unfolding parse_and_claim
  parse_and_claim-Keeps e s = search (steps, finish_expired_unclaimed-Keeps) depth 20

  resolve_unclaimed-Keeps : (e : JobEnvelope) → Keeps P (resolve_unclaimed p e)
  unfolding resolve_unclaimed
  resolve_unclaimed-Keeps e = search (steps) depth 20

  run_envelope-Keeps : (e : JobEnvelope) (s : JobStage) → Keeps P (run_envelope p e s)
  unfolding run_envelope
  run_envelope-Keeps e s =
      search (steps, parse_and_claim-Keeps, resolve_unclaimed-Keeps, execute_claimed-Keeps) depth 20

  -- A run keeps what every single step of a worker keeps.
  pub run_job-Keeps : (d : Option JobEnvelope) (s : JobStage) → Keeps P (run_job p d s)
  unfolding run_job
  run_job-Keeps none s = search (steps) depth 20
  run_job-Keeps (some e) s =
      search (steps, run_envelope-Keeps, notify_application_failure-Keeps) depth 20
