-- ===== src/Worker/Codes.antt =====
-- Proofs about the codes that `run` of feature_job_runner.py returns.
use hovorun_v.Prelude.{
  ◌≡◌, true, Option, none, some, String, ok, err, Error, Result, Result-cases, inl, inr, is_ok,
}
use hovorun_v.Domain.{Timestamp}
use hovorun_v.Usage.Budgets.{ReservationDecision, ReservationState}
use hovorun_v.Jobs.Envelope.{JobEnvelope, JobOutcome}
use hovorun_v.Feature.Registry.{FeatureDefinition}
use hovorun_v.Admission.Record.{JobStage}
use hovorun_v.Worker.Action.Returns.{Returns, returns_rules}
use hovorun_v.Worker.Action.Answers.{Answers, answers_rules}
use hovorun_v.Worker.World.{
  Ports, World, MediaPayload, MediaClient, Delivery, delivery_accepted, delivery_unknown,
  delivery_rejected, delivery_broken,
}
use hovorun_v.Worker.Notices.{
  outcome_value, uncertain_value, waiting_value, notify_application_failure,
}
use hovorun_v.Worker.Runner.{
  handle_unavailable_payload, refuse_reservation, wait_for_quota, handle_denied_reservation,
}
use hovorun_v.Worker.Extraction.{Extracted, obtained, handed_off, timed_out, not_extracted}
use hovorun_v.Worker.Execution.{
  account_delivery, deliver_and_account, finish_extraction, conclude_extraction,
  extract_and_deliver, execute_reserved, execute_loaded, execute_claimed, resolve_unclaimed,
  run_envelope, run_job,
}

-- The codes that may leave a worker: an outcome, an uncertain delivery, a wait for a quota.
pub data IsSafeCode : String → Type 0 where
  safe_outcome : (o : JobOutcome) → IsSafeCode (outcome_value o)
  safe_uncertain : IsSafeCode uncertain_value
  safe_waiting : IsSafeCode waiting_value

ruleset codes = (returns_rules, safe_outcome, safe_uncertain, safe_waiting)

raised_is_not_ok : {A : Type 0} (r : Result A) {e : Error} → r ≡ err e → is_ok r ≡ true → ⊥
raised_is_not_ok (ok a) h k = cc
raised_is_not_ok (err e) h k = cc

module _ (p : Ports) where
  handle_unavailable_payload-Returns :
      (id : String) → Returns IsSafeCode (handle_unavailable_payload p id)
  unfolding handle_unavailable_payload
  handle_unavailable_payload-Returns id = search (codes) depth 24

  refuse_reservation-Returns :
      (e : JobEnvelope) (token : String) (s : ReservationState)
      → Returns IsSafeCode (refuse_reservation p e token s)
  unfolding refuse_reservation
  refuse_reservation-Returns e token s = search (codes) depth 24

  wait_for_quota-Returns :
      (e : JobEnvelope) (token : String) (t : Timestamp)
      → Returns IsSafeCode (wait_for_quota p e token t)
  unfolding wait_for_quota
  wait_for_quota-Returns e token t = search (codes) depth 24

  handle_denied_reservation-Returns :
      (e : JobEnvelope) (token : String) (d : ReservationDecision)
      → Returns IsSafeCode (handle_denied_reservation p e token d)
  unfolding handle_denied_reservation
  handle_denied_reservation-Returns e token d =
      search (codes, wait_for_quota-Returns, refuse_reservation-Returns) depth 24

  account_delivery-Returns :
      (e : JobEnvelope) (d : FeatureDefinition) (token : String) (t : Timestamp) (x : Delivery)
      → Returns IsSafeCode (account_delivery p e d token t x)
  unfolding account_delivery
  account_delivery-Returns e d token t delivery_accepted = search (codes) depth 24
  account_delivery-Returns e d token t delivery_unknown = search (codes) depth 24
  account_delivery-Returns e d token t delivery_rejected = search (codes) depth 24
  account_delivery-Returns e d token t (delivery_broken x) = search (codes) depth 24

  deliver_and_account-Returns :
      (e : JobEnvelope) (m : MediaPayload) (d : FeatureDefinition) (token : String) (t : Timestamp)
      → Returns IsSafeCode (deliver_and_account p e m d token t)
  unfolding deliver_and_account
  deliver_and_account-Returns e m d token t = search (codes, account_delivery-Returns) depth 24

  finish_extraction-Returns :
      (e : JobEnvelope) (token : String) (t : Timestamp) (m : MediaPayload) (c : MediaClient)
      → Returns IsSafeCode (finish_extraction p e token t m c)
  unfolding finish_extraction
  finish_extraction-Returns e token t m c = search (codes, deliver_and_account-Returns) depth 24

  conclude_extraction-Returns :
      (e : JobEnvelope) (token : String) (t : Timestamp) (x : Extracted)
      → Returns IsSafeCode (conclude_extraction p e token t x)
  unfolding conclude_extraction
  conclude_extraction-Returns e token t (obtained m c) =
      search (codes, finish_extraction-Returns) depth 24
  conclude_extraction-Returns e token t handed_off = search (codes) depth 24
  conclude_extraction-Returns e token t timed_out = search (codes) depth 24
  conclude_extraction-Returns e token t not_extracted = search (codes) depth 24

  extract_and_deliver-Returns :
      (e : JobEnvelope) (bytes : String) (s : JobStage) (token : String) (t : Timestamp)
      → Returns IsSafeCode (extract_and_deliver p e bytes s token t)
  unfolding extract_and_deliver
  extract_and_deliver-Returns e bytes s token t =
      search (codes, conclude_extraction-Returns) depth 24

  execute_reserved-Returns :
      (e : JobEnvelope) (bytes : String) (s : JobStage) (token : String) (t : Timestamp)
      → Returns IsSafeCode (execute_reserved p e bytes s token t)
  unfolding execute_reserved
  execute_reserved-Returns e bytes s token t = search (codes, extract_and_deliver-Returns) depth 24

  execute_loaded-Returns :
      (e : JobEnvelope) (s : JobStage) (token : String)
      → Returns IsSafeCode (execute_loaded p e s token)
  unfolding execute_loaded
  execute_loaded-Returns e s token =
      search
        (
          codes, handle_unavailable_payload-Returns, handle_denied_reservation-Returns,
          execute_reserved-Returns,
        )
        depth 24

  execute_claimed-Returns :
      (e : JobEnvelope) (s : JobStage) (token : String)
      → Returns IsSafeCode (execute_claimed p e s token)
  unfolding execute_claimed
  execute_claimed-Returns e s token = search (codes, execute_loaded-Returns) depth 24

  resolve_unclaimed-Returns : (e : JobEnvelope) → Returns IsSafeCode (resolve_unclaimed p e)
  unfolding resolve_unclaimed
  resolve_unclaimed-Returns e = search (codes) depth 24

  run_envelope-Returns : (e : JobEnvelope) (s : JobStage) → Returns IsSafeCode (run_envelope p e s)
  unfolding run_envelope
  run_envelope-Returns e s =
      search (codes, resolve_unclaimed-Returns, execute_claimed-Returns) depth 24

  run_job-Returns : (d : Option JobEnvelope) (s : JobStage) → Returns IsSafeCode (run_job p d s)
  unfolding run_job
  run_job-Returns none s = search (codes) depth 24
  run_job-Returns (some e) s = search (codes, run_envelope-Returns) depth 24

  notice-Answers : (e : JobEnvelope) → Answers (notify_application_failure p e)
  unfolding notify_application_failure
  notice-Answers e = search answers_rules

  run_job-Answers : (d : Option JobEnvelope) (s : JobStage) → Answers (run_job p d s)
  unfolding run_job
  run_job-Answers none s = search answers_rules
  run_job-Answers (some e) s = search (answers_rules, notice-Answers)

-- Whatever the data of an envelope, the ports and the stores are, `run` never raises, and it returns
-- one of the allowed codes: the value of a job outcome, an uncertain delivery, or a wait for a quota.
pub run_job-IsSafeCode :
    (p : Ports) (d : Option JobEnvelope) (stage : JobStage) (w : World)
    → (code : String) × ((run_job p d stage w).0 ≡ ok code) × IsSafeCode code
run_job-IsSafeCode p d stage w = elim (Result-cases (run_job p d stage w).0) [
  | inl (code, h) ↦ (code, h, (run_job-Returns p d stage).at w code h)
  | inr (e, h) ↦
      absurd (raised_is_not_ok (run_job p d stage w).0 h ((run_job-Answers p d stage).at w))
]
