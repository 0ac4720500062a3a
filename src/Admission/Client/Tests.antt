-- ===== src/Admission/Client/Tests.antt =====
-- admission.py at a sample job: a history of events, with every property of its calls applied to it.
use hovorun_v.Prelude.{
  ◌⊎◌, ◌≡◌, ◌>>=◌, refl, false, none, some, List, [], ◌∷◌, lookup, put, remove, ok, length,
  ℤ-discrete,
}
use hovorun_v.Domain.{seconds, at}
use hovorun_v.Usage.Budgets.{is_technical_id}
use hovorun_v.Usage.Policies.{default_caps}
use hovorun_v.Jobs.Envelope.{validate_envelope, complete}
use hovorun_v.Admission.Record.{
  AdmissionRecord, media, stored, validate_record, is_terminal, ticket_of, admission_keys,
}
use hovorun_v.Admission.Transition.{calculate_change, AdmissionTransition, request, claim_op}
use hovorun_v.Admission.Invariant.{IsChecked}
use hovorun_v.Admission.Traces.{step}
use hovorun_v.Admission.Capacity.{
  AdmissionLimits, read_capacity, read_counter, read_totals, is_full, admitted_counters,
  released_counters, require_active, require_counts,
}
use hovorun_v.Admission.Space.{
  Space, empty_space, byte_length, same_owner, same_ingress, same_lane, Lane-discrete,
}
use hovorun_v.Admission.Store.{
  answer_lost, admit_over, unavailable_state, SealedPayload, initial_record, admit, apply_attempt,
  validate_payload, duplicate, answer,
}
use hovorun_v.Admission.Accounting.{IsAccounted, keys_of}
use hovorun_v.Admission.Accounting.Apply.{IsApplied, apply_attempt-refines}
use hovorun_v.Admission.Accounting.Answers.{admit_duplicate, IsWritten, admit_refused}
use hovorun_v.Admission.Client.{Call, claim_stage_call, finish_call}
use hovorun_v.Admission.Client.Limits.{
  Event, admission, transition, run_events, IsLimited, IsFitted, run_events-IsLimited,
}
use hovorun_v.Admission.Samples.{sample_job}

abbrev sealed : SealedPayload
sealed = record {
  reference = sample_job.payload_ref;
  job_id = "job-1";
  blob = "sealed";
  deadline = seconds 1300;
  byte_size = 6;
}

abbrev limits : AdmissionLimits
limits = record { subject_pending = 2; ingress_pending = 3; safety = default_caps }

abbrev entry : Event
entry = admission sample_job sealed (at (seconds 1001))

abbrev taken : Call
taken = claim_stage_call "job-1" media (at (seconds 1002)) "worker-a" none

abbrev events : List Event
events =
    entry
    ∷ entry
    ∷ transition taken
    ∷ transition (finish_call "job-1" complete (some "worker-a"))
    ∷ []

abbrev first_ticket : AdmissionRecord
first_ticket = initial_record sample_job sealed (keys_of sample_job)

abbrev first_space : Space
first_space = run_events limits empty_space (entry ∷ [])

sample_job_valid : validate_envelope sample_job ≡ ok tt
unfolding validate_envelope is_technical_id ℤ-discrete
sample_job_valid = refl

run_events-IsLimited_example :
    IsLimited limits (run_events limits empty_space events)
    × IsFitted limits (run_events limits empty_space events)
run_events-IsLimited_example =
    run_events-IsLimited limits events (sample_job_valid, (sample_job_valid, tt))

first_found : lookup "job-1" first_space.tickets ≡ some (stored first_ticket)
unfolding run_events lookup validate_record validate_envelope put is_technical_id ℤ-discrete
    byte_length
first_found = refl

first-IsAccounted : IsAccounted first_space
first-IsAccounted = (run_events-IsLimited limits (entry ∷ []) (sample_job_valid, tt)).0.accounted

abbrev claim_first : AdmissionTransition
claim_first = record (request claim_op) { now = seconds 1002; token = "worker-a" }

claim_first-IsChecked : IsChecked first_ticket claim_first
unfolding is_technical_id
claim_first-IsChecked = record { owner = λ h. refl; schedule = λ h. cc }

apply_attempt-refines_example :
    (sp' : Space) × (apply_attempt first_space "job-1" claim_first
      ≡ (calculate_change first_ticket claim_first >>= λ c. ok (some c, sp')))
    × IsApplied first_space "job-1" (step first_ticket claim_first) sp'
apply_attempt-refines_example =
    apply_attempt-refines first_space "job-1" first_ticket first-IsAccounted first_found claim_first
      claim_first-IsChecked

abbrev twice : Space
twice = run_events limits empty_space events

-- The job was admitted once, claimed once and has ended: its counters are free again.
freed_again : (twice.pending ≡ []) × (twice.handoff ≡ []) × (length twice.tickets ≡ 1)
unfolding run_events calculate_change read_capacity read_counter read_totals is_full
    admitted_counters released_counters require_active require_counts validate_record
    validate_envelope is_technical_id ℤ-discrete byte_length lookup put same_owner same_ingress
    same_lane Lane-discrete remove
freed_again = (refl, refl, refl)

first_queued : is_terminal first_ticket.state ≡ false
first_queued = refl

sealed_valid : validate_payload sample_job sealed (at (seconds 1001)) ≡ ok tt
unfolding validate_payload byte_length
sealed_valid = refl

admit_duplicate_example :
    admit first_space sample_job sealed limits (at (seconds 1001))
    ≡ ok (record { state = duplicate; ticket = some (ticket_of first_ticket) }, first_space)
admit_duplicate_example =
    admit_duplicate first_space sample_job sealed limits (at (seconds 1001)) first_ticket
      first-IsAccounted sealed_valid first_found refl first_queued

-- The admission is written, and its answer is lost.
lost_admission :
    (admit_over answer_lost empty_space sample_job sealed limits (at (seconds 1001))).0
    ≡ ok (answer unavailable_state)
unfolding admit_over validate_payload byte_length admission_keys is_technical_id
lost_admission = refl

admit_refused_example :
    ((admit_over answer_lost empty_space sample_job sealed limits (at (seconds 1001))).1
      ≡ empty_space)
    ⊎ ((answer_lost ≡ answer_lost)
        × (unavailable_state ≡ unavailable_state)
        × IsWritten empty_space sample_job sealed limits
            (at (seconds 1001))
            (admit_over answer_lost empty_space sample_job sealed limits (at (seconds 1001))).1)
admit_refused_example =
    admit_refused empty_space sample_job sealed limits (at (seconds 1001)) answer_lost
      lost_admission (λ e. cc)
