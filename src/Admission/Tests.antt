-- ===== src/Admission/Tests.antt =====
-- admission_state.py and admission.py at a sample job, with every property of them applied there.
use hovorun_v.Prelude.{
  ◌+◌, ◌≡◌, ◌≢◌, ◌↔◌, refl, true, false, some, arith, ok, eq_iff, String, ℤ-discrete,
}
use hovorun_v.Usage.Budgets.{is_technical_id}
use hovorun_v.Jobs.Envelope.{validate_envelope}
use hovorun_v.Admission.Record.{validate_record, delivery_uncertain}
use hovorun_v.Admission.Valid.{IsValid, validate_record_iff}
use hovorun_v.Admission.Transition.{calculate_change, claim}
use hovorun_v.Admission.Invariant.{
  IsStored, IsChecked, Ensures, KeepsStored, calculate_change-IsStored,
}
use hovorun_v.Admission.Graph.{Follows, is_stopped, calculate_change-Follows}
use hovorun_v.Admission.Effect.{Sound, SameEnd, calculate_change-Sound}
use hovorun_v.Admission.Traces.{run, releases, ends, releases-run, run-SameEnd, run-is_stopped}
use hovorun_v.Admission.Laws.{writes, calculate_change_fenced}
use hovorun_v.Usage.Policies.{default_caps}
use hovorun_v.Admission.Capacity.{
  Counters, AdmissionCapacity, AdmissionLimits, totals, counter, missing, read_capacity, is_full,
  require_counts, admitted_counters, released_counters,
}
use hovorun_v.Admission.Limits.{
  grown, IsWithin, read_capacity-admitted_counters, read_capacity-released_counters,
}
use hovorun_v.Admission.Progress.{IsDue, started, claim_iff}
use hovorun_v.Admission.Samples.{
  queued_ticket, running_ticket, cancelling_ticket, ended_ticket, claim_request, stolen_request,
  finish_request, delivery_request, history,
}

history_ends : (run queued_ticket history).state ≡ delivery_uncertain
unfolding run calculate_change
history_ends = refl

queued_readable : validate_record queued_ticket ≡ ok tt
unfolding validate_record validate_envelope is_technical_id ℤ-discrete
queued_readable = refl

validate_record_iff_example : (validate_record queued_ticket ≡ ok tt) ↔ IsValid queued_ticket
validate_record_iff_example = validate_record_iff queued_ticket

queued-IsStored : IsStored queued_ticket
queued-IsStored = record {
  valid = (validate_record_iff queued_ticket).0 queued_readable;
  attempted = λ h. cc;
  accounted = λ h. cc;
}

claim-IsChecked : IsChecked queued_ticket claim_request
unfolding is_technical_id
claim-IsChecked = record { owner = λ h. refl; schedule = λ h. cc }

calculate_change-IsStored_example :
    Ensures KeepsStored (calculate_change queued_ticket claim_request)
calculate_change-IsStored_example =
    calculate_change-IsStored queued_ticket claim_request queued-IsStored claim-IsChecked

calculate_change-Follows_example :
    Ensures (Follows running_ticket.state) (calculate_change running_ticket delivery_request)
calculate_change-Follows_example = calculate_change-Follows running_ticket delivery_request

calculate_change-Sound_example :
    Ensures (Sound running_ticket) (calculate_change running_ticket finish_request)
calculate_change-Sound_example = calculate_change-Sound running_ticket finish_request

releases-run_example :
    releases queued_ticket history + ends queued_ticket ≡ ends (run queued_ticket history)
releases-run_example = releases-run queued_ticket history

run-SameEnd_example : SameEnd ended_ticket (run ended_ticket history)
run-SameEnd_example = run-SameEnd ended_ticket history refl

run-is_stopped_example : is_stopped (run cancelling_ticket history).state ≡ true
run-is_stopped_example = run-is_stopped cancelling_ticket history refl

other_worker : ◌≢◌ {A = String} "worker-a" "worker-b"
other_worker = ground (arith, eq_iff "worker-a" "worker-b")

calculate_change_fenced_example : writes (calculate_change running_ticket stolen_request) ≡ false
calculate_change_fenced_example =
    calculate_change_fenced running_ticket stolen_request refl refl other_worker

abbrev three_jobs : Counters
three_jobs = record {
  all_totals = totals (counter 3) (counter 300);
  subject = counter 1;
  ingress = missing;
  pending = 3;
}

abbrev limits : AdmissionLimits
limits = record { subject_pending = 2; ingress_pending = 10; safety = default_caps }

abbrev capacity : AdmissionCapacity
capacity = record { count = 3; byte_size = 300; subject = 1; ingress = 0 }

capacity_read : read_capacity three_jobs ≡ ok capacity
unfolding read_capacity
capacity_read = refl

has_room : is_full capacity 100 limits ≡ false
unfolding is_full
has_room = refl

read_capacity-admitted_counters_example :
    (read_capacity (admitted_counters three_jobs capacity 100) ≡ ok (grown capacity 100))
    × IsWithin (grown capacity 100) limits
read_capacity-admitted_counters_example =
    read_capacity-admitted_counters three_jobs limits 100 (omega arith) capacity_read has_room

read_capacity-released_counters_example :
    (require_counts (grown capacity 100) 100 ≡ ok tt)
    × (read_capacity
          (released_counters (admitted_counters three_jobs capacity 100) (grown capacity 100) 100)
        ≡ ok capacity)
read_capacity-released_counters_example =
    read_capacity-released_counters three_jobs 100 (omega arith) capacity_read

claim_iff_example :
    ((claim queued_ticket claim_request).next ≡ some (started queued_ticket claim_request))
    ↔ IsDue queued_ticket claim_request
claim_iff_example = claim_iff queued_ticket claim_request
