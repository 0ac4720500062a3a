-- ===== src/Admission/Samples.antt =====
-- A job of a group for admission_state.py, its ticket in several states, and requests about it.
use hovorun_v.Prelude.{true, false, none, some, List, [], ◌∷◌, negsuc}
use hovorun_v.Domain.{group, seconds, at}
use hovorun_v.Jobs.Envelope.{JobEnvelope, automatic, complete}
use hovorun_v.Admission.Record.{
  AdmissionRecord, accepted, running, cancelling, terminal, waiting, media, owner_of, ingress_of,
}
use hovorun_v.Admission.Transition.{
  AdmissionTransition, request, claim_op, finish_op, register_op, delivery_op, cancel_op,
}

abbrev pub sample_job : JobEnvelope
sample_job = record {
  job_id = "job-1";
  payload_ref = "0123456789abcdef0123456789abcdef";
  feature = "twitter_video";
  target = record { kind = group; entity_id = 4; generation = 1; telegram_id = negsuc 99 };
  actor_id = some 7;
  actor_generation = some 1;
  trigger = automatic;
  charged_kind = group;
  charged_telegram_id = negsuc 99;
  accepted_at = seconds 1000;
  deadline = seconds 1300;
  dedupe_key = "0123456789abcdef0123456789abcdef0123456789abcdef0123456789abcdef";
  feature_epoch = 0;
  message_id = 12;
}

abbrev pub queued_ticket : AdmissionRecord
queued_ticket = record {
  envelope = sample_job;
  state = accepted;
  stage = media;
  byte_size = 100;
  attempt = 0;
  token = "";
  published = 0;
  publication_registered = 0;
  retry_at = 0;
  not_before = 0;
  subject_key = owner_of sample_job;
  ingress_key = ingress_of sample_job;
  payload_key = sample_job.payload_ref;
  dedupe_key = sample_job.dedupe_key;
  outcome = none;
  settlement = none;
  budget_reserved = false;
  delayed_notice_requested = false;
  terminal_notice_requested = false;
  delayed_notice_claimed = false;
  terminal_notice_claimed = false;
  failure_notice_claimed = false;
}

abbrev pub running_ticket : AdmissionRecord
running_ticket = record queued_ticket { state = running; token = "worker-a"; attempt = 1 }

abbrev pub cancelling_ticket : AdmissionRecord
cancelling_ticket = record running_ticket { state = cancelling }

abbrev pub ended_ticket : AdmissionRecord
ended_ticket = record running_ticket {
  state = terminal;
  outcome = some complete;
  terminal_notice_requested = true;
}

abbrev pub late_ticket : AdmissionRecord
late_ticket = record queued_ticket { state = waiting; delayed_notice_requested = true; attempt = 1 }

abbrev pub claim_request : AdmissionTransition
claim_request = record (request claim_op) { now = seconds 1001; token = "worker-a" }

abbrev pub stolen_request : AdmissionTransition
stolen_request = record (request finish_op) { token = "worker-b"; outcome = some complete }

abbrev pub finish_request : AdmissionTransition
finish_request = record (request finish_op) { token = "worker-a"; outcome = some complete }

abbrev pub delivery_request : AdmissionTransition
delivery_request = record (request delivery_op) { token = "worker-a"; now = seconds 1002 }

abbrev pub register_request : AdmissionTransition
register_request = record (request register_op) {
  expected_envelope = some sample_job;
  not_before = at (seconds 1010);
}

abbrev pub register_later : AdmissionTransition
register_later = record register_request { not_before = at (seconds 1200) }

abbrev pub history : List AdmissionTransition
history =
    claim_request ∷ stolen_request ∷ delivery_request ∷ finish_request ∷ request cancel_op ∷ []
