-- ===== src/Jobs/Tests.antt =====
-- feature_jobs.py at a job that a person started in private.
use hovorun_v.Prelude.{◌≡◌, ◌+◌, ◌≤◌, ◌<◌, refl, some, pos, ok, ℤ-discrete}
use hovorun_v.Domain.{user, seconds}
use hovorun_v.Jobs.Envelope.{JobEnvelope, direct, validate_envelope, max_job_lifetime}
use hovorun_v.Jobs.Laws.{IsCharged, validate_envelope-IsCharged}

abbrev private_job : JobEnvelope
private_job = record {
  job_id = "job-2";
  payload_ref = "0123456789abcdef0123456789abcdef";
  feature = "translate";
  target = record { kind = user; entity_id = 7; generation = 1; telegram_id = pos 7000 };
  actor_id = some 7000;
  actor_generation = some 1;
  trigger = direct;
  charged_kind = user;
  charged_telegram_id = pos 7000;
  accepted_at = seconds 1000;
  deadline = seconds 1300;
  dedupe_key = "0123456789abcdef0123456789abcdef0123456789abcdef0123456789abcdef";
  feature_epoch = 0;
  message_id = 12;
}

private_job_valid : validate_envelope private_job ≡ ok tt
unfolding validate_envelope ℤ-discrete
private_job_valid = refl

validate_envelope-IsCharged_example :
    IsCharged private_job.trigger private_job
    × (private_job.accepted_at < private_job.deadline)
    × (private_job.deadline ≤ private_job.accepted_at + max_job_lifetime)
validate_envelope-IsCharged_example = validate_envelope-IsCharged private_job private_job_valid
