-- ===== src/Jobs/Laws.antt =====
-- Proofs about the envelopes that feature_jobs.py accepts.
use hovorun_v.Prelude.{ℕ, ◌+◌, ◌≤◌, ◌<◌, ◌≡◌, refl, pos, ok, some, arith, >>-eq-ok}
use hovorun_v.Domain.{user, group}
use hovorun_v.Jobs.Envelope.{
  JobEnvelope, direct, automatic, TriggerKind, validate_envelope, validate_binding,
  validate_deadline, validate_fields, max_job_lifetime,
}

-- Who pays for a job, told from its trigger alone.
abbrev pub IsCharged : TriggerKind → JobEnvelope → Type 0
IsCharged automatic e =
    (e.target.kind ≡ group)
    × (e.charged_kind ≡ group)
    × (e.charged_telegram_id ≡ e.target.telegram_id)
IsCharged direct e =
    (actor : ℕ) × (e.actor_id ≡ some actor)
    × (e.charged_kind ≡ user)
    × (e.charged_telegram_id ≡ pos actor)
    × (e.target.kind ≡ user → e.target.telegram_id ≡ pos actor)

deadline_lem :
    (e : JobEnvelope)
    → validate_deadline e ≡ ok tt
    → (e.accepted_at < e.deadline) × (e.deadline ≤ e.accepted_at + max_job_lifetime)
unfolding validate_deadline
deadline_lem e h = ground arith

binding-IsCharged :
    (t : TriggerKind) (e : JobEnvelope) → e.trigger ≡ t → validate_binding e ≡ ok tt → IsCharged t e
unfolding validate_binding
binding-IsCharged automatic e t h = ground arith
binding-IsCharged direct e t h = ground arith

-- An envelope that passes validation charges the group of an automatic trigger and the actor of a
-- direct one, delivers in private to that actor only, and runs for at most five minutes.
pub validate_envelope-IsCharged :
    (e : JobEnvelope)
    → validate_envelope e ≡ ok tt
    → IsCharged e.trigger e
      × (e.accepted_at < e.deadline)
      × (e.deadline ≤ e.accepted_at + max_job_lifetime)
unfolding validate_envelope
validate_envelope-IsCharged e h =
    let binding = (>>-eq-ok (validate_fields e) (validate_binding e) h).1 in
    let timing =
      deadline_lem e (>>-eq-ok (validate_deadline e) _ (unfold validate_binding in binding)).0 in
    (binding-IsCharged e.trigger e refl binding, timing.0, timing.1)
