-- ===== src/Admission/Progress.antt =====
-- Proofs about the claims and completions of admission_state.py.
use hovorun_v.Prelude.{
  ◌≡◌, refl, Option, none, decided_iff, ◌+◌, str_eq, if◌then◌else◌, ◌≤◌, ◌<◌, ◌↔◌, true, false, not,
  ◌&&◌, some, arith, ok,
}
use hovorun_v.Jobs.Envelope.{JobOutcome, JobEnvelope, JobEnvelope-discrete}
use hovorun_v.Admission.Record.{
  AdmissionRecord, is_queued, is_owned, running, is_terminal, is_uncertain, is_settling, same_stage,
  JobStage, media, browser, has_token,
}
use hovorun_v.Admission.Transition.{
  AdmissionTransition, claim, finish, released_change, terminated, expects_other, contradicts,
}

-- A queued job that is due, in the stage that the worker serves, with the envelope that it knows.
pub record IsDue (r : AdmissionRecord) (q : AdmissionTransition) : Type 0 where
  pub queued : is_queued r.state ≡ true
  pub expected : (e : JobEnvelope) → q.expected_envelope ≡ some e → e ≡ r.envelope
  pub in_time : q.now < r.envelope.deadline
  pub scheduled : r.not_before ≤ q.now
  pub stage : r.stage ≡ q.stage

-- The ticket of a job that starts to run.
abbrev pub started : AdmissionRecord → AdmissionTransition → AdmissionRecord
started r q = record r { state = running; token = q.token; attempt = r.attempt + 1 }

expected_iff :
    (r : AdmissionRecord) (o : Option JobEnvelope)
    → (expects_other r o ≡ false) ↔ ((e : JobEnvelope) → o ≡ some e → e ≡ r.envelope)
expected_iff r none = (λ h e k. cc, λ h. refl)
expected_iff r (some x) =
    let d = JobEnvelope-discrete r.envelope x in
    (λ h e k. ground (arith, decided_iff d), λ h. ground (arith, decided_iff d, h x refl))

stage_iff : (a b : JobStage) → (same_stage a b ≡ true) ↔ (a ≡ b)
stage_iff media media = (λ h. refl, λ h. refl)
stage_iff media browser = (λ h. cc, λ h. cc)
stage_iff browser media = (λ h. cc, λ h. cc)
stage_iff browser browser = (λ h. refl, λ h. refl)

-- A claim starts a job exactly when the job is queued, its envelope is the expected one if any,
-- its schedule has come and its deadline has not, and it is in the stage of the claim.
pub claim_iff :
    (r : AdmissionRecord) (q : AdmissionTransition)
    → ((claim r q).next ≡ some (started r q)) ↔ IsDue r q
unfolding claim
claim_iff r q = ground (arith, expected_iff r q.expected_envelope, stage_iff r.stage q.stage)

-- Work that may end with an outcome: an execution by its owner alone, one without an owner by a caller
-- without a token, and neither before its delivery is certain nor before its reservation is settled.
pub record IsEnding (r : AdmissionRecord) (q : AdmissionTransition) (o : JobOutcome) : Type 0 where
  pub live : is_terminal r.state ≡ false
  pub certain : is_uncertain r.state ≡ false
  pub settled : (r.budget_reserved && not (is_settling r.state)) ≡ false
  pub agreed : contradicts r.settlement o ≡ false
  pub owner : (if is_owned r.state then str_eq q.token r.token else not (has_token q.token)) ≡ true

-- A completion with an outcome ends the ticket and frees its capacity exactly when the work may
-- end: the ticket has not ended, its delivery is not uncertain, a reservation is being settled, by
-- the same outcome, and the caller is the owner, or has no token where nobody owns it.
pub finish_iff :
    (r : AdmissionRecord) (q : AdmissionTransition) (o : JobOutcome)
    → q.outcome ≡ some o
    → (finish r q ≡ ok (released_change (terminated r o))) ↔ IsEnding r q o
unfolding finish
finish_iff r q o h = ground arith
