-- ===== src/Jobs/Envelope.antt =====
-- src/hovorunv2/application/jobs/feature_jobs.py: the target and the envelope of a feature job. A
-- validator raises `ValueError`, which is `err value_error`.
use hovorun_v.Prelude.{
  ℕ, ◌*◌, ◌-◌, ◌^◌, Bool, true, false, not, ◌&&◌, ◌||◌, xor, Option, none, some, String, is_some,
  String-discrete, ℕ_discrete, ℤ, pos, ℤ-discrete, abs, is_pos, ltb, leb, ◌==◌, decided,
  is_technical, is_hex, full_match, Result, ok, err, ◌>>=◌, ◌>>◌, raise_if, value_error,
}
use hovorun_v.Domain.{TargetKind, TargetKind-discrete, is_user, is_group, Timestamp, seconds}
use hovorun_v.Usage.Policies.{minute_seconds}

pub data TriggerKind : Type 0 where
  direct automatic : TriggerKind

unfoldable pub TriggerKind-discrete : Discrete TriggerKind
TriggerKind-discrete = hlevel

abbrev pub max_job_lifetime : Timestamp
max_job_lifetime = seconds (5 * minute_seconds)

pub record JobTarget : Type 0 where
  pub kind : TargetKind
  pub entity_id : ℕ
  pub generation : ℕ
  pub telegram_id : ℤ

unfoldable pub JobTarget-discrete : Discrete JobTarget
unfolding ℕ_discrete ℤ-discrete TargetKind-discrete
JobTarget-discrete = hlevel (ℕ_discrete, ℤ-discrete, TargetKind-discrete)

-- The constraints on the fields, and `JobTarget.validate_identity`.
unfoldable pub validate_target : JobTarget → Result (Unit {0})
validate_target t = do
  raise_if (t.entity_id == 0 || t.generation == 0) value_error
  raise_if (not (ltb 0 (abs t.telegram_id) && ltb (abs t.telegram_id) (2 ^ 63))) value_error
  raise_if (xor (is_user t.kind) (is_pos t.telegram_id)) value_error

pub record JobEnvelope : Type 0 where
  pub job_id : String
  pub payload_ref : String
  pub feature : String
  pub target : JobTarget
  pub actor_id : Option ℕ
  pub actor_generation : Option ℕ
  pub trigger : TriggerKind
  pub charged_kind : TargetKind
  pub charged_telegram_id : ℤ
  pub accepted_at : Timestamp
  pub deadline : Timestamp
  pub dedupe_key : String
  pub feature_epoch : ℕ
  pub message_id : ℕ

unfoldable pub JobEnvelope-discrete : Discrete JobEnvelope
unfolding ℕ_discrete ℤ-discrete TargetKind-discrete String-discrete JobTarget-discrete
    TriggerKind-discrete
JobEnvelope-discrete = hlevel (
  ℕ_discrete, ℤ-discrete, TargetKind-discrete, String-discrete, JobTarget-discrete,
  TriggerKind-discrete,
)

abbrev pub same_telegram_id : ℤ → ℤ → Bool
same_telegram_id a b = decided (ℤ-discrete a b)

-- `Field(default=None, gt=0, lt=bound)`
abbrev is_optional_id : ℕ → Option ℕ → Bool
is_optional_id bound none = true
is_optional_id bound (some n) = ltb 0 n && ltb n bound

-- The patterns and bounds on the single fields.
unfoldable pub validate_fields : JobEnvelope → Result (Unit {0})
unfolding full_match validate_target
validate_fields e = do
  raise_if (not (full_match is_technical 1 96 e.job_id)) value_error
  raise_if (not (full_match is_hex 32 32 e.payload_ref)) value_error
  raise_if (not (full_match is_technical 1 96 e.feature)) value_error
  validate_target e.target
  raise_if (not (is_optional_id (2 ^ 63) e.actor_id)) value_error
  raise_if (elim e.actor_generation [ none ↦ false | some g ↦ g == 0 ]) value_error
  raise_if (e.deadline == 0) value_error
  raise_if (not (full_match is_hex 64 64 e.dedupe_key)) value_error
  raise_if (e.message_id == 0) value_error

-- `_validate_deadline`
unfoldable pub validate_deadline : JobEnvelope → Result (Unit {0})
validate_deadline e =
    raise_if (leb e.deadline e.accepted_at || ltb max_job_lifetime (e.deadline - e.accepted_at))
      value_error

-- `_validate_automatic_binding`
unfoldable pub validate_automatic_binding : JobEnvelope → Result (Unit {0})
validate_automatic_binding e = do
  raise_if (not (is_group e.target.kind)) value_error
  raise_if
      (not (is_group e.charged_kind)
        || not (same_telegram_id e.charged_telegram_id e.target.telegram_id))
      value_error
  raise_if (xor (is_some e.actor_id) (is_some e.actor_generation)) value_error

-- `_require_direct_actor`
unfoldable pub require_direct_actor : JobEnvelope → Result ℕ
require_direct_actor e = elim e.actor_id [
  | none ↦ err value_error
  | some actor ↦ elim e.actor_generation [
    | none ↦ err value_error
    | some generation ↦
        raise_if (actor == 0) value_error >> (raise_if (generation == 0) value_error >> ok actor)
  ]
]

-- `_validate_direct_charge`
unfoldable pub validate_direct_charge : JobEnvelope → ℕ → Result (Unit {0})
validate_direct_charge e actor =
    raise_if
      (not (is_user e.charged_kind) || not (same_telegram_id e.charged_telegram_id (pos actor)))
      value_error

-- `_validate_private_target`
unfoldable pub validate_private_target : JobEnvelope → ℕ → Result (Unit {0})
validate_private_target e actor =
    raise_if (is_user e.target.kind && not (same_telegram_id e.target.telegram_id (pos actor)))
      value_error

unfoldable pub validate_direct_binding : JobEnvelope → Result (Unit {0})
unfolding require_direct_actor validate_direct_charge validate_private_target
validate_direct_binding e = do
  actor ← require_direct_actor e
  validate_direct_charge e actor
  validate_private_target e actor

-- `JobEnvelope.validate_binding`
unfoldable pub validate_binding : JobEnvelope → Result (Unit {0})
unfolding validate_deadline validate_automatic_binding validate_direct_binding
validate_binding e = do
  validate_deadline e
  elim e.trigger [ automatic ↦ validate_automatic_binding e | direct ↦ validate_direct_binding e ]

-- What pydantic runs to make an envelope.
unfoldable pub validate_envelope : JobEnvelope → Result (Unit {0})
unfolding validate_fields validate_binding
validate_envelope e = do validate_fields e; validate_binding e

pub data JobOutcome : Type 0 where
  complete outcome_expired payload_unavailable failed cancelled : JobOutcome

unfoldable pub JobOutcome-discrete : Discrete JobOutcome
JobOutcome-discrete = hlevel

abbrev pub same_outcome : JobOutcome → JobOutcome → Bool
same_outcome a b = decided (JobOutcome-discrete a b)
