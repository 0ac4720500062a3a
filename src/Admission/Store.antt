-- ===== src/Admission/Store.antt =====
-- src/hovorunv2/infrastructure/runtime/admission.py: the transactions of `ValkeyAdmissionStore`, each as
-- a function of the space that its reads see and that its writes replace.
use hovorun_v.Prelude.{
  ℕ, ◌≡◌, arith, ◌+◌, max, Bool, true, false, not, ◌&&◌, ◌||◌, Option, none, some, String, str_eq,
  ltb, leb, ◌==◌, length, lookup, put, remove, is_some, if◌then◌else◌, Result, ok, err, ◌>>=◌, ◌>>◌,
  raise_if, value_error, unavailable, assertion_error,
}
use hovorun_v.Domain.{Timestamp, second, Instant, at, negative, nonfinite}
use hovorun_v.Usage.Budgets.{is_technical_id}
use hovorun_v.Jobs.Envelope.{JobEnvelope}
use hovorun_v.Admission.Record.{
  AdmissionRecord, AdmissionKeys, AdmissionTicket, accepted, media, admission_keys, record_keys,
  read_record, validate_record, ticket_of, is_terminal, stored,
}
use hovorun_v.Admission.Transition.{AdmissionTransition, AdmissionChange, calculate_change}
use hovorun_v.Admission.Capacity.{
  AdmissionCapacity, AdmissionLimits, read_capacity, is_full, require_active, admitted_counters,
  released_counters,
}
use hovorun_v.Admission.Space.{
  Space, counters_of, write_counters, rotation_of, add_lane, remove_lane, rotation_score, set_lane,
  byte_length,
}

-- feature_jobs.py
pub record SealedPayload : Type 0 where
  pub reference : String
  pub job_id : String
  pub blob : String
  pub deadline : Timestamp
  pub byte_size : ℕ

pub data AdmissionState : Type 0 where
  is_admitted duplicate enqueued_state full expired_state denied unavailable_state ended :
      AdmissionState

pub record AdmissionResult : Type 0 where
  pub state : AdmissionState
  pub ticket : Option AdmissionTicket

abbrev pub answer : AdmissionState → AdmissionResult
answer s = record { state = s; ticket = none }

abbrev precedes : Instant → Timestamp → Bool
precedes (at t) accepted_at = ltb t accepted_at
precedes negative accepted_at = true
precedes nonfinite accepted_at = true

-- `_validate_payload`
unfoldable pub validate_payload : JobEnvelope → SealedPayload → Instant → Result (Unit {0})
unfolding byte_length
validate_payload e p now = do
  raise_if (precedes now e.accepted_at) value_error
  raise_if (not (str_eq p.reference e.payload_ref) || not (str_eq p.job_id e.job_id)) value_error
  raise_if (not (p.deadline == e.deadline)) value_error
  raise_if (not (p.byte_size == byte_length p.blob) || p.byte_size == 0) value_error

-- `_initial_record`, before its validators.
abbrev pub initial_record : JobEnvelope → SealedPayload → AdmissionKeys → AdmissionRecord
initial_record e p keys = record {
  envelope = e;
  state = accepted;
  stage = media;
  byte_size = p.byte_size;
  attempt = 0;
  token = "";
  published = 0;
  publication_registered = 0;
  retry_at = 0;
  not_before = 0;
  subject_key = keys.subject;
  ingress_key = keys.ingress;
  payload_key = keys.payload;
  dedupe_key = keys.dedupe;
  outcome = none;
  settlement = none;
  budget_reserved = false;
  delayed_notice_requested = false;
  terminal_notice_requested = false;
  delayed_notice_claimed = false;
  terminal_notice_claimed = false;
  failure_notice_claimed = false;
}

-- `_read_duplicate`, with `_duplicate_id` and `_validate_duplicate`.
unfoldable pub read_duplicate : Space → String → JobEnvelope → Result AdmissionResult
unfolding is_technical_id read_record record_keys
read_duplicate sp old_id e = do
  raise_if (not (is_technical_id old_id)) unavailable
  r ← elim (lookup old_id sp.tickets) [ none ↦ err unavailable | some raw ↦ read_record raw ]
  keys ← record_keys r
  raise_if
      (not (str_eq r.envelope.job_id old_id) || not (str_eq r.envelope.dedupe_key e.dedupe_key))
      unavailable
  ok (record { state = duplicate; ticket = some (ticket_of r) })

abbrev pub other_blob : Option String → SealedPayload → Bool
other_blob none p = false
other_blob (some blob) p = not (str_eq blob p.blob)

-- `_write_admission`; the payload and the two last jobs of a lane are kept apart from the counters.
abbrev pub write_admission :
    Space
    → AdmissionKeys
    → AdmissionRecord
    → SealedPayload
    → AdmissionCapacity
    → ℕ
    → Timestamp
    → Space
write_admission sp keys r p c rotation_next lane_next =
    let counted = write_counters sp keys (admitted_counters (counters_of sp keys) c p.byte_size) in
    record counted {
      payloads =
          if is_some (lookup keys.payload sp.payloads)
          then sp.payloads
          else put keys.payload p.blob sp.payloads;
      tickets = put keys.ticket (stored r) sp.tickets;
      dedupe = put keys.dedupe r.envelope.job_id sp.dedupe;
      handoff = put r.envelope.job_id r.envelope.deadline sp.handoff;
      pending = put r.envelope.job_id r.envelope.deadline sp.pending;
      rotation = add_lane keys.lane rotation_next sp.rotation;
      lanes = set_lane keys.lane (put r.envelope.job_id lane_next (sp.lanes keys.lane)) sp.lanes;
    }

-- What pydantic runs to make a record; a `ValidationError` is a `ValueError`.
unfoldable pub check_record : AdmissionRecord → Result (Unit {0})
check_record r = elim (validate_record r) [ ok _ ↦ ok tt | err _ ↦ err value_error ]

pub check_record-eq-ok : (r : AdmissionRecord) → check_record r ≡ ok tt → validate_record r ≡ ok tt
unfolding check_record
check_record-eq-ok r h = ground arith

-- What the admission of a new job does once it is known to fit.
unfoldable pub write_new :
    Space
    → AdmissionKeys
    → JobEnvelope
    → SealedPayload
    → AdmissionCapacity
    → Result (AdmissionResult × Space)
unfolding admitted_counters rotation_score add_lane check_record
write_new sp keys e p c = do
  raise_if (other_blob (lookup keys.payload sp.payloads) p) value_error
  let r = initial_record e p keys
  check_record r
  last_lane ← rotation_score 1 sp.rotation
  last_job ← rotation_score second (sp.lanes keys.lane)
  let next_job = max e.accepted_at (last_job + second)
  ok (
    record { state = is_admitted; ticket = some (ticket_of r) },
    write_admission sp keys r p c (last_lane + 1) next_job,
  )

-- `_admit_attempt`
unfoldable pub admit_attempt :
    Space
    → AdmissionKeys
    → JobEnvelope
    → SealedPayload
    → AdmissionLimits
    → Timestamp
    → Result (AdmissionResult × Space)
unfolding read_duplicate write_new read_capacity is_full
admit_attempt sp keys e p l now = elim (lookup keys.dedupe sp.dedupe) [
  | some old_id ↦ (read_duplicate sp old_id e >>= λ found. ok (found, sp))
  | none ↦
      if is_some (lookup keys.ticket sp.tickets)
      then err value_error
      else if leb e.deadline now
      then ok (answer expired_state, sp)
      else read_capacity (counters_of sp keys) >>= λ c.
          (if is_full c p.byte_size l then ok (answer full, sp) else write_new sp keys e p c)
]

-- `except AdmissionUnavailableError`
abbrev pub or_unavailable :
    Space → Result (AdmissionResult × Space) → Result (AdmissionResult × Space)
or_unavailable sp (ok done) = ok done
or_unavailable sp (err unavailable) = ok (answer unavailable_state, sp)
or_unavailable sp (err other) = err other

abbrev pub time_of : Instant → Timestamp
time_of (at t) = t
time_of negative = 0
time_of nonfinite = 0

-- `admit`, by an attempt that no other client disturbs, where the connection holds.
unfoldable pub admit :
    Space
    → JobEnvelope
    → SealedPayload
    → AdmissionLimits
    → Instant
    → Result (AdmissionResult × Space)
unfolding validate_payload admit_attempt admission_keys
admit sp e p l now = do
  validate_payload e p now
  keys ← admission_keys e
  or_unavailable sp (admit_attempt sp keys e p l (time_of now))

-- What the connection does to a request that writes.
pub data Link : Type 0 where
  connected request_lost answer_lost : Link

abbrev pub admission_answer : Result (AdmissionResult × Space) → Result AdmissionResult
admission_answer (ok done) = ok done.0
admission_answer (err e) = err e

abbrev pub admitted_space : Space → Result (AdmissionResult × Space) → Space
admitted_space sp (ok done) = done.1
admitted_space sp (err e) = sp

-- `except RedisError, OSError`: what `admit` answers when the connection is lost.
unfoldable pub admit_unreached : JobEnvelope → SealedPayload → Instant → Result AdmissionResult
unfolding validate_payload admission_keys
admit_unreached e p now = do
  validate_payload e p now
  keys ← admission_keys e
  ok (answer unavailable_state)

-- `admit` over a connection that may be lost: before the server has made the transaction, which then
-- writes nothing, or after it.
unfoldable pub admit_over :
    Link
    → Space
    → JobEnvelope
    → SealedPayload
    → AdmissionLimits
    → Instant
    → Result AdmissionResult × Space
unfolding admit admit_unreached
admit_over connected sp e p l now =
    let done = admit sp e p l now in (admission_answer done, admitted_space sp done)
admit_over request_lost sp e p l now = (admit_unreached e p now, sp)
admit_over answer_lost sp e p l now =
    (admit_unreached e p now, admitted_space sp (admit sp e p l now))

-- `_read_active_capacity`, with `_require_rotation_member`. The last number is `lane_pending`.
unfoldable pub read_active_capacity :
    Space → AdmissionKeys → AdmissionRecord → String → Result (AdmissionCapacity × ℕ)
unfolding read_capacity require_active
read_active_capacity sp keys r id = do
  c ← read_capacity (counters_of sp keys)
  pointer ← elim (lookup keys.dedupe sp.dedupe) [ none ↦ err unavailable | some p ↦ ok p ]
  require_active c r pointer (lookup id sp.pending) (lookup id sp.handoff)
  raise_if (not (is_some (rotation_of keys.lane sp.rotation))) unavailable
  raise_if (not (is_some (lookup id (sp.lanes keys.lane)))) unavailable
  ok (c, length (sp.lanes keys.lane))

-- The writes of `_write_change` for a release.
abbrev pub write_release : Space → AdmissionKeys → AdmissionRecord → AdmissionCapacity → ℕ → Space
write_release sp keys r c lane_pending =
    let counted = write_counters sp keys (released_counters (counters_of sp keys) c r.byte_size) in
    record counted {
      payloads = remove keys.payload sp.payloads;
      pending = remove r.envelope.job_id sp.pending;
      lanes = set_lane keys.lane (remove r.envelope.job_id (sp.lanes keys.lane)) sp.lanes;
      rotation = if lane_pending == 1 then remove_lane keys.lane sp.rotation else sp.rotation;
      tickets = put keys.ticket (stored r) sp.tickets;
    }

abbrev pub write_handoff : Space → AdmissionRecord → Option Bool → Space
write_handoff sp r none = sp
write_handoff sp r (some true) = record sp {
  handoff = put r.envelope.job_id r.envelope.deadline sp.handoff;
}
write_handoff sp r (some false) = record sp { handoff = remove r.envelope.job_id sp.handoff }

unfoldable pub write_record :
    Space
    → AdmissionKeys
    → AdmissionChange
    → AdmissionRecord
    → Option (AdmissionCapacity × ℕ)
    → Result Space
unfolding released_counters remove_lane
write_record sp keys c r capacity =
    if c.release
    then elim capacity [
      | none ↦ err assertion_error
      | some (k, lane_pending) ↦
          ok (write_handoff (write_release sp keys r k lane_pending) r c.handoff)
    ]
    else ok
        (write_handoff (record sp { tickets = put keys.ticket (stored r) sp.tickets }) r c.handoff)

-- `_write_change`
unfoldable pub write_change :
    Space → AdmissionKeys → AdmissionChange → Option (AdmissionCapacity × ℕ) → Result Space
unfolding write_record
write_change sp keys c capacity = elim c.next [
  | none ↦ ok sp
  | some r ↦ if c.write then write_record sp keys c r capacity else ok sp
]

-- What `_apply_attempt` does with a ticket that it has read.
unfoldable pub apply_ticket :
    Space
    → String
    → AdmissionRecord
    → AdmissionKeys
    → AdmissionTransition
    → Result (AdmissionChange × Space)
unfolding read_active_capacity write_change
apply_ticket sp id r keys q = do
  change ← calculate_change r q
  capacity ←
      if change.write && not (is_terminal r.state)
      then (read_active_capacity sp keys r id >>= λ c. ok (some c))
      else ok none
  sp' ← write_change sp keys change capacity
  ok (change, sp')

-- `_apply_attempt`
unfoldable pub apply_attempt :
    Space → String → AdmissionTransition → Result (Option AdmissionChange × Space)
unfolding read_record record_keys apply_ticket
apply_attempt sp id q = elim (lookup id sp.tickets) [
  | none ↦ ok (none, sp)
  | some raw ↦ read_record raw >>= λ r.
      (record_keys r >>= λ keys.
      (raise_if (not (str_eq keys.ticket id)) unavailable
        >> (apply_ticket sp id r keys q >>= λ done. ok (some done.0, done.1))))
]
