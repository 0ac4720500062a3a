-- ===== src/Admission/Accounting/Answers.antt =====
-- Proofs about `admit` of admission.py: when which answer is given.
use hovorun_v.Prelude.{
  ◌⊎◌, Result-cases, ◌≤◌, total, ◌+◌, ◌*◌, ◌<◌, ◌≡◌, ◌≢◌, refl, sym, ◌∙◌, ap, false, none, some,
  is_some, eq_iff, lookup, lookup-Each, ok, arith, Bool-cases, Option-cases, inl, inr, >>=-eq-ok,
  >>-then, ok-injective, leb, raise_if, value_error,
}
use mathlib.Core.Path.{subst}
use hovorun_v.Domain.{Instant, Timestamp, second}
use hovorun_v.Usage.Budgets.{max_exact_integer}
use hovorun_v.Jobs.Envelope.{JobEnvelope, validate_envelope}
use hovorun_v.Admission.Record.{
  AdmissionRecord, AdmissionKeys, admission_keys, is_terminal, stored, ticket_of, read_record,
  owner_of, ingress_of,
}
use hovorun_v.Admission.Valid.{validate_record_iff}
use hovorun_v.Admission.Capacity.{AdmissionLimits, AdmissionCapacity, is_full, read_capacity}
use hovorun_v.Admission.Space.{Space, rotation_score, top, counters_of}
use hovorun_v.Admission.Store.{
  SealedPayload, AdmissionResult, is_admitted, duplicate, full, validate_payload, initial_record,
  read_duplicate, other_blob, check_record, write_new, admit_attempt, or_unavailable, time_of,
  admit, Link, connected, request_lost, answer_lost, admit_over, admit_unreached, admitted_space,
  AdmissionState, enqueued_state, expired_state, denied, unavailable_state, ended,
}
use hovorun_v.Admission.Accounting.{
  one, bytes, by_subject, by_ingress, IsAccounted, IsBound, IsTicket, keys_of, admission_keys_valid,
  technical_id, record_keys-IsBound,
}
use hovorun_v.Admission.Accounting.Entry.{or_unavailable-eq-ok}

-- A job that an admission finds neither admitted nor late, with a payload that it can store and with
-- rotations whose scores can grow.
pub record IsOpen (sp : Space) (e : JobEnvelope) (p : SealedPayload) (now : Instant) : Type 0 where
  pub unseen : lookup e.dedupe_key sp.dedupe ≡ none
  pub fresh : lookup e.job_id sp.tickets ≡ none
  pub early : leb e.deadline (time_of now) ≡ false
  pub blob : other_blob (lookup e.payload_ref sp.payloads) p ≡ false
  pub rotation : top sp.rotation < max_exact_integer
  pub lane : top (sp.lanes (owner_of e, e.feature)) < max_exact_integer * second

-- One more job with this payload keeps to every limit.
pub record HasRoom (sp : Space) (e : JobEnvelope) (p : SealedPayload) (l : AdmissionLimits)
    : Type 0 where
  pub global : total one sp.tickets + 1 ≤ l.safety.global_pending
  pub all_bytes : total bytes sp.tickets + p.byte_size ≤ l.safety.total_payload_bytes
  pub payload : p.byte_size ≤ l.safety.payload_bytes
  pub subject : total (by_subject (owner_of e)) sp.tickets + 1 ≤ l.subject_pending
  pub ingress : total (by_ingress (ingress_of e)) sp.tickets + 1 ≤ l.ingress_pending

module _ (sp : Space) (e : JobEnvelope) (p : SealedPayload) (l : AdmissionLimits)
    (now : Instant) where
  admit_run :
      validate_envelope e ≡ ok tt
      → validate_payload e p now ≡ ok tt
      → admit sp e p l now ≡ or_unavailable sp (admit_attempt sp (keys_of e) e p l (time_of now))
  unfolding admit
  admit_run v w = rw (w, admission_keys_valid e v, admit) refl

  duplicate_read :
      (r : AdmissionRecord)
      → IsBound e.job_id r
      → validate_envelope e ≡ ok tt
      → lookup e.job_id sp.tickets ≡ some (stored r)
      → r.envelope ≡ e
      → read_duplicate sp e.job_id e
        ≡ ok (record { state = duplicate; ticket = some (ticket_of r) })
  unfolding read_duplicate read_record
  duplicate_read r b v found same = ground (
    arith,
    found,
    technical_id e v,
    (validate_record_iff r).1 b.kept.valid,
    record_keys-IsBound e.job_id r b,
    eq_iff r.envelope.job_id e.job_id,
    eq_iff r.envelope.dedupe_key e.dedupe_key,
    same,
  )

  -- While the ticket of a job has not ended, the same envelope is not admitted again in an accounted
  -- space: with any valid payload, under any limits, the answer is that ticket, and nothing is written.
  pub admit_duplicate :
      (r : AdmissionRecord)
      → IsAccounted sp
      → validate_payload e p now ≡ ok tt
      → lookup e.job_id sp.tickets ≡ some (stored r)
      → r.envelope ≡ e
      → is_terminal r.state ≡ false
      → admit sp e p l now ≡ ok (record { state = duplicate; ticket = some (ticket_of r) }, sp)
  unfolding admit_attempt
  admit_duplicate r a w found same live =
      let b : IsBound e.job_id r = lookup-Each IsTicket e.job_id sp.tickets a.counted.bound found in
      let v : validate_envelope e ≡ ok tt =
        subst (λ x. validate_envelope x ≡ ok tt) same b.kept.valid.bound in
      let pointer : lookup e.dedupe_key sp.dedupe ≡ some e.job_id =
        subst (λ x. lookup x.dedupe_key sp.dedupe ≡ some e.job_id) same
          (a.counted.placed e.job_id r found live).pointer in
      admit_run v w ∙ rw (pointer, admit_attempt, duplicate_read r b v found same) refl

  -- The answer to a job that is admitted.
  abbrev pub admitted_answer : AdmissionResult
  admitted_answer = record {
    state = is_admitted;
    ticket = some (ticket_of (initial_record e p (keys_of e)));
  }

write_new_state :
    (sp : Space) (keys : AdmissionKeys) (e : JobEnvelope) (p : SealedPayload)
    (c : AdmissionCapacity) {x : AdmissionResult} {sp' : Space}
    → write_new sp keys e p c ≡ ok (x, sp')
    → x.state ≡ is_admitted
unfolding write_new
write_new_state sp keys e p c {x} {sp'} h =
    let (_, rest) =
      >>-then (raise_if (other_blob (lookup keys.payload sp.payloads) p) value_error) h in
    let (_, rest1) = >>-then (check_record (initial_record e p keys)) rest in
    let (_, _, rest2) = >>=-eq-ok (rotation_score 1 sp.rotation) _ rest1 in
    let (_, _, done) = >>=-eq-ok (rotation_score second (sp.lanes keys.lane)) _ rest2 in
    sym (ap (λ d. d.0.state) (ok-injective done))

attempt_refused :
    (sp : Space) (keys : AdmissionKeys) (e : JobEnvelope) (p : SealedPayload) (l : AdmissionLimits)
    (t : Timestamp) {x : AdmissionResult} {sp' : Space}
    → admit_attempt sp keys e p l t ≡ ok (x, sp')
    → x.state ≢ is_admitted
    → sp' ≡ sp
unfolding admit_attempt
attempt_refused sp keys e p l t {x} {sp'} h other =
    elim (Option-cases (lookup keys.dedupe sp.dedupe)) [
      | inr (old, seen) ↦
          let (_, _, done) =
            >>=-eq-ok (read_duplicate sp old e) _ (rw (seen, admit_attempt) at h) in
          sym (ap (λ d. d.1) (ok-injective done))
      | inl unseen ↦ elim (Bool-cases (is_some (lookup keys.ticket sp.tickets))) [
        | inl there ↦ absurd (ground arith)
        | inr fresh ↦ elim (Bool-cases (leb e.deadline t)) [
          | inl late ↦ ground arith
          | inr early ↦
              let (c, _, done) =
                >>=-eq-ok (read_capacity (counters_of sp keys)) _
                  (rw (unseen, fresh, early, admit_attempt) at h) in
              elim (Bool-cases (is_full c p.byte_size l)) [
                | inl no_room ↦ sym (ap (λ d. d.1) (ok-injective (rw no_room at done)))
                | inr free ↦ absurd (other (write_new_state sp keys e p c (rw free at done)))
              ]
        ]
      ]
    ]

connected_refused :
    (sp : Space) (e : JobEnvelope) (p : SealedPayload) (l : AdmissionLimits) (now : Instant)
    {x : AdmissionResult} {sp' : Space}
    → admit sp e p l now ≡ ok (x, sp')
    → x.state ≢ is_admitted
    → sp' ≡ sp
unfolding admit
connected_refused sp e p l now h other =
    let (_, rest) = >>-then (validate_payload e p now) h in
    let (keys, _, run) = >>=-eq-ok (admission_keys e) _ rest in
    elim (or_unavailable-eq-ok sp (admit_attempt sp keys e p l (time_of now)) run) [
      | inl done ↦ attempt_refused sp keys e p l (time_of now) done other
      | inr same ↦ same
    ]

is_admitted_or : (s : AdmissionState) → (s ≡ is_admitted) ⊎ (s ≢ is_admitted)
is_admitted_or is_admitted = inl refl
is_admitted_or duplicate = inr λ e. cc
is_admitted_or enqueued_state = inr λ e. cc
is_admitted_or full = inr λ e. cc
is_admitted_or expired_state = inr λ e. cc
is_admitted_or denied = inr λ e. cc
is_admitted_or unavailable_state = inr λ e. cc
is_admitted_or ended = inr λ e. cc

unreached_state :
    (e : JobEnvelope) (p : SealedPayload) (now : Instant) {x : AdmissionResult}
    → admit_unreached e p now ≡ ok x
    → x.state ≡ unavailable_state
unfolding admit_unreached
unreached_state e p now h =
    let (_, rest) = >>-then (validate_payload e p now) h in
    let (_, _, done) = >>=-eq-ok (admission_keys e) _ rest in
    sym (ap (λ x. x.state) (ok-injective done))

module _ (sp : Space) (e : JobEnvelope) (p : SealedPayload) (l : AdmissionLimits)
    (now : Instant) where
  -- The job was admitted, and the space is the one that its admission has written.
  pub record IsWritten (sp' : Space) : Type 0 where
    pub result : AdmissionResult
    pub admitted : result.state ≡ is_admitted
    pub made : admit sp e p l now ≡ ok (result, sp')

  lost_answer :
      (admitted_space sp (admit sp e p l now) ≡ sp)
      ⊎ IsWritten (admitted_space sp (admit sp e p l now))
  lost_answer = elim (Result-cases (admit sp e p l now)) [
    | inr (x, h) ↦ inl (rw h refl)
    | inl ((x, sp'), h) ↦ elim (is_admitted_or x.state) [
      | inl yes_admitted ↦ inr (record { result = x; admitted = yes_admitted; made = rw h refl })
      | inr other ↦ inl (rw h (connected_refused sp e p l now h other))
    ]
  ]

  -- An admission that answers anything but that the job is admitted has written nothing, whatever state
  -- it found and wherever the connection is lost, except that the answer of an admission may be lost:
  -- then the answer is that the store is unavailable, and what was written is a whole admission.
  pub admit_refused :
      (link : Link) {x : AdmissionResult}
      → (admit_over link sp e p l now).0 ≡ ok x
      → x.state ≢ is_admitted
      → ((admit_over link sp e p l now).1 ≡ sp)
        ⊎ ((link ≡ answer_lost)
            × (x.state ≡ unavailable_state)
            × IsWritten (admit_over link sp e p l now).1)
  unfolding admit_over
  admit_refused connected {x} h other = elim (Result-cases (admit sp e p l now)) [
    | inr (y, made) ↦ inl (rw made refl)
    | inl ((y, sp'), made) ↦
        let same : y ≡ x = ok-injective (rw made at h) in
        inl (
          rw made (
            connected_refused sp e p l now made
              (subst (λ z. z.state ≢ is_admitted) (sym same) other)))
  ]
  admit_refused request_lost h other = inl refl
  admit_refused answer_lost h other = elim lost_answer [
    | inl kept ↦ inl kept
    | inr written ↦ inr (refl, unreached_state e p now h, written)
  ]
