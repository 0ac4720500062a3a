-- ===== src/Admission/Accounting/Entry.antt =====
-- Proofs about `admit` of admission.py: what an answer says of the space.
use hovorun_v.Prelude.{
  ℕ, ◌≤◌, ◌+◌, ◌≡◌, refl, sym, ap, false, none, lookup, put, ◌⊎◌, inl, inr, Result, ok, err, arith,
  Bool-cases, Option-cases, >>=-eq-ok, >>-then, ok-injective, max, raise_if, value_error, leb,
  unavailable, type_error, key_error, conflict, assertion_error,
}
use mathlib.Core.Path.{subst}
use hovorun_v.Domain.{Timestamp, second, Instant}
use hovorun_v.Jobs.Envelope.{JobEnvelope, validate_envelope}
use hovorun_v.Admission.Record.{stored, owner_of}
use hovorun_v.Admission.Capacity.{AdmissionLimits, AdmissionCapacity, is_full}
use hovorun_v.Admission.Limits.{IsWithin}
use hovorun_v.Admission.Space.{Space, rotation_score}
use hovorun_v.Admission.Store.{
  SealedPayload, AdmissionResult, initial_record, write_new, admit_attempt, admit, or_unavailable,
  read_duplicate, validate_payload, time_of, other_blob, check_record, check_record-eq-ok,
}
use hovorun_v.Admission.Accounting.{
  IsAccounted, keys_of, capacity_of, read_capacity_accounted, admission_keys_valid,
}
use hovorun_v.Admission.Accounting.Admit.{admitted-IsAccounted, admitted-IsWithin}

fits_payload :
    (c : AdmissionCapacity) (size : ℕ) (l : AdmissionLimits)
    → is_full c size l ≡ false
    → size ≤ l.safety.payload_bytes
unfolding is_full
fits_payload c size l h = ground arith

-- The space with one ticket more, within the limits.
pub record IsEntered (sp : Space) (e : JobEnvelope) (p : SealedPayload) (l : AdmissionLimits)
    (sp' : Space) : Type 0 where
  pub accounted : IsAccounted sp'
  pub within : IsWithin (capacity_of sp' (keys_of e)) l
  pub fresh : lookup e.job_id sp.tickets ≡ none
  pub fitting : p.byte_size ≤ l.safety.payload_bytes
  pub tickets : sp'.tickets ≡ put e.job_id (stored (initial_record e p (keys_of e))) sp.tickets

-- The space as it was, or with one ticket more.
abbrev pub IsAnswered : Space → JobEnvelope → SealedPayload → AdmissionLimits → Space → Type 0
IsAnswered sp e p l sp' = (sp' ≡ sp) ⊎ IsEntered sp e p l sp'

pub or_unavailable-eq-ok :
    (sp : Space) (m : Result (AdmissionResult × Space)) {x : AdmissionResult} {sp' : Space}
    → or_unavailable sp m ≡ ok (x, sp')
    → (m ≡ ok (x, sp')) ⊎ (sp' ≡ sp)
or_unavailable-eq-ok sp (ok done) h = inl h
or_unavailable-eq-ok sp (err unavailable) h = inr (sym (ap (λ d. d.1) (ok-injective h)))
or_unavailable-eq-ok sp (err value_error) h = cc
or_unavailable-eq-ok sp (err type_error) h = cc
or_unavailable-eq-ok sp (err key_error) h = cc
or_unavailable-eq-ok sp (err conflict) h = cc
or_unavailable-eq-ok sp (err assertion_error) h = cc

module _ (sp : Space) (e : JobEnvelope) (p : SealedPayload) (l : AdmissionLimits)
    (a : IsAccounted sp) where
  write_new-IsEntered :
      {x : AdmissionResult} {sp' : Space}
      → lookup e.job_id sp.tickets ≡ none
      → lookup e.dedupe_key sp.dedupe ≡ none
      → is_full (capacity_of sp (keys_of e)) p.byte_size l ≡ false
      → write_new sp (keys_of e) e p (capacity_of sp (keys_of e)) ≡ ok (x, sp')
      → IsEntered sp e p l sp'
  unfolding write_new
  write_new-IsEntered {x} {sp'} fresh unseen free h =
      let (_, rest) =
        >>-then (raise_if (other_blob (lookup e.payload_ref sp.payloads) p) value_error) h in
      let (checked, rest1) = >>-then (check_record (initial_record e p (keys_of e))) rest in
      let valid = check_record-eq-ok (initial_record e p (keys_of e)) checked in
      let (last_lane, f, rest2) = >>=-eq-ok (rotation_score 1 sp.rotation) _ rest1 in
      let (last_job, g, done) =
        >>=-eq-ok (rotation_score second (sp.lanes (owner_of e, e.feature))) _ rest2 in
      subst (IsEntered sp e p l) (ap (λ d. d.1) (ok-injective done)) (record {
        accounted =
            admitted-IsAccounted sp e p a fresh unseen valid (last_lane + 1)
              (max e.accepted_at (last_job + second));
        within =
            admitted-IsWithin sp e p a fresh unseen valid (last_lane + 1)
              (max e.accepted_at (last_job + second)) l free;
        fresh = fresh;
        fitting = fits_payload (capacity_of sp (keys_of e)) p.byte_size l free;
        tickets = refl;
      })

  attempt_new :
      (t : Timestamp) {x : AdmissionResult} {sp' : Space}
      → lookup e.dedupe_key sp.dedupe ≡ none
      → lookup e.job_id sp.tickets ≡ none
      → leb e.deadline t ≡ false
      → admit_attempt sp (keys_of e) e p l t ≡ ok (x, sp')
      → IsAnswered sp e p l sp'
  unfolding admit_attempt
  attempt_new t unseen fresh early h =
      let entry =
        rw (unseen, fresh, early, read_capacity_accounted sp (keys_of e) a.counted, admit_attempt)
          at h in
      elim (Bool-cases (is_full (capacity_of sp (keys_of e)) p.byte_size l)) [
        | inl no_room ↦ inl (sym (ap (λ d. d.1) (ok-injective (rw no_room at entry))))
        | inr free ↦ inr (write_new-IsEntered fresh unseen free (rw free at entry))
      ]

  -- What an attempt did, told from its result.
  admit_attempt-IsAnswered :
      (t : Timestamp) {x : AdmissionResult} {sp' : Space}
      → admit_attempt sp (keys_of e) e p l t ≡ ok (x, sp')
      → IsAnswered sp e p l sp'
  unfolding admit_attempt
  admit_attempt-IsAnswered t h = elim (Option-cases (lookup e.dedupe_key sp.dedupe)) [
    | inr (old, seen) ↦
        let (found, _, done) =
          >>=-eq-ok (read_duplicate sp old e) _ (rw (seen, admit_attempt) at h) in
        inl (sym (ap (λ d. d.1) (ok-injective done)))
    | inl unseen ↦ elim (Option-cases (lookup e.job_id sp.tickets)) [
      | inr (v, there) ↦ absurd (ground arith)
      | inl fresh ↦ elim (Bool-cases (leb e.deadline t)) [
        | inl late ↦ inl (ground arith)
        | inr early ↦ attempt_new t unseen fresh early h
      ]
    ]
  ]

  -- An admission that answers leaves an accounted space as it was, or with the new ticket, still
  -- accounted and within every limit.
  pub admit-IsAnswered :
      (now : Instant) {x : AdmissionResult} {sp' : Space}
      → validate_envelope e ≡ ok tt
      → admit sp e p l now ≡ ok (x, sp')
      → IsAnswered sp e p l sp'
  unfolding admit
  admit-IsAnswered now v h =
      let (_, rest) = >>-then (validate_payload e p now) h in
      let run = rw (admission_keys_valid e v) at rest in
      elim (or_unavailable-eq-ok sp (admit_attempt sp (keys_of e) e p l (time_of now)) run) [
        | inl done ↦ admit_attempt-IsAnswered (time_of now) done
        | inr same ↦ inl same
      ]
