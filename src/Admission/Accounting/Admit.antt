-- ===== src/Admission/Accounting/Admit.antt =====
-- Proofs about `_admit_attempt` of admission.py in an accounted space.
use hovorun_v.Prelude.{
  ℕ, ◌+◌, ◌≡◌, refl, sym, true, false, none, some, String, str_eq, eq_iff, is_some, lookup,
  put-Each, put-IsKeyed, lookup-put, length-put_new, total, total-put_new, ok, arith, Bool-cases,
  inl, inr,
}
use mathlib.Core.Path.{subst}
use hovorun_v.Domain.{Timestamp}
use hovorun_v.Jobs.Envelope.{JobEnvelope}
use hovorun_v.Admission.Record.{
  AdmissionRecord, Owner, owner_of, Ingress, ingress_of, is_terminal, Stored, stored,
  validate_record,
}
use hovorun_v.Admission.Valid.{validate_record_iff}
use hovorun_v.Admission.Capacity.{
  is_full, admitted_counters, read_totals, read_counter, AdmissionLimits,
}
use hovorun_v.Admission.Limits.{grown, IsWithin, read_capacity-admitted_counters}
use hovorun_v.Admission.Space.{
  Space, Lane, same_lane, same_lane_iff, rotation_of-add_lane, same_owner, same_owner_iff,
  same_ingress, same_ingress_iff, counters_of,
}
use hovorun_v.Admission.Store.{SealedPayload, initial_record, write_admission}
use hovorun_v.Admission.Accounting.{
  IsAccounted, IsPlaced, IsBound, IsTicket, keys_of, one, bytes, by_subject, by_ingress,
  capacity_of, read_capacity_accounted,
}

module _ (sp : Space) (e : JobEnvelope) (p : SealedPayload) (a : IsAccounted sp)
    (fresh : lookup e.job_id sp.tickets ≡ none) (unseen : lookup e.dedupe_key sp.dedupe ≡ none)
    (valid : validate_record (initial_record e p (keys_of e)) ≡ ok tt) (rotation_next : ℕ)
    (lane_next : Timestamp) where
  abbrev pub newcomer : AdmissionRecord
  newcomer = initial_record e p (keys_of e)

  abbrev pub admitted : Space
  admitted =
      write_admission sp (keys_of e) newcomer p (capacity_of sp (keys_of e)) rotation_next lane_next

  newcomer-IsBound : IsBound e.job_id newcomer
  newcomer-IsBound = record {
    kept = record {
      valid = (validate_record_iff newcomer).0 valid;
      attempted = λ h. cc;
      accounted = λ h. cc;
    };
    job = refl;
    subject = refl;
    ingress = refl;
    payload = refl;
    dedupe = refl;
  }

  more : (w : Stored → ℕ) → total w admitted.tickets ≡ total w sp.tickets + w (stored newcomer)
  more w = total-put_new w e.job_id (stored newcomer) sp.tickets fresh

  admitted_subject :
      read_counter true (admitted.subjects (owner_of e))
      ≡ ok (total (by_subject (owner_of e)) admitted.tickets)
  unfolding read_counter admitted_counters
  admitted_subject =
      ground
        (arith, (same_owner_iff (owner_of e) (owner_of e)).1 refl, more (by_subject (owner_of e)))

  admitted_ingress :
      read_counter true (admitted.ingresses (ingress_of e))
      ≡ ok (total (by_ingress (ingress_of e)) admitted.tickets)
  unfolding read_counter admitted_counters
  admitted_ingress = ground (
    arith,
    (same_ingress_iff (ingress_of e) (ingress_of e)).1 refl,
    more (by_ingress (ingress_of e)),
  )

  admitted_subjects :
      (o : Owner)
      → read_counter true (admitted.subjects o) ≡ ok (total (by_subject o) admitted.tickets)
  admitted_subjects o = elim (Bool-cases (same_owner o (owner_of e))) [
    | inl q ↦
        subst
          (λ x.
            read_counter true (admitted.subjects x) ≡ ok (total (by_subject x) admitted.tickets))
          (sym ((same_owner_iff o (owner_of e)).0 q)) admitted_subject
    | inr q ↦ ground (
      arith,
      q,
      a.counted.subjects o,
      more (by_subject o),
      same_owner_iff o (owner_of e),
      same_owner_iff (owner_of e) o,
    )
  ]

  admitted_ingresses :
      (i : Ingress)
      → read_counter true (admitted.ingresses i) ≡ ok (total (by_ingress i) admitted.tickets)
  admitted_ingresses i = elim (Bool-cases (same_ingress i (ingress_of e))) [
    | inl q ↦
        subst
          (λ x.
            read_counter true (admitted.ingresses x) ≡ ok (total (by_ingress x) admitted.tickets))
          (sym ((same_ingress_iff i (ingress_of e)).0 q)) admitted_ingress
    | inr q ↦ ground (
      arith,
      q,
      a.counted.ingresses i,
      more (by_ingress i),
      same_ingress_iff i (ingress_of e),
      same_ingress_iff (ingress_of e) i,
    )
  ]

  absent_pending : lookup e.job_id sp.pending ≡ none
  absent_pending = rw (a.counted.pending e.job_id, fresh) refl

  abbrev left : Lane
  left = (owner_of e, e.feature)

  IsPlaced-new : IsPlaced admitted e.job_id newcomer
  IsPlaced-new = record {
    pointer = ground (
      arith,
      lookup-put e.dedupe_key e.dedupe_key e.job_id sp.dedupe,
      eq_iff e.dedupe_key e.dedupe_key,
    );
    lane =
        ground (
          arith,
          rotation_of-add_lane left left rotation_next sp.rotation,
          same_lane_iff left left,
        );
    turn = ground (
      arith,
      same_lane_iff left left,
      eq_iff e.job_id e.job_id,
      lookup-put e.job_id e.job_id lane_next (sp.lanes left),
    );
  }

  kept_turn :
      (m : Lane) (j : String)
      → is_some (lookup j (sp.lanes m)) ≡ true
      → is_some (lookup j (admitted.lanes m)) ≡ true
  kept_turn m j h = elim (Bool-cases (same_lane m left)) [
    | inl q ↦
        let here : is_some (lookup j (sp.lanes left)) ≡ true =
          subst (λ x. is_some (lookup j (sp.lanes x)) ≡ true) ((same_lane_iff m left).0 q) h in
        ground (arith, q, lookup-put j e.job_id lane_next (sp.lanes left))
    | inr q ↦ ground (arith, q, h)
  ]

  IsPlaced-old : (j : String) (s : AdmissionRecord) → IsPlaced sp j s → IsPlaced admitted j s
  IsPlaced-old j s h = record {
    pointer = ground (
      arith,
      h.pointer,
      unseen,
      lookup-put s.envelope.dedupe_key e.dedupe_key e.job_id sp.dedupe,
      eq_iff e.dedupe_key s.envelope.dedupe_key,
    );
    lane = ground (
      arith,
      h.lane,
      rotation_of-add_lane (owner_of s.envelope, s.envelope.feature) left rotation_next sp.rotation,
    );
    turn = kept_turn (owner_of s.envelope, s.envelope.feature) j h.turn;
  }

  admitted-IsPlaced :
      (j : String) (s : AdmissionRecord)
      → lookup j admitted.tickets ≡ some (stored s)
      → is_terminal s.state ≡ false
      → IsPlaced admitted j s
  admitted-IsPlaced j s at live = elim (Bool-cases (str_eq e.job_id j)) [
    | inl q ↦
        let value : newcomer ≡ s =
          ground (arith, lookup-put j e.job_id (stored newcomer) sp.tickets) in
        subst (λ k. IsPlaced admitted k s) ((eq_iff e.job_id j).0 q)
          (subst (IsPlaced admitted e.job_id) value IsPlaced-new)
    | inr q ↦ IsPlaced-old j s (
        a.counted.placed j s (ground (arith, q, lookup-put j e.job_id (stored newcomer) sp.tickets))
          live)
  ]

  pub admitted-IsAccounted : IsAccounted admitted
  unfolding read_totals read_counter admitted_counters
  admitted-IsAccounted = record {
    counted = record {
      bound =
          put-Each IsTicket e.job_id (stored newcomer) sp.tickets newcomer-IsBound a.counted.bound;
      totals = rw (more one, more bytes) refl;
      subjects = admitted_subjects;
      ingresses = admitted_ingresses;
      keyed = put-IsKeyed e.job_id e.deadline sp.pending a.counted.keyed;
      size = omega (
        arith,
        more one,
        length-put_new e.job_id e.deadline sp.pending absent_pending,
        a.counted.size,
      );
      pending = λ j. ground (
        arith,
        a.counted.pending j,
        lookup-put j e.job_id e.deadline sp.pending,
        lookup-put j e.job_id (stored newcomer) sp.tickets,
      );
      placed = admitted-IsPlaced;
    };
    keyed = put-IsKeyed e.job_id e.deadline sp.handoff a.keyed;
    handoff = λ j. ground (
      arith,
      a.handoff j,
      lookup-put j e.job_id e.deadline sp.handoff,
      lookup-put j e.job_id (stored newcomer) sp.tickets,
    );
  }

  -- The capacity after the admission is the one before it, with one job more.
  capacity_of-admitted :
      capacity_of admitted (keys_of e) ≡ grown (capacity_of sp (keys_of e)) p.byte_size
  capacity_of-admitted = ground (
    arith,
    more one,
    more bytes,
    more (by_subject (owner_of e)),
    more (by_ingress (ingress_of e)),
    (same_owner_iff (owner_of e) (owner_of e)).1 refl,
    (same_ingress_iff (ingress_of e) (ingress_of e)).1 refl,
  )

  pub admitted-IsWithin :
      (l : AdmissionLimits)
      → is_full (capacity_of sp (keys_of e)) p.byte_size l ≡ false
      → IsWithin (capacity_of admitted (keys_of e)) l
  admitted-IsWithin l free =
      rw capacity_of-admitted
        (read_capacity-admitted_counters (counters_of sp (keys_of e)) l p.byte_size
          newcomer-IsBound.kept.valid.sized (read_capacity_accounted sp (keys_of e) a.counted)
          free).1
