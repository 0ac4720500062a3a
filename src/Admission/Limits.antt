-- ===== src/Admission/Limits.antt =====
-- Proofs about the counters of admission.py when a job enters or leaves.
use hovorun_v.Prelude.{ℕ, ◌+◌, ◌≤◌, ◌<◌, ◌≡◌, false, ok, arith}
use hovorun_v.Admission.Capacity.{
  Counters, AdmissionCapacity, AdmissionLimits, read_capacity, is_full, require_counts,
  admitted_counters, released_counters,
}

-- A capacity after one more job.
abbrev pub grown : AdmissionCapacity → ℕ → AdmissionCapacity
grown c size = record {
  count = c.count + 1;
  byte_size = c.byte_size + size;
  subject = c.subject + 1;
  ingress = c.ingress + 1;
}

-- A capacity that keeps to every bound.
pub record IsWithin (c : AdmissionCapacity) (l : AdmissionLimits) : Type 0 where
  pub global : c.count ≤ l.safety.global_pending
  pub bytes : c.byte_size ≤ l.safety.total_payload_bytes
  pub subject : c.subject ≤ l.subject_pending
  pub ingress : c.ingress ≤ l.ingress_pending

-- What a capacity that was read keeps to.
record IsConsistent (k : Counters) (c : AdmissionCapacity) : Type 0 where
  pending : k.pending ≡ c.count
  subject : c.subject ≤ c.count
  ingress : c.ingress ≤ c.count
  some_bytes : 0 < c.count → 0 < c.byte_size
  no_bytes : c.count ≡ 0 → c.byte_size ≡ 0

read_capacity-IsConsistent :
    (k : Counters) {c : AdmissionCapacity} → read_capacity k ≡ ok c → IsConsistent k c
unfolding read_capacity
read_capacity-IsConsistent k h = ground arith

-- After an admission of a payload with bytes, at counters that were readable and not full, the
-- counters read back as one job more, within every limit.
pub read_capacity-admitted_counters :
    (k : Counters) (l : AdmissionLimits) (size : ℕ) {c : AdmissionCapacity}
    → 0 < size
    → read_capacity k ≡ ok c
    → is_full c size l ≡ false
    → (read_capacity (admitted_counters k c size) ≡ ok (grown c size)) × IsWithin (grown c size) l
unfolding read_capacity is_full admitted_counters
read_capacity-admitted_counters k l size positive h free =
    let v = read_capacity-IsConsistent k h in ground arith

-- A release gives back exactly what the admission of a payload with bytes took: after both, the
-- counters read as the readable counters before them, with a deleted counter read as nothing; and
-- the release finds the counts that it requires.
pub read_capacity-released_counters :
    (k : Counters) (size : ℕ) {c : AdmissionCapacity}
    → 0 < size
    → read_capacity k ≡ ok c
    → (require_counts (grown c size) size ≡ ok tt)
      × (read_capacity (released_counters (admitted_counters k c size) (grown c size) size) ≡ ok c)
unfolding read_capacity require_counts admitted_counters released_counters
read_capacity-released_counters k size positive h =
    let v = read_capacity-IsConsistent k h in ground arith
