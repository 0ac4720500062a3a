-- ===== src/Admission/Capacity.antt =====
-- src/hovorunv2/infrastructure/runtime/admission_state.py and admission.py beside it: the counters that
-- bound admissions, as they are read, tested, and written when a job enters or leaves. Of the writes of
-- a transaction, those to the counters and the pending index are modelled.
use hovorun_v.Prelude.{
  ℕ, ◌+◌, ◌-◌, max, Bool, true, false, not, ◌||◌, xor, ltb, leb, ◌==◌, Option, none, some, String,
  str_eq, if◌then◌else◌, Result, ok, err, ◌>>=◌, ◌>>◌, raise_if, unavailable, value_error,
}
use hovorun_v.Domain.{Timestamp}
use hovorun_v.Usage.Policies.{UsageSafetyCaps}
use hovorun_v.Admission.Record.{AdmissionRecord, is_accepted}

-- What a read of a counter finds: nothing, a text that is no natural number, or a number.
pub data RawCounter : Type 0 where
  missing unreadable : RawCounter
  counter : ℕ → RawCounter

-- The hash of totals: empty, with other fields than the two, or with both.
pub data RawTotals : Type 0 where
  no_totals other_totals : RawTotals
  totals : RawCounter → RawCounter → RawTotals

-- `read_counter`, with `missing_zero`.
unfoldable pub read_counter : Bool → RawCounter → Result ℕ
read_counter true missing = ok 0
read_counter false missing = err unavailable
read_counter missing_zero unreadable = err unavailable
read_counter missing_zero (counter n) = ok n

-- `_read_totals`
unfoldable pub read_totals : RawTotals → Result (ℕ × ℕ)
unfolding read_counter
read_totals no_totals = ok (0, 0)
read_totals other_totals = err unavailable
read_totals (totals c b) = do
  count ← read_counter false c
  bytes ← read_counter false b
  ok (count, bytes)

-- What the store holds for one job's subject and ingress; `pending` is the size of the index.
pub record Counters : Type 0 where
  pub all_totals : RawTotals
  pub subject : RawCounter
  pub ingress : RawCounter
  pub pending : ℕ

pub record AdmissionCapacity : Type 0 where
  pub count : ℕ
  pub byte_size : ℕ
  pub subject : ℕ
  pub ingress : ℕ

-- `read_capacity`
unfoldable pub read_capacity : Counters → Result AdmissionCapacity
unfolding read_totals read_counter
read_capacity k = do
  (count, bytes) ← read_totals k.all_totals
  subject ← read_counter true k.subject
  ingress ← read_counter true k.ingress
  raise_if
      (not (count == k.pending) || xor (count == 0) (bytes == 0) || ltb count (max subject ingress))
      unavailable
  ok (record { count = count; byte_size = bytes; subject = subject; ingress = ingress })

pub record AdmissionLimits : Type 0 where
  pub subject_pending : ℕ
  pub ingress_pending : ℕ
  pub safety : UsageSafetyCaps

-- `AdmissionLimits.__post_init__`
unfoldable pub validate_admission_limits : AdmissionLimits → Result (Unit {0})
validate_admission_limits l =
    raise_if (l.subject_pending == 0 || l.ingress_pending == 0) value_error

-- `_is_full`, for a payload of `size` bytes.
unfoldable pub is_full : AdmissionCapacity → ℕ → AdmissionLimits → Bool
is_full c size l =
    leb l.safety.global_pending c.count
    || ltb l.safety.total_payload_bytes (c.byte_size + size)
    || ltb l.safety.payload_bytes size
    || leb l.subject_pending c.subject
    || leb l.ingress_pending c.ingress

-- `_require_counts`
unfoldable pub require_counts : AdmissionCapacity → ℕ → Result (Unit {0})
require_counts c size = do
  raise_if (ltb c.count 1 || ltb c.byte_size size) unavailable
  raise_if (ltb c.subject 1 || ltb c.ingress 1) unavailable

abbrev pub is_score : Option Timestamp → Timestamp → Bool
is_score none t = false
is_score (some s) t = s == t

-- `require_active_indexes`
unfoldable pub require_active_indexes :
    AdmissionRecord → String → Option Timestamp → Option Timestamp → Result (Unit {0})
require_active_indexes r pointer score handoff_score = do
  raise_if (not (str_eq pointer r.envelope.job_id)) unavailable
  raise_if (not (is_score score r.envelope.deadline)) unavailable
  raise_if (if is_accepted r.state then not (is_score handoff_score r.envelope.deadline) else false)
      unavailable

-- `AdmissionCapacity.require_active`, at a pointer that is a text.
unfoldable pub require_active :
    AdmissionCapacity
    → AdmissionRecord
    → String
    → Option Timestamp
    → Option Timestamp
    → Result (Unit {0})
unfolding require_counts require_active_indexes
require_active c r pointer score handoff_score = do
  require_counts c r.byte_size
  require_active_indexes r pointer score handoff_score

-- The counters that `_write_admission` leaves; the new job joins the pending index.
unfoldable pub admitted_counters : Counters → AdmissionCapacity → ℕ → Counters
admitted_counters k c size = record {
  all_totals = totals (counter (c.count + 1)) (counter (c.byte_size + size));
  subject = counter (c.subject + 1);
  ingress = counter (c.ingress + 1);
  pending = k.pending + 1;
}

-- A counter of one is deleted.
abbrev pub decreased : ℕ → RawCounter
decreased n = if ltb 1 n then counter (n - 1) else missing

-- The counters that `_write_change` leaves when it releases a job of `size` bytes.
unfoldable pub released_counters : Counters → AdmissionCapacity → ℕ → Counters
released_counters k c size = record {
  all_totals = totals (counter (c.count - 1)) (counter (c.byte_size - size));
  subject = decreased c.subject;
  ingress = decreased c.ingress;
  pending = k.pending - 1;
}
