-- ===== src/Admission/Accounting.antt =====
-- The account of a namespace of admission.py: what its counters and indexes say of its tickets, and
-- proofs that they can be read.
pub mod Changes
pub mod Release
pub mod Handoff
pub mod Apply
pub mod Admit
pub mod Entry
pub mod Answers
use hovorun_v.Prelude.{
  ℕ, ◌+◌, ◌*◌, ◌≤◌, ◌<◌, ◌≡◌, refl, sym, ◌∙◌, Bool, true, false, not, ◌&&◌, Option, none, some,
  String, List, [], ◌∷◌, str_eq, eq_iff, is_some, length, Dict, lookup, put, total, IsKeyed, Each,
  lookup-Each, total-le, decided_iff, if◌then◌else◌, Result, ok, err, arith, Bool-cases, inl, inr,
}
use mathlib.Core.Path.{subst}
use hovorun_v.Domain.{Timestamp}
use hovorun_v.Usage.Budgets.{is_technical_id}
use hovorun_v.Jobs.Envelope.{JobEnvelope, validate_envelope}
use hovorun_v.Admission.Record.{
  AdmissionRecord, AdmissionKeys, Owner, Owner-discrete, Ingress, Ingress-discrete, owner_of,
  ingress_of, is_terminal, is_accepted, Stored, malformed, stored, record_keys, admission_keys,
  pointers_agree,
}
use hovorun_v.Admission.Invariant.{IsStored}
use hovorun_v.Admission.Capacity.{
  AdmissionCapacity, read_capacity, read_totals, read_counter, require_active, Counters, RawTotals,
  RawCounter,
}
use hovorun_v.Admission.Space.{Space, Lane, counters_of, rotation_of, same_owner, same_ingress}
use hovorun_v.Admission.Store.{read_active_capacity}

-- The pointers of a job, without the test of its identity.
abbrev pub keys_of : JobEnvelope → AdmissionKeys
keys_of e = record {
  ticket = e.job_id;
  dedupe = e.dedupe_key;
  subject = owner_of e;
  ingress = ingress_of e;
  payload = e.payload_ref;
  lane = (owner_of e, e.feature);
}

-- A ticket that stands under its own identity with its own pointers.
pub record IsBound (id : String) (r : AdmissionRecord) : Type 0 where
  pub kept : IsStored r
  pub job : r.envelope.job_id ≡ id
  pub subject : r.subject_key ≡ owner_of r.envelope
  pub ingress : r.ingress_key ≡ ingress_of r.envelope
  pub payload : r.payload_key ≡ r.envelope.payload_ref
  pub dedupe : r.dedupe_key ≡ r.envelope.dedupe_key

pub technical_id : (e : JobEnvelope) → validate_envelope e ≡ ok tt → is_technical_id e.job_id ≡ true
unfolding validate_envelope is_technical_id
technical_id e h = ground arith

pub admission_keys_valid :
    (e : JobEnvelope) → validate_envelope e ≡ ok tt → admission_keys e ≡ ok (keys_of e)
unfolding admission_keys
admission_keys_valid e h = ground (arith, technical_id e h)

-- The pointers of a bound ticket are those of its envelope.
pub record_keys-IsBound :
    (id : String) (r : AdmissionRecord) → IsBound id r → record_keys r ≡ ok (keys_of r.envelope)
unfolding record_keys pointers_agree
record_keys-IsBound id r b = ground (
  arith,
  admission_keys_valid r.envelope b.kept.valid.bound,
  decided_iff (Owner-discrete r.subject_key (owner_of r.envelope)),
  decided_iff (Ingress-discrete r.ingress_key (ingress_of r.envelope)),
  eq_iff r.payload_key r.envelope.payload_ref,
  eq_iff r.dedupe_key r.envelope.dedupe_key,
  b.subject,
  b.ingress,
  b.payload,
  b.dedupe,
)

abbrev pub IsTicket : String → Stored → Type 0
IsTicket id malformed = ⊥
IsTicket id (stored r) = IsBound id r

abbrev pub is_live : Stored → Bool
is_live malformed = false
is_live (stored r) = not (is_terminal r.state)

-- What a live ticket counts for: one job, its bytes, one job of its subject, one of its ingress.
abbrev pub one : Stored → ℕ
one v = if is_live v then 1 else 0

abbrev pub bytes : Stored → ℕ
bytes malformed = 0
bytes (stored r) = if is_terminal r.state then 0 else r.byte_size

abbrev pub by_subject : Owner → Stored → ℕ
by_subject o malformed = 0
by_subject o (stored r) = if not (is_terminal r.state) && same_owner r.subject_key o then 1 else 0

abbrev pub by_ingress : Ingress → Stored → ℕ
by_ingress i malformed = 0
by_ingress i (stored r) = if not (is_terminal r.state) && same_ingress r.ingress_key i then 1 else 0

abbrev pub live_deadline : Option Stored → Option Timestamp
live_deadline none = none
live_deadline (some malformed) = none
live_deadline (some (stored r)) = if is_terminal r.state then none else some r.envelope.deadline

abbrev pub accepted_deadline : Option Stored → Option Timestamp
accepted_deadline none = none
accepted_deadline (some malformed) = none
accepted_deadline (some (stored r)) = if is_accepted r.state then some r.envelope.deadline else none

-- A live ticket's pointer and its places in the rotation.
pub record IsPlaced (sp : Space) (id : String) (r : AdmissionRecord) : Type 0 where
  pub pointer : lookup r.envelope.dedupe_key sp.dedupe ≡ some id
  pub lane : is_some (rotation_of (owner_of r.envelope, r.envelope.feature) sp.rotation) ≡ true
  pub turn : is_some (lookup id (sp.lanes (owner_of r.envelope, r.envelope.feature))) ≡ true

-- The counters and the pending index count the live tickets.
pub record IsCounted (sp : Space) : Type 0 where
  pub bound : Each IsTicket sp.tickets
  pub totals : read_totals sp.all_totals ≡ ok (total one sp.tickets, total bytes sp.tickets)
  pub subjects :
      (o : Owner) → read_counter true (sp.subjects o) ≡ ok (total (by_subject o) sp.tickets)
  pub ingresses :
      (i : Ingress) → read_counter true (sp.ingresses i) ≡ ok (total (by_ingress i) sp.tickets)
  pub keyed : IsKeyed sp.pending
  pub size : length sp.pending ≡ total one sp.tickets
  pub pending : (id : String) → lookup id sp.pending ≡ live_deadline (lookup id sp.tickets)
  pub placed :
      (id : String) (r : AdmissionRecord)
      → lookup id sp.tickets ≡ some (stored r)
      → is_terminal r.state ≡ false
      → IsPlaced sp id r

-- The handoff index holds the accepted tickets.
pub record IsAccounted (sp : Space) : Type 0 where
  pub counted : IsCounted sp
  pub keyed : IsKeyed sp.handoff
  pub handoff : (id : String) → lookup id sp.handoff ≡ accepted_deadline (lookup id sp.tickets)

Each-le :
    (f g : Stored → ℕ) (d : Dict Stored) → ((v : Stored) → f v ≤ g v) → Each (λ k v. f v ≤ g v) d
Each-le f g [] h = tt
Each-le f g ((k, v) ∷ d) h = (h v, Each-le f g d h)

by_subject-le : (o : Owner) (v : Stored) → by_subject o v ≤ one v
by_subject-le o malformed = omega arith
by_subject-le o (stored r) = ground arith

by_ingress-le : (i : Ingress) (v : Stored) → by_ingress i v ≤ one v
by_ingress-le i malformed = omega arith
by_ingress-le i (stored r) = ground arith

one-le-bytes : (d : Dict Stored) → Each IsTicket d → Each (λ k v. one v ≤ bytes v) d
one-le-bytes [] h = tt
one-le-bytes ((k, malformed) ∷ d) h = absurd h.0
one-le-bytes ((k, stored r) ∷ d) h = (ground (arith, h.0.kept.valid.sized), one-le-bytes d h.1)

total-bytes_zero : (d : Dict Stored) → total one d ≡ 0 → total bytes d ≡ 0
unfolding total
total-bytes_zero [] h = refl
total-bytes_zero ((k, malformed) ∷ d) h = ground (arith, total-bytes_zero d)
total-bytes_zero ((k, stored r) ∷ d) h = ground (arith, total-bytes_zero d)

pub total-member :
    (w : Stored → ℕ) (k : String) (d : Dict Stored) {v : Stored}
    → lookup k d ≡ some v
    → w v ≤ total w d
unfolding total lookup
total-member w k [] e = cc
total-member w k ((i, x) ∷ d) {v} e = ground (arith, total-member w k d {v = v})

-- The capacity of an accounted space.
abbrev pub capacity_of : Space → AdmissionKeys → AdmissionCapacity
capacity_of sp keys = record {
  count = total one sp.tickets;
  byte_size = total bytes sp.tickets;
  subject = total (by_subject keys.subject) sp.tickets;
  ingress = total (by_ingress keys.ingress) sp.tickets;
}

read_capacity_lem :
    (k : Counters) {c : AdmissionCapacity}
    → read_totals k.all_totals ≡ ok (c.count, c.byte_size)
    → read_counter true k.subject ≡ ok c.subject
    → read_counter true k.ingress ≡ ok c.ingress
    → k.pending ≡ c.count
    → (c.count ≤ c.byte_size)
    → (c.count ≡ 0 → c.byte_size ≡ 0)
    → c.subject ≤ c.count
    → c.ingress ≤ c.count
    → read_capacity k ≡ ok c
unfolding read_capacity
read_capacity_lem k t s i p m z a b = ground arith

-- An accounted space can always be read.
pub read_capacity_accounted :
    (sp : Space) (keys : AdmissionKeys)
    → IsCounted sp
    → read_capacity (counters_of sp keys) ≡ ok (capacity_of sp keys)
read_capacity_accounted sp keys a =
    let ts = sp.tickets in
    read_capacity_lem (counters_of sp keys) a.totals (a.subjects keys.subject)
      (a.ingresses keys.ingress) a.size (total-le one bytes ts (one-le-bytes ts a.bound))
      (total-bytes_zero ts)
      (total-le (by_subject keys.subject) one ts
        (Each-le (by_subject keys.subject) one ts (by_subject-le keys.subject)))
      (total-le (by_ingress keys.ingress) one ts
        (Each-le (by_ingress keys.ingress) one ts (by_ingress-le keys.ingress)))
