-- ===== src/Admission/Accounting/Handoff.antt =====
-- Proofs about the handoff index of admission.py when a transition writes to it.
use hovorun_v.Prelude.{
  ◌≡◌, refl, sym, ◌∙◌, ap, Bool, true, false, Option, none, some, String, str_eq, eq_iff, Dict,
  lookup, put, IsKeyed, lookup-put, lookup-remove, remove-IsKeyed, put-IsKeyed, if◌then◌else◌,
  arith, Bool-cases, inl, inr,
}
use mathlib.Core.Path.{subst}
use hovorun_v.Domain.{Timestamp}
use hovorun_v.Admission.Record.{AdmissionRecord, is_accepted, stored}
use hovorun_v.Admission.Invariant.{IsStored}
use hovorun_v.Admission.Effect.{SameJob, indexed}
use hovorun_v.Admission.Space.{Space}
use hovorun_v.Admission.Store.{write_handoff}
use hovorun_v.Admission.Accounting.{IsCounted, IsAccounted, IsBound, accepted_deadline}

-- A ticket of the same job is bound where the old one was.
pub moved-IsBound :
    (id : String) (r r' : AdmissionRecord)
    → IsBound id r
    → SameJob r r'
    → IsStored r'
    → IsBound id r'
moved-IsBound id r r' b job kept = record {
  kept = kept;
  job = rw job.envelope b.job;
  subject = rw (job.envelope, job.subject) b.subject;
  ingress = rw (job.envelope, job.ingress) b.ingress;
  payload = rw (job.envelope, job.payload) b.payload;
  dedupe = rw (job.envelope, job.dedupe) b.dedupe;
}

module _ (sp : Space) (id : String) (r r' : AdmissionRecord) (keyed : IsKeyed sp.handoff)
    (index : lookup id sp.handoff
      ≡ (if is_accepted r.state then some r.envelope.deadline else none))
    (same : r'.envelope ≡ r.envelope) (job : r'.envelope.job_id ≡ id) where
  handoff-IsKeyed : (h : Option Bool) → IsKeyed (write_handoff sp r' h).handoff
  handoff-IsKeyed none = keyed
  handoff-IsKeyed (some true) = put-IsKeyed _ _ sp.handoff keyed
  handoff-IsKeyed (some false) = remove-IsKeyed _ sp.handoff keyed

  handoff_there :
      (h : Option Bool)
      → is_accepted r'.state ≡ indexed h (is_accepted r.state)
      → lookup id (write_handoff sp r' h).handoff
        ≡ (if is_accepted r'.state then some r'.envelope.deadline else none)
  handoff_there none e = rw (e, same) index
  handoff_there (some true) e = ground (
    arith,
    eq_iff r'.envelope.job_id id,
    lookup-put id r'.envelope.job_id r'.envelope.deadline sp.handoff,
  )
  handoff_there (some false) e =
      ground
        (arith, eq_iff r'.envelope.job_id id, lookup-remove id r'.envelope.job_id sp.handoff keyed)

  handoff_elsewhere :
      (h : Option Bool) (j : String)
      → str_eq id j ≡ false
      → lookup j (write_handoff sp r' h).handoff ≡ lookup j sp.handoff
  handoff_elsewhere none j o = refl
  handoff_elsewhere (some true) j o = ground (
    arith,
    eq_iff r'.envelope.job_id j,
    eq_iff id j,
    lookup-put j r'.envelope.job_id r'.envelope.deadline sp.handoff,
  )
  handoff_elsewhere (some false) j o = ground (
    arith,
    eq_iff r'.envelope.job_id j,
    eq_iff id j,
    lookup-remove j r'.envelope.job_id sp.handoff keyed,
  )

set_handoff-IsCounted :
    (sp : Space) (z : Dict Timestamp) → IsCounted sp → IsCounted (record sp { handoff = z })
set_handoff-IsCounted sp z c = record {
  bound = c.bound;
  totals = c.totals;
  subjects = c.subjects;
  ingresses = c.ingresses;
  keyed = c.keyed;
  size = c.size;
  pending = c.pending;
  placed = λ j s at live.
      let p = c.placed j s at live in record { pointer = p.pointer; lane = p.lane; turn = p.turn };
}

write_handoff-IsCounted :
    (sp : Space) (r : AdmissionRecord) (h : Option Bool)
    → IsCounted sp
    → IsCounted (write_handoff sp r h)
write_handoff-IsCounted sp r none c = c
write_handoff-IsCounted sp r (some true) c = set_handoff-IsCounted sp _ c
write_handoff-IsCounted sp r (some false) c = set_handoff-IsCounted sp _ c

pub write_handoff-tickets :
    (sp : Space) (r : AdmissionRecord) (h : Option Bool)
    → (write_handoff sp r h).tickets ≡ sp.tickets
write_handoff-tickets sp r none = refl
write_handoff-tickets sp r (some true) = refl
write_handoff-tickets sp r (some false) = refl

-- Counted before the handoff index is written, and the index as it was: accounted after.
pub handoff-IsAccounted :
    (sp sp' : Space) (id : String) (r r' : AdmissionRecord) (h : Option Bool)
    → IsAccounted sp
    → IsCounted sp'
    → sp'.handoff ≡ sp.handoff
    → sp'.tickets ≡ put id (stored r') sp.tickets
    → lookup id sp.tickets ≡ some (stored r)
    → r'.envelope ≡ r.envelope
    → r'.envelope.job_id ≡ id
    → is_accepted r'.state ≡ indexed h (is_accepted r.state)
    → IsAccounted (write_handoff sp' r' h)
handoff-IsAccounted sp sp' id r r' h a c kept tickets found same job e = record {
  counted = write_handoff-IsCounted sp' r' h c;
  keyed = handoff-IsKeyed sp' id r r' keyed index same job h;
  handoff = agrees;
}
  where
    keyed : IsKeyed sp'.handoff
    keyed = rw kept a.keyed

    index : lookup id sp'.handoff ≡ (if is_accepted r.state then some r.envelope.deadline else none)
    index = rw (kept, a.handoff id, found) refl

    found_at :
        (j : String)
        → lookup j (write_handoff sp' r' h).handoff
          ≡ accepted_deadline (if str_eq id j then some (stored r') else lookup j sp.tickets)
    found_at j = elim (Bool-cases (str_eq id j)) [
      | inl q ↦ rw q (
          subst
            (λ k.
              lookup k (write_handoff sp' r' h).handoff
              ≡ (if is_accepted r'.state then some r'.envelope.deadline else none))
            ((eq_iff id j).0 q) (handoff_there sp' id r r' keyed index same job h e))
      | inr q ↦ rw (q, handoff_elsewhere sp' id r r' keyed index same job h j q, kept) (a.handoff j)
    ]

    agrees :
        (j : String)
        → lookup j (write_handoff sp' r' h).handoff
          ≡ accepted_deadline (lookup j (write_handoff sp' r' h).tickets)
    agrees j =
        found_at j
        ∙ ap accepted_deadline (
            sym (
              ap (lookup j) (write_handoff-tickets sp' r' h ∙ tickets)
              ∙ lookup-put j id (stored r') sp.tickets))
