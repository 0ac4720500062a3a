-- ===== src/Admission/Accounting/Changes.antt =====
-- Proofs about the writes of one change in an accounted space of admission.py.
use hovorun_v.Prelude.{
  ℕ, ◌≤◌, ◌≡◌, false, none, some, String, str_eq, eq_iff, length, lookup, put, total, lookup-Each,
  put-Each, lookup-put, total-put_old, if◌then◌else◌, ok, arith, Bool-cases, inl, inr,
}
use mathlib.Core.Path.{subst}
use hovorun_v.Admission.Record.{
  AdmissionRecord, owner_of, ingress_of, is_terminal, is_accepted, Stored, stored,
}
use hovorun_v.Admission.Effect.{SameJob}
use hovorun_v.Admission.Space.{Space, same_owner_iff, same_ingress_iff}
use hovorun_v.Admission.Store.{read_active_capacity}
use hovorun_v.Admission.Accounting.{
  IsCounted, IsPlaced, IsBound, IsTicket, keys_of, one, bytes, by_subject, by_ingress, total-member,
  capacity_of, read_capacity_accounted,
}

-- A live ticket's supporting metadata is always found.
pub read_active_accounted :
    (sp : Space) (id : String) (r : AdmissionRecord)
    → IsCounted sp
    → lookup id sp.handoff ≡ (if is_accepted r.state then some r.envelope.deadline else none)
    → lookup id sp.tickets ≡ some (stored r)
    → is_terminal r.state ≡ false
    → read_active_capacity sp (keys_of r.envelope) r id
      ≡ ok (
        capacity_of sp (keys_of r.envelope),
        length (sp.lanes (owner_of r.envelope, r.envelope.feature)),
      )
unfolding read_active_capacity
read_active_accounted sp id r a handoff found live =
    let e = r.envelope in
    let c = read_capacity_accounted sp (keys_of e) a in
    let bound : IsBound id r = lookup-Each IsTicket id sp.tickets a.bound found in
    let place = a.placed id r found live in
    let pending : lookup id sp.pending ≡ some e.deadline = ground (arith, a.pending id) in
    let mine = (same_owner_iff r.subject_key (owner_of e)).1 bound.subject in
    let from = (same_ingress_iff r.ingress_key (ingress_of e)).1 bound.ingress in
    let count : 1 ≤ total one sp.tickets = ground (arith, total-member one id sp.tickets found) in
    let size : r.byte_size ≤ total bytes sp.tickets =
      ground (arith, total-member bytes id sp.tickets found) in
    let subject : 1 ≤ total (by_subject (owner_of e)) sp.tickets =
      ground (arith, mine, total-member (by_subject (owner_of e)) id sp.tickets found) in
    let ingress : 1 ≤ total (by_ingress (ingress_of e)) sp.tickets =
      ground (arith, from, total-member (by_ingress (ingress_of e)) id sp.tickets found) in
    ground (
      arith,
      c,
      place.pointer,
      place.lane,
      place.turn,
      pending,
      handoff,
      eq_iff id e.job_id,
      bound.job,
    )

module _ (sp : Space) (id : String) (r r' : AdmissionRecord) (a : IsCounted sp)
    (found : lookup id sp.tickets ≡ some (stored r)) (job : SameJob r r')
    (bound : IsBound id r') where
  same_weight :
      (w : Stored → ℕ)
      → w (stored r') ≡ w (stored r)
      → total w (put id (stored r') sp.tickets) ≡ total w sp.tickets
  same_weight w e = omega (arith, e, total-put_old w id (stored r') sp.tickets found)

  IsPlaced-job : is_terminal r.state ≡ false → IsPlaced sp id r'
  IsPlaced-job live =
      let p = a.placed id r found live in
      record {
        pointer = rw (job.envelope) p.pointer;
        lane = rw (job.envelope) p.lane;
        turn = rw (job.envelope) p.turn;
      }

  put-IsPlaced :
      is_terminal r'.state ≡ is_terminal r.state
      → (j : String) (s : AdmissionRecord)
      → lookup j (put id (stored r') sp.tickets) ≡ some (stored s)
      → is_terminal s.state ≡ false
      → IsPlaced sp j s
  put-IsPlaced same j s at live = elim (Bool-cases (str_eq id j)) [
    | inl e ↦
        let value : r' ≡ s = ground (arith, lookup-put j id (stored r') sp.tickets) in
        subst (λ k. IsPlaced sp k s) ((eq_iff id j).0 e)
          (subst (IsPlaced sp id) value (IsPlaced-job (ground (arith, value, same))))
    | inr e ↦ a.placed j s (ground (arith, lookup-put j id (stored r') sp.tickets)) live
  ]

  -- A change that neither ends a ticket nor starts one leaves every count.
  pub put-IsCounted :
      is_terminal r'.state ≡ is_terminal r.state
      → IsCounted (record sp { tickets = put id (stored r') sp.tickets })
  put-IsCounted same = record {
    bound = put-Each IsTicket id (stored r') sp.tickets bound a.bound;
    totals =
        rw (same_weight one (ground arith), same_weight bytes (ground (arith, job.byte_size)))
          a.totals;
    subjects = λ o. rw (same_weight (by_subject o) (ground (arith, job.subject))) (a.subjects o);
    ingresses = λ i. rw (same_weight (by_ingress i) (ground (arith, job.ingress))) (a.ingresses i);
    keyed = a.keyed;
    size = rw (same_weight one (ground arith)) a.size;
    pending = λ j.
        ground
          (arith, a.pending j, lookup-put j id (stored r') sp.tickets, eq_iff id j, job.envelope);
    placed = λ j s at live.
        let p = put-IsPlaced same j s at live in
        record { pointer = p.pointer; lane = p.lane; turn = p.turn };
  }
