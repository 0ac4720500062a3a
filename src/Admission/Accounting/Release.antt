-- ===== src/Admission/Accounting/Release.antt =====
-- Proofs about the release of a ticket's capacity in an accounted space of admission.py.
use hovorun_v.Prelude.{
  ℕ, ◌-◌, ◌≡◌, refl, sym, ◌∙◌, ap, true, false, some, String, str_eq, eq_iff, is_some, length,
  lookup, put, remove, total, lookup-Each, put-Each, lookup-put, lookup-remove, remove-IsKeyed,
  length-remove, length-two, lookup-remove_other, Option-cases, total-put_old, ok, arith,
  Bool-cases, inl, inr, ◌==◌,
}
use mathlib.Core.Path.{subst}
use hovorun_v.Admission.Record.{
  AdmissionRecord, Owner, Ingress, owner_of, ingress_of, is_terminal, Stored, stored,
}
use hovorun_v.Admission.Effect.{SameJob}
use hovorun_v.Admission.Capacity.{read_totals, read_counter, released_counters}
use hovorun_v.Admission.Space.{
  Space, Lane, same_lane, rotation_of, rotation_of-remove_lane, same_lane_iff, set_lane, same_owner,
  same_owner_iff, same_ingress, same_ingress_iff,
}
use hovorun_v.Admission.Store.{write_release}
use hovorun_v.Admission.Accounting.{
  IsCounted, IsPlaced, IsBound, IsTicket, keys_of, one, bytes, by_subject, by_ingress,
  live_deadline, capacity_of,
}

module _ (sp : Space) (id : String) (r r' : AdmissionRecord) (a : IsCounted sp)
    (found : lookup id sp.tickets ≡ some (stored r)) (job : SameJob r r') (bound : IsBound id r')
    (live : is_terminal r.state ≡ false) (ended : is_terminal r'.state ≡ true) where
  lost_weight :
      (w : Stored → ℕ) (n : ℕ)
      → w (stored r) ≡ n
      → w (stored r') ≡ 0
      → total w (put id (stored r') sp.tickets) ≡ total w sp.tickets - n
  lost_weight w n e z = omega (arith, e, z, total-put_old w id (stored r') sp.tickets found)

  kept_weight :
      (w : Stored → ℕ)
      → w (stored r) ≡ 0
      → w (stored r') ≡ 0
      → total w (put id (stored r') sp.tickets) ≡ total w sp.tickets
  kept_weight w e z = omega (arith, e, z, total-put_old w id (stored r') sp.tickets found)

  -- The release, with the places where the identity of the job stands told apart.
  abbrev released_at : String → String → Space
  released_at key job_id =
      record (write_release sp (keys_of r.envelope) r' (capacity_of sp (keys_of r.envelope))
        (length (sp.lanes (owner_of r.envelope, r.envelope.feature)))) {
          tickets = put key (stored r') sp.tickets;
          pending = remove job_id sp.pending;
          lanes =
              set_lane (owner_of r.envelope, r.envelope.feature)
                (remove job_id (sp.lanes (owner_of r.envelope, r.envelope.feature))) sp.lanes;
        }

  abbrev pub released : Space
  released = released_at id id

  old-IsBound : IsBound id r
  old-IsBound = lookup-Each IsTicket id sp.tickets a.bound found

  mine : by_subject (owner_of r.envelope) (stored r) ≡ 1
  mine =
      ground
        (arith, live, (same_owner_iff r.subject_key (owner_of r.envelope)).1 old-IsBound.subject)

  from : by_ingress (ingress_of r.envelope) (stored r) ≡ 1
  from =
      ground (
        arith,
        live,
        (same_ingress_iff r.ingress_key (ingress_of r.envelope)).1 old-IsBound.ingress,
      )

  released_subject :
      read_counter true (released.subjects (owner_of r.envelope))
      ≡ ok (total (by_subject (owner_of r.envelope)) (put id (stored r') sp.tickets))
  unfolding read_counter released_counters
  released_subject = ground (
    arith,
    (same_owner_iff (owner_of r.envelope) (owner_of r.envelope)).1 refl,
    lost_weight (by_subject (owner_of r.envelope)) 1 mine (ground (arith, ended)),
  )

  released_ingress :
      read_counter true (released.ingresses (ingress_of r.envelope))
      ≡ ok (total (by_ingress (ingress_of r.envelope)) (put id (stored r') sp.tickets))
  unfolding read_counter released_counters
  released_ingress = ground (
    arith,
    (same_ingress_iff (ingress_of r.envelope) (ingress_of r.envelope)).1 refl,
    lost_weight (by_ingress (ingress_of r.envelope)) 1 from (ground (arith, ended)),
  )

  released_subjects :
      (o : Owner)
      → read_counter true (released.subjects o)
        ≡ ok (total (by_subject o) (put id (stored r') sp.tickets))
  released_subjects o = elim (Bool-cases (same_owner o (owner_of r.envelope))) [
    | inl e ↦
        subst
          (λ x.
            read_counter true (released.subjects x)
            ≡ ok (total (by_subject x) (put id (stored r') sp.tickets)))
          (sym ((same_owner_iff o (owner_of r.envelope)).0 e)) released_subject
    | inr e ↦
        rw
          (
            e,
            kept_weight (by_subject o)
                (ground (
                  arith,
                  old-IsBound.subject,
                  same_owner_iff o (owner_of r.envelope),
                  same_owner_iff r.subject_key o,
                ))
                (ground (arith, ended)),
          )
          (a.subjects o)
  ]

  released_ingresses :
      (i : Ingress)
      → read_counter true (released.ingresses i)
        ≡ ok (total (by_ingress i) (put id (stored r') sp.tickets))
  released_ingresses i = elim (Bool-cases (same_ingress i (ingress_of r.envelope))) [
    | inl e ↦
        subst
          (λ x.
            read_counter true (released.ingresses x)
            ≡ ok (total (by_ingress x) (put id (stored r') sp.tickets)))
          (sym ((same_ingress_iff i (ingress_of r.envelope)).0 e)) released_ingress
    | inr e ↦
        rw
          (
            e,
            kept_weight (by_ingress i)
                (ground (
                  arith,
                  old-IsBound.ingress,
                  same_ingress_iff i (ingress_of r.envelope),
                  same_ingress_iff r.ingress_key i,
                ))
                (ground (arith, ended)),
          )
          (a.ingresses i)
  ]

  abbrev left : Lane
  left = (owner_of r.envelope, r.envelope.feature)

  released_turn :
      (m : Lane) (j : String)
      → str_eq id j ≡ false
      → is_some (lookup j (sp.lanes m)) ≡ true
      → is_some (lookup j (released.lanes m)) ≡ true
  released_turn m j other turn = elim (Bool-cases (same_lane m left)) [
    | inl e ↦
        let q = (same_lane_iff m left).0 e in
        rw (e, lookup-remove_other j id (sp.lanes left) other)
          (subst (λ x. is_some (lookup j (sp.lanes x)) ≡ true) q turn)
    | inr e ↦ rw e turn
  ]

  -- Another job of the lane keeps the lane in the rotation.
  released_lane :
      (m : Lane) (j : String)
      → str_eq id j ≡ false
      → is_some (rotation_of m sp.rotation) ≡ true
      → is_some (lookup j (sp.lanes m)) ≡ true
      → is_some (rotation_of m released.rotation) ≡ true
  released_lane m j other lane turn = elim (Bool-cases (same_lane m left)) [
    | inl e ↦
        let q = (same_lane_iff m left).0 e in
        rw (two (subst (λ x. is_some (lookup j (sp.lanes x)) ≡ true) q turn)) lane
    | inr e ↦ ground (arith, rotation_of-remove_lane m left sp.rotation e)
  ]
    where
      two : is_some (lookup j (sp.lanes left)) ≡ true → (length (sp.lanes left) == 1) ≡ false
      two h = elim (Option-cases (lookup j (sp.lanes left))) [
        | inl e ↦ absurd (ground arith)
        | inr (v, e) ↦ elim (Option-cases (lookup id (sp.lanes left))) [
          | inl f ↦ absurd (ground (arith, (a.placed id r found live).turn))
          | inr (w, f) ↦ ground (arith, length-two j id (sp.lanes left) other e f)
        ]
      ]

  released-IsPlaced :
      (j : String) (s : AdmissionRecord)
      → lookup j (put id (stored r') sp.tickets) ≡ some (stored s)
      → is_terminal s.state ≡ false
      → IsPlaced released j s
  released-IsPlaced j s at going =
      let other : str_eq id j ≡ false =
        ground (arith, lookup-put j id (stored r') sp.tickets, ended) in
      let p = a.placed j s (ground (arith, other, lookup-put j id (stored r') sp.tickets)) going in
      record {
        pointer = p.pointer;
        lane = released_lane (owner_of s.envelope, s.envelope.feature) j other p.lane p.turn;
        turn = released_turn (owner_of s.envelope, s.envelope.feature) j other p.turn;
      }

  was_pending : lookup id sp.pending ≡ some r.envelope.deadline
  was_pending = ground (arith, a.pending id)

  released_size : length released.pending ≡ total one released.tickets
  released_size = omega (
    arith,
    a.size,
    length-remove id sp.pending was_pending,
    lost_weight one 1 (ground (arith, live)) (ground (arith, ended)),
  )

  released_pending :
      (j : String) → lookup j released.pending ≡ live_deadline (lookup j released.tickets)
  released_pending j = ground (
    arith,
    a.pending j,
    lookup-remove j id sp.pending a.keyed,
    ended,
    lookup-put j id (stored r') sp.tickets,
    eq_iff id j,
  )

  -- A release leaves every count as it should be.
  pub release-IsCounted : IsCounted released
  unfolding read_totals read_counter released_counters
  release-IsCounted = record {
    bound = put-Each IsTicket id (stored r') sp.tickets bound a.bound;
    totals =
        rw
          (
            lost_weight one 1 (ground (arith, live)) (ground (arith, ended)),
            lost_weight bytes r.byte_size (ground (arith, live)) (ground (arith, ended)),
            job.byte_size,
          )
          refl;
    subjects = released_subjects;
    ingresses = released_ingresses;
    keyed = remove-IsKeyed id sp.pending a.keyed;
    size = released_size;
    pending = λ j. released_pending j;
    placed = released-IsPlaced;
  }

  pub write_release-released :
      write_release sp
        (keys_of r.envelope)
        r'
        (capacity_of sp (keys_of r.envelope))
        (length (sp.lanes (owner_of r.envelope, r.envelope.feature)))
      ≡ released
  write_release-released =
      ap (λ k. released_at k r'.envelope.job_id) old-IsBound.job ∙ ap (released_at id) bound.job
