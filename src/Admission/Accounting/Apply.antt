-- ===== src/Admission/Accounting/Apply.antt =====
-- Proofs about `_apply_attempt` of admission.py in an accounted space.
use hovorun_v.Prelude.{
  ℕ, ◌≡◌, refl, sym, ◌∙◌, true, false, not, ◌&&◌, Option, none, some, String, eq_iff, length,
  lookup, put, put_same, lookup-Each, if◌then◌else◌, ok, Error, err, ◌>>=◌, arith, Bool-cases,
  Option-cases, Result-cases, inl, inr,
}
use mathlib.Core.Path.{subst}
use hovorun_v.Admission.Record.{
  AdmissionRecord, AdmissionKeys, owner_of, is_terminal, is_accepted, stored, read_record,
}
use hovorun_v.Admission.Valid.{validate_record_iff}
use hovorun_v.Admission.Transition.{AdmissionTransition, AdmissionChange, calculate_change}
use hovorun_v.Admission.Invariant.{IsStored, IsChecked, KeepsStored, calculate_change-IsStored}
use hovorun_v.Admission.Effect.{IsSound, Sound, SoundAt, calculate_change-Sound}
use hovorun_v.Admission.Traces.{after, step, after_result}
use hovorun_v.Admission.Capacity.{AdmissionCapacity}
use hovorun_v.Admission.Space.{Space}
use hovorun_v.Admission.Store.{
  write_release, write_handoff, write_record, write_change, apply_ticket, apply_attempt,
}
use hovorun_v.Admission.Accounting.{
  IsAccounted, IsBound, IsTicket, keys_of, capacity_of, record_keys-IsBound,
}
use hovorun_v.Admission.Accounting.Changes.{read_active_accounted, put-IsCounted}
use hovorun_v.Admission.Accounting.Release.{released, release-IsCounted, write_release-released}
use hovorun_v.Admission.Accounting.Handoff.{
  moved-IsBound, handoff-IsAccounted, write_handoff-tickets,
}

-- What a transition of one ticket leaves of the space.
pub record IsApplied (sp : Space) (id : String) (r' : AdmissionRecord) (sp' : Space) : Type 0 where
  pub accounted : IsAccounted sp'
  pub tickets : sp'.tickets ≡ put id (stored r') sp.tickets

write_change_written :
    (sp : Space) (keys : AdmissionKeys) (c : AdmissionChange)
    (capacity : Option (AdmissionCapacity × ℕ)) {r' : AdmissionRecord}
    → c.next ≡ some r'
    → c.write ≡ true
    → write_change sp keys c capacity ≡ write_record sp keys c r' capacity
unfolding write_change
write_change_written sp keys c capacity e w = rw (e, w) refl

after_written :
    (r : AdmissionRecord) (c : AdmissionChange) {r' : AdmissionRecord}
    → c.next ≡ some r'
    → c.write ≡ true
    → after r c ≡ r'
unfolding after
after_written r c e w = rw (e, w) refl

module _ (sp : Space) (id : String) (r : AdmissionRecord) (a : IsAccounted sp)
    (found : lookup id sp.tickets ≡ some (stored r)) (b : IsBound id r) where
  unwritten-IsApplied : {r' : AdmissionRecord} → r' ≡ r → IsApplied sp id r' sp
  unwritten-IsApplied e = record {
    accounted = a;
    tickets = rw e (sym (put_same id sp.tickets found));
  }

  released_IsApplied :
      (r' : AdmissionRecord) (c : AdmissionChange)
      → IsSound r c r'
      → IsStored r'
      → is_terminal r.state ≡ false
      → is_terminal r'.state ≡ true
      → IsApplied sp id r' (
          write_handoff
            (write_release sp
              (keys_of r.envelope)
              r'
              (capacity_of sp (keys_of r.envelope))
              (length (sp.lanes (owner_of r.envelope, r.envelope.feature))))
            r'
            c.handoff)
  released_IsApplied r' c s kept live ended =
      let b' = moved-IsBound id r r' b s.job kept in
      let e = write_release-released sp id r r' a.counted found s.job b' live ended in
      rw e (record {
        accounted =
            handoff-IsAccounted sp (released sp id r r' a.counted found s.job b' live ended) id r r'
              c.handoff a (release-IsCounted sp id r r' a.counted found s.job b' live ended) refl
              refl found s.job.envelope b'.job s.handoff;
        tickets = write_handoff-tickets _ r' c.handoff;
      })

  kept_IsApplied :
      (r' : AdmissionRecord) (c : AdmissionChange)
      → IsSound r c r'
      → IsStored r'
      → is_terminal r'.state ≡ is_terminal r.state
      → IsApplied sp id r'
          (write_handoff (record sp { tickets = put id (stored r') sp.tickets }) r' c.handoff)
  kept_IsApplied r' c s kept same =
      let b' = moved-IsBound id r r' b s.job kept in
      record {
        accounted =
            handoff-IsAccounted sp (record sp { tickets = put id (stored r') sp.tickets }) id r r'
              c.handoff a (put-IsCounted sp id r r' a.counted found s.job b' same) refl refl found
              s.job.envelope b'.job s.handoff;
        tickets = write_handoff-tickets _ r' c.handoff;
      }

  abbrev capacity_for : AdmissionChange → Option (AdmissionCapacity × ℕ)
  capacity_for c =
      if c.write && not (is_terminal r.state)
      then some (
        capacity_of sp (keys_of r.envelope),
        length (sp.lanes (owner_of r.envelope, r.envelope.feature)),
      )
      else none

  write_record-IsApplied :
      (r' : AdmissionRecord) (c : AdmissionChange)
      → IsSound r c r'
      → IsStored r'
      → c.write ≡ true
      → (sp' : Space) × (write_record sp (keys_of r.envelope) c r' (capacity_for c) ≡ ok sp')
        × IsApplied sp id r' sp'
  unfolding write_record
  write_record-IsApplied r' c s kept w = elim (Bool-cases (is_terminal r.state)) [
    | inl done ↦ (
      _,
      ground (arith, s.release),
      moved r' c s kept (ground (arith, (s.final done).ended, done)),
    )
    | inr live ↦ elim (Bool-cases (is_terminal r'.state)) [
      | inl ended ↦ (_, ground (arith, s.release), released_IsApplied r' c s kept live ended)
      | inr going ↦ (_, ground (arith, s.release), moved r' c s kept (ground (arith, live, going)))
    ]
  ]
    where
      moved :
          (r' : AdmissionRecord) (c : AdmissionChange)
          → IsSound r c r'
          → IsStored r'
          → is_terminal r'.state ≡ is_terminal r.state
          → IsApplied sp id r' (
              write_handoff
                (record sp { tickets = put r.envelope.job_id (stored r') sp.tickets })
                r'
                c.handoff)
      moved r' c s kept same =
          subst
            (λ k.
              IsApplied sp id r'
                (write_handoff (record sp { tickets = put k (stored r') sp.tickets }) r' c.handoff))
            (sym b.job) (kept_IsApplied r' c s kept same)

  write_change-IsApplied :
      (c : AdmissionChange)
      → Sound r c
      → KeepsStored c
      → (sp' : Space) × (write_change sp (keys_of r.envelope) c (capacity_for c) ≡ ok sp')
        × IsApplied sp id (after r c) sp'
  unfolding write_change after
  write_change-IsApplied c s k = elim (Option-cases c.next) [
    | inl e ↦ (sp, rw e refl, rw e (unwritten-IsApplied refl))
    | inr (r', e) ↦
        let sound : IsSound r c r' = subst (SoundAt r c) e s in
        let kept : IsStored r' = rw e at k in
        elim (Bool-cases c.write) [
          | inl w ↦
              let (sp', done, applied) = write_record-IsApplied r' c sound kept w in
              (
                sp',
                write_change_written sp (keys_of r.envelope) c (capacity_for c) e w ∙ done,
                subst (λ x. IsApplied sp id x sp') (sym (after_written r c e w)) applied,
              )
          | inr w ↦ (sp, rw (e, w) refl, rw (e, w) (unwritten-IsApplied refl))
        ]
  ]

  -- The capacity is read exactly when it is needed, and it is there.
  apply_ticket-IsApplied :
      (q : AdmissionTransition) {c : AdmissionChange}
      → IsChecked r q
      → calculate_change r q ≡ ok c
      → (sp' : Space) × (apply_ticket sp id r (keys_of r.envelope) q ≡ ok (c, sp'))
        × IsApplied sp id (after r c) sp'
  unfolding apply_ticket
  apply_ticket-IsApplied q {c} v e =
      let sound : Sound r c = rw e at (calculate_change-Sound r q) in
      let kept : KeepsStored c = rw e at (calculate_change-IsStored r q b.kept v) in
      let (sp', done, applied) = write_change-IsApplied c sound kept in
      let index : lookup id sp.handoff
          ≡ (if is_accepted r.state then some r.envelope.deadline else none) =
        rw (a.handoff id, found) refl in
      (sp', ground (arith, e, done, read_active_accounted sp id r a.counted index found), applied)

  read_bound : read_record (stored r) ≡ ok r
  unfolding read_record
  read_bound = ground (arith, (validate_record_iff r).1 b.kept.valid)

  apply_attempt_bound :
      (q : AdmissionTransition)
      → apply_attempt sp id q
        ≡ (apply_ticket sp id r (keys_of r.envelope) q >>= λ done. ok (some done.0, done.1))
  unfolding apply_attempt
  apply_attempt_bound q =
      ground
        (arith, found, read_bound, record_keys-IsBound id r b, eq_iff r.envelope.job_id id, b.job)

  -- In an accounted space a transition of a stored ticket is its calculation: what that returns is
  -- returned, after its ticket was written, and the space stays accounted.
  apply_attempt-ok :
      (q : AdmissionTransition) {c : AdmissionChange}
      → IsChecked r q
      → calculate_change r q ≡ ok c
      → (sp' : Space) × (apply_attempt sp id q ≡ ok (some c, sp')) × IsApplied sp id (after r c) sp'
  apply_attempt-ok q v e =
      let (sp', done, applied) = apply_ticket-IsApplied q v e in
      (sp', rw (apply_attempt_bound q, done) refl, applied)

  pub apply_attempt-err :
      (q : AdmissionTransition) {x : Error}
      → calculate_change r q ≡ err x
      → apply_attempt sp id q ≡ err x
  unfolding apply_ticket
  apply_attempt-err q e = rw (apply_attempt_bound q) (rw (e, apply_ticket) refl)

-- From an accounted space, a transition of a stored ticket that its caller has checked answers or
-- raises exactly as `calculate_change` does on that ticket. It leaves a space that is accounted again,
-- whose tickets are the old ones with the calculated ticket in the old one's place.
pub apply_attempt-refines :
    (sp : Space) (id : String) (r : AdmissionRecord)
    → IsAccounted sp
    → lookup id sp.tickets ≡ some (stored r)
    → (q : AdmissionTransition) → IsChecked r q
    → (sp' : Space) × (apply_attempt sp id q ≡ (calculate_change r q >>= λ c. ok (some c, sp')))
      × IsApplied sp id (step r q) sp'
unfolding step after_result
apply_attempt-refines sp id r a found q v =
    let b : IsBound id r = lookup-Each IsTicket id sp.tickets a.counted.bound found in
    elim (Result-cases (calculate_change r q)) [
      | inl (c, e) ↦
          let (sp', done, applied) = apply_attempt-ok sp id r a found b q v e in
          (sp', done ∙ sym (rw e refl), rw e applied)
      | inr (x, e) ↦ (
        sp,
        apply_attempt-err sp id r a found b q e ∙ sym (rw e refl),
        rw e (unwritten-IsApplied sp id r a found b refl),
      )
    ]
