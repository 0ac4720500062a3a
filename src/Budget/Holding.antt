-- ===== src/Budget/Holding.antt =====
-- Proofs that the transactions of budgets.py keep the sets and the index in step with the reservations.
use hovorun_v.Prelude.{
  ◌≡◌, refl, ◌∙◌, ap, true, false, none, some, List, String, String-discrete, str_eq, eq_iff,
  contains, lookup, put, lookup-put, lookup-remove, put-IsKeyed, remove-IsKeyed, put-Each,
  if◌then◌else◌, ok, arith, Bool-cases, inl, inr,
}
use mathlib.Core.Path.{subst}
use hovorun_v.Budget.Record.{BudgetRecord, ConcurrencyKey}
use hovorun_v.Budget.Verify.{verify_record}
use hovorun_v.Budget.Calculate.{QuotaUpdate}
use hovorun_v.Budget.Settle.{is_reserved}
use hovorun_v.Budget.Store.{
  written, BudgetSpace, has_key, add_member, remove_member, write_reservation, write_settlement,
}
use hovorun_v.Budget.Holders.{
  IsRecorded, holds, IsHeld, write_updates-SameHolders, contains-add_member, contains-remove_member,
}

module _ (sp : BudgetSpace) (r : BudgetRecord) (us : List QuotaUpdate) (h : IsHeld sp) where
  module _ (fresh : lookup r.id sp.reservations ≡ none) (live : is_reserved r.state ≡ true)
      (valid : verify_record r r.id ≡ ok tt) where
    reserved_member :
        (k : ConcurrencyKey) (id : String)
        → contains String-discrete id
            (if has_key k r.concurrency then add_member r.id (sp.members k) else sp.members k)
          ≡ holds k (lookup id (put r.id (written r) sp.reservations))
    reserved_member k id = elim (Bool-cases (str_eq r.id id)) [
      | inl q ↦
          let absent : contains String-discrete id (sp.members k) ≡ false =
            subst (λ x. contains String-discrete x (sp.members k) ≡ false) ((eq_iff r.id id).0 q)
              (h.members k r.id ∙ rw fresh refl) in
          ground (
            arith,
            lookup-put id r.id (written r) sp.reservations,
            contains-add_member id r.id (sp.members k),
          )
      | inr q ↦ ground (
        arith,
        lookup-put id r.id (written r) sp.reservations,
        contains-add_member id r.id (sp.members k),
        h.members k id,
      )
    ]

    -- A reservation that was not there holds its places.
    pub write_reservation-IsHeld : IsHeld (write_reservation sp r us)
    unfolding write_reservation
    write_reservation-IsHeld =
        let same = write_updates-SameHolders us sp in
        record {
          recorded =
              rw same.reservations
                (put-Each IsRecorded r.id (written r) sp.reservations (refl, valid) h.recorded);
          members = λ k id. rw (same.members k, same.reservations) (reserved_member k id);
          keyed = rw same.active (put-IsKeyed r.id r.deadline sp.active h.keyed);
          active = λ id.
              rw (same.active, same.reservations)
                (ground (
                  arith,
                  h.active id,
                  lookup-put id r.id r.deadline sp.active,
                  lookup-put id r.id (written r) sp.reservations,
                ));
        }

  module _ (r' : BudgetRecord) (found : lookup r.id sp.reservations ≡ some (written r))
      (ended : is_reserved r'.state ≡ false) (same_id : r'.id ≡ r.id)
      (valid : verify_record r' r.id ≡ ok tt) where
    settled_member :
        (k : ConcurrencyKey) (id : String)
        → contains String-discrete id
            (if has_key k r.concurrency then remove_member r.id (sp.members k) else sp.members k)
          ≡ holds k (lookup id (put r.id (written r') sp.reservations))
    settled_member k id = elim (Bool-cases (str_eq r.id id)) [
      | inl q ↦
          let there : contains String-discrete id (sp.members k) ≡ holds k (some (written r)) =
            subst (λ x. contains String-discrete x (sp.members k) ≡ holds k (some (written r)))
              ((eq_iff r.id id).0 q) (h.members k r.id ∙ ap (holds k) found) in
          ground (
            arith,
            lookup-put id r.id (written r') sp.reservations,
            contains-remove_member id r.id (sp.members k),
          )
      | inr q ↦ ground (
        arith,
        lookup-put id r.id (written r') sp.reservations,
        contains-remove_member id r.id (sp.members k),
        h.members k id,
      )
    ]

    -- A reservation that ends gives up its places.
    pub write_settlement-IsHeld : IsHeld (write_settlement sp r r' us)
    unfolding write_settlement
    write_settlement-IsHeld =
        let same = write_updates-SameHolders us sp in
        record {
          recorded =
              rw same.reservations
                (put-Each IsRecorded r.id (written r') sp.reservations (same_id, valid) h.recorded);
          members = λ k id. rw (same.members k, same.reservations) (settled_member k id);
          keyed = rw same.active (remove-IsKeyed r.id sp.active h.keyed);
          active = λ id.
              rw (same.active, same.reservations)
                (ground (
                  arith,
                  h.active id,
                  lookup-remove id r.id sp.active h.keyed,
                  lookup-put id r.id (written r') sp.reservations,
                ));
        }
