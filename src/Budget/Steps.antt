-- ===== src/Budget/Steps.antt =====
-- Proofs about what one transaction of budgets.py does to the store.
use hovorun_v.Prelude.{
  ℕ, ◌≤◌, ◌<◌, ◌≡◌, refl, sym, ◌∙◌, ap, Bool, true, false, not, ◌&&◌, Option, none, some, is_some,
  List, All, String, length, lookup, lookup-Each, if◌then◌else◌, Result, ok, err, ◌>>=◌, ◌⊎◌, arith,
  Bool-cases, Option-cases, Result-cases, inl, inr, >>=-eq-ok, >>-then, ok-injective, raise_if,
  unavailable, value_error, type_error, key_error, conflict, assertion_error, leb,
}
use mathlib.Core.Path.{subst}
use hovorun_v.Domain.{Timestamp}
use hovorun_v.Usage.Budgets.{ReservationDecision, expired}
use hovorun_v.Budget.Record.{BudgetRecord, global_key, Amounts, QuotaKey}
use hovorun_v.Budget.Verify.{verify_record}
use hovorun_v.Budget.Calculate.{
  QuotaUpdate, Snapshot, calculate_reserve, conclude_reserve, BudgetMutation, Plan, never, plan,
  reserve_quotas, tail_of,
}
use hovorun_v.Budget.Settle.{is_reserved, calculate_finish, calculate_expire, settled, fits}
use hovorun_v.Budget.Grants.{concurrency_free}
use hovorun_v.Budget.Settlement.{calculate_finish_stored}
use hovorun_v.Budget.Expiry.{calculate_expire-IsExpiry}
use hovorun_v.Budget.Reread.{settled_verified, expired_verified}
use hovorun_v.Budget.Store.{
  unreadable, written, BudgetSpace, write_granted, write_settled, write_reservation,
  write_settlement, parse_record, snapshot, verify_previous_windows, replay_reservation,
  reserve_new, reserve_attempt, or_unavailable, finish_attempt, no_snapshot, expire_reserved,
}
use hovorun_v.Budget.Holders.{IsRecorded, IsHeld}

granted_free :
    (r : BudgetRecord) (s : Snapshot) (p : Plan) {g : BudgetRecord}
    → (conclude_reserve r s p).entry ≡ some g
    → All (λ c. length (s.members c.key) < c.limit) r.concurrency
unfolding conclude_reserve
granted_free r s never h = cc
granted_free r s (plan retry us) h = concurrency_free r s r.concurrency retry (ground arith)

-- A reservation as it is built, with at most `n` places in the global set.
pub record IsNew (n : ℕ) (r : BudgetRecord) : Type 0 where
  pub live : is_reserved r.state ≡ true
  pub valid : verify_record r r.id ≡ ok tt
  pub global : All (λ c. c.key ≡ global_key → c.limit ≤ n) r.concurrency

-- What a transaction may do to a store: nothing, a grant, the end of a reservation.
pub data IsStep (n : ℕ) (sp : BudgetSpace) : BudgetSpace → Type 0 where
  idle : IsStep n sp sp
  granted :
      (r : BudgetRecord) (us : List QuotaUpdate)
      → lookup r.id sp.reservations ≡ none
      → IsNew n r
      → All (λ c. length (sp.members c.key) < c.limit) r.concurrency
      → IsStep n sp (write_reservation sp r us)
  ended :
      (r r' : BudgetRecord) (us : List QuotaUpdate)
      → lookup r.id sp.reservations ≡ some (written r)
      → is_reserved r'.state ≡ false
      → r'.id ≡ r.id
      → verify_record r' r.id ≡ ok tt
      → IsStep n sp (write_settlement sp r r' us)

granted_or_idle :
    (sp : BudgetSpace) (r : BudgetRecord) (m : BudgetMutation) (e : Option BudgetRecord)
    → (write_granted sp r m e ≡ sp)
      ⊎ ((g : BudgetRecord) × (e ≡ some g)
          × (write_granted sp r m e ≡ write_reservation sp r m.updates))
granted_or_idle sp r m none = inl refl
granted_or_idle sp r m (some g) = inr (g, refl, refl)

snapshot_members :
    (sp : BudgetSpace) (r : BudgetRecord) (b : Bool) {s : Snapshot}
    → snapshot sp r b ≡ ok s
    → s.members ≡ sp.members
unfolding snapshot
snapshot_members sp r b {s} h =
    let (_, read) = >>-then (raise_if (b && not (is_some (lookup r.id sp.active))) unavailable) h in
    sym (ap (λ x. x.members) (ok-injective read))

calculated_free :
    (r : BudgetRecord) (s : Snapshot) (previous : List QuotaKey) {m : BudgetMutation}
    {g : BudgetRecord}
    → calculate_reserve r s previous ≡ ok m
    → m.entry ≡ some g
    → All (λ c. length (s.members c.key) < c.limit) r.concurrency
unfolding calculate_reserve
calculated_free r s previous made e =
    let (p, _, concluded) =
      >>=-eq-ok (reserve_quotas r s previous r.now r.quotas (tail_of r.concurrency)) _ made in
    granted_free r s p (ap (λ x. x.entry) (ok-injective concluded) ∙ e)

pub or_unavailable-eq-ok :
    (sp : BudgetSpace) (m : Result (ReservationDecision × BudgetSpace)) {d : ReservationDecision}
    {sp' : BudgetSpace}
    → or_unavailable sp m ≡ ok (d, sp')
    → (m ≡ ok (d, sp')) ⊎ (sp' ≡ sp)
or_unavailable-eq-ok sp (ok done) h = inl h
or_unavailable-eq-ok sp (err unavailable) h = inr (sym (ap (λ x. x.1) (ok-injective h)))
or_unavailable-eq-ok sp (err value_error) h = cc
or_unavailable-eq-ok sp (err type_error) h = cc
or_unavailable-eq-ok sp (err key_error) h = cc
or_unavailable-eq-ok sp (err conflict) h = cc
or_unavailable-eq-ok sp (err assertion_error) h = cc

pub parse_record-eq-ok :
    (r r' : BudgetRecord) (id : String) → parse_record (some (written r)) id ≡ ok r' → r ≡ r'
unfolding parse_record
parse_record-eq-ok r r' id h = elim (Result-cases (verify_record r id)) [
  | inl (a, e) ↦ ok-injective (rw (e, parse_record) at h)
  | inr (x, e) ↦ cc (rw (e, parse_record) at h)
]

module _ (n : ℕ) where
  granted-IsStep :
      (sp : BudgetSpace) (r : BudgetRecord) (m : BudgetMutation)
      → lookup r.id sp.reservations ≡ none
      → IsNew n r
      → ((g : BudgetRecord)
          → m.entry ≡ some g
          → All (λ c. length (sp.members c.key) < c.limit) r.concurrency)
      → IsStep n sp (write_granted sp r m m.entry)
  granted-IsStep sp r m absent fits free = elim (granted_or_idle sp r m m.entry) [
    | inl kept ↦ subst (IsStep n sp) (sym kept) idle
    | inr (g, e, made) ↦ subst (IsStep n sp) (sym made) (granted r m.updates absent fits (free g e))
  ]

  reserve_new-IsStep :
      (sp : BudgetSpace) (r : BudgetRecord) {d : ReservationDecision} {sp' : BudgetSpace}
      → lookup r.id sp.reservations ≡ none
      → IsNew n r
      → reserve_new sp r ≡ ok (d, sp')
      → IsStep n sp sp'
  unfolding reserve_new
  reserve_new-IsStep sp r absent fits h =
      let (s, snapped, rest) =
        >>=-eq-ok (snapshot sp r false)
          (λ s. verify_previous_windows sp r s r.quotas (tail_of r.concurrency) >>= λ previous.
            (calculate_reserve r s previous >>= λ m. ok (m.decision, write_granted sp r m m.entry)))
          h in
      let (previous, _, rest1) =
        >>=-eq-ok (verify_previous_windows sp r s r.quotas (tail_of r.concurrency)) _ rest in
      let (m, made, done) = >>=-eq-ok (calculate_reserve r s previous) _ rest1 in
      subst (IsStep n sp) (ap (λ x. x.1) (ok-injective done)) (
        granted-IsStep sp r m absent fits (λ g e.
          subst (λ x. All (λ c. length (x c.key) < c.limit) r.concurrency)
            (snapshot_members sp r false snapped) (calculated_free r s previous made e)))

  pub idle_at : {sp sp' : BudgetSpace} → sp' ≡ sp → IsStep n sp sp'
  idle_at {sp} e = subst (IsStep n sp) (sym e) idle

  pub reserve_attempt-IsStep :
      (sp : BudgetSpace) (r : BudgetRecord) {d : ReservationDecision} {sp' : BudgetSpace}
      → IsNew n r
      → reserve_attempt sp r ≡ ok (d, sp')
      → IsStep n sp sp'
  unfolding reserve_attempt
  reserve_attempt-IsStep sp r fits h = elim (Option-cases (lookup r.id sp.reservations)) [
    | inr (raw, there) ↦
        let (_, _, done) =
          >>=-eq-ok (replay_reservation sp r raw) _ (rw (there, reserve_attempt) at h) in
        idle_at (sym (ap (λ x. x.1) (ok-injective done)))
    | inl absent ↦ elim (Bool-cases (leb r.deadline r.now)) [
      | inl late ↦ idle_at (ground arith)
      | inr early ↦ reserve_new-IsStep sp r absent fits (rw (absent, early, reserve_attempt) at h)
    ]
  ]

  settlement-IsStep :
      (sp : BudgetSpace) (id : String) (r : BudgetRecord) (actual : Amounts) (now : Timestamp)
      (s : Snapshot) {m : BudgetMutation} {r' : BudgetRecord}
      → lookup id sp.reservations ≡ some (written r)
      → IsRecorded id (written r)
      → calculate_finish r actual now s ≡ ok m
      → m.entry ≡ some r'
      → IsStep n sp (write_settlement sp r r' m.updates)
  unfolding calculate_finish
  settlement-IsStep sp id r actual now s {m} {r'} found b h e =
      elim (Bool-cases (is_reserved r.state)) [
        | inr over ↦ absurd (ground arith)
        | inl live ↦
            let (good, entry) = calculate_finish_stored r actual now s (ground arith) h in
            let same : settled r actual ≡ r' = ground (arith, entry) in
            subst (λ x. IsStep n sp (write_settlement sp r x m.updates)) same
              (ended r (settled r actual) m.updates
                (subst (λ k. lookup k sp.reservations ≡ some (written r)) (sym b.0) found)
                (ground arith) refl
                (subst (λ k. verify_record (settled r actual) k ≡ ok tt) (sym b.0)
                  (settled_verified r actual id b.1 good)))
      ]

  settled-IsStep :
      (sp : BudgetSpace) (id : String) (r : BudgetRecord) (actual : Amounts) (now : Timestamp)
      (s : Snapshot) {m : BudgetMutation}
      → lookup id sp.reservations ≡ some (written r)
      → IsRecorded id (written r)
      → calculate_finish r actual now s ≡ ok m
      → IsStep n sp (write_settled sp r m m.entry)
  settled-IsStep sp id r actual now s {m} found b h = elim (Option-cases m.entry) [
    | inl e ↦ subst (λ x. IsStep n sp (write_settled sp r m x)) (sym e) idle
    | inr (r', e) ↦
        subst (λ x. IsStep n sp (write_settled sp r m x)) (sym e)
          (settlement-IsStep sp id r actual now s found b h e)
  ]

  pub finish_attempt-IsStep :
      (sp : BudgetSpace) (id : String) (actual : Amounts) (now : Timestamp)
      {d : ReservationDecision} {sp' : BudgetSpace}
      → IsHeld sp
      → finish_attempt sp id actual now ≡ ok (d, sp')
      → IsStep n sp sp'
  unfolding finish_attempt parse_record
  finish_attempt-IsStep sp id actual now h e = elim (Option-cases (lookup id sp.reservations)) [
    | inl absent ↦ idle_at (ground arith)
    | inr (unreadable, found) ↦ absurd (lookup-Each IsRecorded id sp.reservations h.recorded found)
    | inr (written r0, found) ↦
        let b : IsRecorded id (written r0) =
          lookup-Each IsRecorded id sp.reservations h.recorded found in
        let (r, parsed, rest) =
          >>=-eq-ok (parse_record (some (written r0)) id) _ (rw (found, finish_attempt) at e) in
        let (s, _, rest1) =
          >>=-eq-ok (if is_reserved r.state then snapshot sp r true else ok no_snapshot) _ rest in
        let (m, made, done) = >>=-eq-ok (calculate_finish r actual now s) _ rest1 in
        let same : r0 ≡ r = parse_record-eq-ok r0 r id parsed in
        subst (IsStep n sp) (ap (λ x. x.1) (ok-injective done)) (
          settled-IsStep sp id r actual now s (found ∙ ap (λ x. some (written x)) same)
            (subst (λ x. IsRecorded id (written x)) same b) made)
  ]

  pub expire_reserved-IsStep :
      (sp : BudgetSpace) (r : BudgetRecord) (now : Timestamp) {b : Bool} {sp' : BudgetSpace}
      → is_reserved r.state ≡ true
      → lookup r.id sp.reservations ≡ some (written r)
      → verify_record r r.id ≡ ok tt
      → expire_reserved sp r now ≡ ok (b, sp')
      → IsStep n sp sp'
  unfolding expire_reserved
  expire_reserved-IsStep sp r now live found valid e =
      let (m, made, done) =
        >>=-eq-ok
          (calculate_expire r now
            (record { window = sp.window; rate = sp.rate; members = sp.members }))
          _ e in
      let entry = (calculate_expire-IsExpiry r now _ (ground arith) made).entry in
      subst (IsStep n sp) (ap (λ x. x.1) (ok-injective done)) (
        subst (λ x. IsStep n sp (write_settled sp r m x)) (sym entry)
          (ended r (record r { actual = none; state = expired }) m.updates found refl refl
            (expired_verified r r.id valid)))
