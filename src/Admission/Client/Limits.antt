-- ===== src/Admission/Client/Limits.antt =====
-- Proofs about every history of admissions and calls of admission.py.
use hovorun_v.Prelude.{
  lookup-Each, put-Each, Each, ℕ, ◌+◌, ◌≤◌, ◌≡◌, refl, sym, some, List, [], ◌∷◌, String, lookup,
  total, total-put_old, total-put_new, Result, ok, err, inl, inr, arith, Bool-cases, Result-cases,
}
use mathlib.Core.Path.{subst}
use hovorun_v.Domain.{Instant}
use hovorun_v.Jobs.Envelope.{JobEnvelope, validate_envelope}
use hovorun_v.Admission.Record.{
  AdmissionRecord, Owner, Ingress, owner_of, ingress_of, Stored, stored,
}
use hovorun_v.Admission.Transition.{AdmissionTransition}
use hovorun_v.Admission.Traces.{step, step-SameJob, step-is_terminal}
use hovorun_v.Admission.Capacity.{AdmissionLimits, read_totals, read_counter}
use hovorun_v.Admission.Space.{
  Space, empty_space, same_owner, same_owner_iff, same_ingress, same_ingress_iff,
}
use hovorun_v.Admission.Store.{SealedPayload, initial_record, admit}
use hovorun_v.Admission.Accounting.{IsAccounted, keys_of, one, bytes, by_subject, by_ingress}
use hovorun_v.Admission.Accounting.Apply.{IsApplied}
use hovorun_v.Admission.Accounting.Entry.{IsEntered, IsAnswered, admit-IsAnswered}
use hovorun_v.Admission.Client.{Call, call}
use hovorun_v.Admission.Client.Safety.{IsMoved, unmoved, moved_ticket, call-IsMoved}

-- What a client asks of the store.
pub data Event : Type 0 where
  admission : JobEnvelope → SealedPayload → Instant → Event
  transition : Call → Event

abbrev pub space_or {ℓ} : {A : Type ℓ} → Space → Result (A × Space) → Space
space_or sp (ok done) = done.1
space_or sp (err e) = sp

-- The space after an event; a transaction that raises has written nothing.
unfoldable pub run_event : AdmissionLimits → Space → Event → Space
unfolding admit call
run_event l sp (admission e p now) = space_or sp (admit sp e p l now)
run_event l sp (transition c) = space_or sp (call sp c)

unfoldable pub run_events : AdmissionLimits → Space → List Event → Space
unfolding run_event
run_events l sp [] = sp
run_events l sp (x ∷ xs) = run_events l (run_event l sp x) xs

-- The envelopes of the admissions pass their validators.
abbrev pub AreValid : List Event → Type 0
AreValid [] = Unit {0}
AreValid (admission e p now ∷ xs) = (validate_envelope e ≡ ok tt) × AreValid xs
AreValid (transition c ∷ xs) = AreValid xs

-- The live tickets keep to the limits: all of them together, those of each subject and those of each
-- ingress.
pub record IsLimited (l : AdmissionLimits) (sp : Space) : Type 0 where
  pub accounted : IsAccounted sp
  pub global : total one sp.tickets ≤ l.safety.global_pending
  pub payload : total bytes sp.tickets ≤ l.safety.total_payload_bytes
  pub subject : (o : Owner) → total (by_subject o) sp.tickets ≤ l.subject_pending
  pub ingress : (i : Ingress) → total (by_ingress i) sp.tickets ≤ l.ingress_pending

empty_space-IsAccounted : IsAccounted empty_space
unfolding read_totals read_counter total lookup
empty_space-IsAccounted = record {
  counted = record {
    bound = tt;
    totals = refl;
    subjects = λ o. refl;
    ingresses = λ i. refl;
    keyed = tt;
    size = refl;
    pending = λ id. refl;
    placed = λ id r h live. cc;
  };
  keyed = tt;
  handoff = λ id. refl;
}

pub empty_space-IsLimited : (l : AdmissionLimits) → IsLimited l empty_space
unfolding total
empty_space-IsLimited l = record {
  accounted = empty_space-IsAccounted;
  global = ground arith;
  payload = ground arith;
  subject = λ o. ground arith;
  ingress = λ i. ground arith;
}

-- A transition never adds to a weight that only live tickets have.
lighter :
    (w : Stored → ℕ) (sp : Space) (id : String) (r : AdmissionRecord) (q : AdmissionTransition)
    {sp' : Space}
    → lookup id sp.tickets ≡ some (stored r)
    → w (stored (step r q)) ≤ w (stored r)
    → IsApplied sp id (step r q) sp'
    → total w sp'.tickets ≤ total w sp.tickets
lighter w sp id r q found le x =
    rw x.tickets (omega (arith, le, total-put_old w id (stored (step r q)) sp.tickets found))

module _ (l : AdmissionLimits) (sp : Space) (i : IsLimited l sp) where
  moved-IsLimited : {sp' : Space} → IsMoved sp sp' → IsLimited l sp'
  moved-IsLimited (unmoved e) = subst (IsLimited l) (sym e) i
  moved-IsLimited {sp'} (moved_ticket id r q found x) =
      let job = step-SameJob r q in
      let ended = step-is_terminal r q in
      record {
        accounted = x.accounted;
        global = omega (arith, i.global, lighter one sp id r q found (ground arith) x);
        payload =
            omega
              (arith, i.payload, lighter bytes sp id r q found (ground (arith, job.byte_size)) x);
        subject = λ o. omega (
          arith,
          i.subject o,
          lighter (by_subject o) sp id r q found (ground (arith, job.subject)) x,
        );
        ingress = λ g. omega (
          arith,
          i.ingress g,
          lighter (by_ingress g) sp id r q found (ground (arith, job.ingress)) x,
        );
      }

  module _ (e : JobEnvelope) (p : SealedPayload) {sp' : Space} (x : IsEntered sp e p l sp') where
    grown_by :
        (w : Stored → ℕ)
        → total w sp'.tickets ≡ total w sp.tickets + w (stored (initial_record e p (keys_of e)))
    grown_by w =
        rw x.tickets
          (total-put_new w e.job_id (stored (initial_record e p (keys_of e))) sp.tickets x.fresh)

    entered_subject : (o : Owner) → total (by_subject o) sp'.tickets ≤ l.subject_pending
    entered_subject o = elim (Bool-cases (same_owner (owner_of e) o)) [
      | inl q ↦
          subst (λ k. total (by_subject k) sp'.tickets ≤ l.subject_pending)
            ((same_owner_iff (owner_of e) o).0 q) x.within.subject
      | inr q ↦ ground (arith, i.subject o, grown_by (by_subject o))
    ]

    entered_ingress : (g : Ingress) → total (by_ingress g) sp'.tickets ≤ l.ingress_pending
    entered_ingress g = elim (Bool-cases (same_ingress (ingress_of e) g)) [
      | inl q ↦
          subst (λ k. total (by_ingress k) sp'.tickets ≤ l.ingress_pending)
            ((same_ingress_iff (ingress_of e) g).0 q) x.within.ingress
      | inr q ↦ ground (arith, i.ingress g, grown_by (by_ingress g))
    ]

    entered-IsLimited : IsLimited l sp'
    entered-IsLimited = record {
      accounted = x.accounted;
      global = x.within.global;
      payload = x.within.bytes;
      subject = entered_subject;
      ingress = entered_ingress;
    }

  answered-IsLimited :
      (e : JobEnvelope) (p : SealedPayload) {sp' : Space}
      → IsAnswered sp e p l sp'
      → IsLimited l sp'
  answered-IsLimited e p (inl same) = subst (IsLimited l) (sym same) i
  answered-IsLimited e p (inr x) = entered-IsLimited e p x

  pub admission-IsLimited :
      (e : JobEnvelope) (p : SealedPayload) (now : Instant)
      → validate_envelope e ≡ ok tt
      → IsLimited l (space_or sp (admit sp e p l now))
  admission-IsLimited e p now v = elim (Result-cases (admit sp e p l now)) [
    | inl ((x, sp'), h) ↦
        rw h (answered-IsLimited e p (admit-IsAnswered sp e p l i.accounted now v h))
    | inr (x, h) ↦ rw h i
  ]

  pub transition-IsLimited : (c : Call) → IsLimited l (space_or sp (call sp c))
  transition-IsLimited c = elim (Result-cases (call sp c)) [
    | inl ((x, sp'), h) ↦ rw h (moved-IsLimited (call-IsMoved sp c i.accounted h))
    | inr (x, h) ↦ rw h i
  ]

pub run_events_from :
    (l : AdmissionLimits) (xs : List Event) (sp : Space)
    → AreValid xs
    → IsLimited l sp
    → IsLimited l (run_events l sp xs)
unfolding run_events run_event
run_events_from l [] sp v i = i
run_events_from l (admission e p now ∷ xs) sp v i =
    run_events_from l xs (space_or sp (admit sp e p l now)) v.1
      (admission-IsLimited l sp i e p now v.0)
run_events_from l (transition c ∷ xs) sp v i =
    run_events_from l xs (space_or sp (call sp c)) v (transition-IsLimited l sp i c)

-- No live ticket has a payload above the limit for one payload.
abbrev pub IsFitted : AdmissionLimits → Space → Type 0
IsFitted l sp = Each (λ id v. bytes v ≤ l.safety.payload_bytes) sp.tickets

module _ (l : AdmissionLimits) (sp : Space) (f : IsFitted l sp) where
  moved-IsFitted : {sp' : Space} → IsMoved sp sp' → IsFitted l sp'
  moved-IsFitted (unmoved e) = subst (IsFitted l) (sym e) f
  moved-IsFitted {sp'} (moved_ticket id r q found x) =
      let job = step-SameJob r q in
      let ended = step-is_terminal r q in
      let old = lookup-Each (λ id v. bytes v ≤ l.safety.payload_bytes) id sp.tickets f found in
      let new : bytes (stored (step r q)) ≤ l.safety.payload_bytes =
        ground (arith, job.byte_size, old) in
      rw x.tickets (
        put-Each (λ id v. bytes v ≤ l.safety.payload_bytes) id (stored (step r q)) sp.tickets new f)

  admission-IsFitted :
      (e : JobEnvelope) (p : SealedPayload) (now : Instant)
      → IsAccounted sp
      → validate_envelope e ≡ ok tt
      → IsFitted l (space_or sp (admit sp e p l now))
  admission-IsFitted e p now a v = elim (Result-cases (admit sp e p l now)) [
    | inl ((x, sp'), h) ↦ rw h (entered (admit-IsAnswered sp e p l a now v h))
    | inr (x, h) ↦ rw h f
  ]
    where
      entered : {sp' : Space} → IsAnswered sp e p l sp' → IsFitted l sp'
      entered (inl same) = subst (IsFitted l) (sym same) f
      entered (inr x) = rw x.tickets (
          put-Each (λ id v. bytes v ≤ l.safety.payload_bytes) e.job_id
            (stored (initial_record e p (keys_of e))) sp.tickets x.fitting f)

  transition-IsFitted : (c : Call) → IsAccounted sp → IsFitted l (space_or sp (call sp c))
  transition-IsFitted c a = elim (Result-cases (call sp c)) [
    | inl ((x, sp'), h) ↦ rw h (moved-IsFitted (call-IsMoved sp c a h))
    | inr (x, h) ↦ rw h f
  ]

run_events-IsFitted :
    (l : AdmissionLimits) (xs : List Event) (sp : Space)
    → AreValid xs
    → IsLimited l sp
    → IsFitted l sp
    → IsFitted l (run_events l sp xs)
unfolding run_events run_event
run_events-IsFitted l [] sp v i f = f
run_events-IsFitted l (admission e p now ∷ xs) sp v i f =
    run_events-IsFitted l xs (space_or sp (admit sp e p l now)) v.1
      (admission-IsLimited l sp i e p now v.0) (admission-IsFitted l sp f e p now i.accounted v.0)
run_events-IsFitted l (transition c ∷ xs) sp v i f =
    run_events-IsFitted l xs (space_or sp (call sp c)) v (transition-IsLimited l sp i c)
      (transition-IsFitted l sp f c i.accounted)

-- From an empty namespace, whatever admissions of validated envelopes and calls are made in whatever
-- order, under one set of limits: the counters and the indexes agree with the live tickets, which keep
-- to the limits on their number, on their bytes in all, on those of one subject and of one ingress, and
-- on the bytes of each.
pub run_events-IsLimited :
    (l : AdmissionLimits) (xs : List Event)
    → AreValid xs
    → IsLimited l (run_events l empty_space xs) × IsFitted l (run_events l empty_space xs)
run_events-IsLimited l xs v = (
  run_events_from l xs empty_space v (empty_space-IsLimited l),
  run_events-IsFitted l xs empty_space v (empty_space-IsLimited l) tt,
)
