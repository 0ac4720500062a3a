-- ===== src/Worker/Delivery.antt =====
-- Proofs that a worker delivers the media of a job at most once.
use hovorun_v.Prelude.{
  ℕ, ◌+◌, ◌≤◌, ◌<◌, ◌≡◌, refl, sym, leb, true, false, some, List, [], ◌∷◌, String, str_eq, eq_iff,
  if◌then◌else◌, Result, ok, err, Option, inl, inr, arith, Bool-cases, Option-cases, Result-cases,
  ok-injective,
}
use mathlib.Core.Path.{subst}
use hovorun_v.Domain.{Timestamp, at}
use hovorun_v.Jobs.Envelope.{JobEnvelope}
use hovorun_v.Admission.Record.{AdmissionTicket, stored}
use hovorun_v.Admission.Transition.{AdmissionChange}
use hovorun_v.Admission.Space.{Space, empty_space}
use hovorun_v.Admission.Client.{Call, call, begin_delivery_call, ticket_answer}
use hovorun_v.Admission.Client.Limits.{AreValid, IsLimited, run_events_from, transition-IsLimited}
use hovorun_v.Admission.Client.Spent.{
  IsSpent, IsBegun, run_events-IsSpent, transition-IsSpent, begin_delivery-IsBegun,
}
use hovorun_v.Worker.Action.{unless_none, pure}
use hovorun_v.Worker.Action.Keeps.{Keeps, bind_at-Keeps}
use hovorun_v.Admission.Store.{Link, connected, request_lost, answer_lost}
use hovorun_v.Worker.World.{
  Ports, World, Trace, Effect, MediaPayload, media_delivered, noted, disturbed, moved_by,
  linked_call, store_called, transact, unsent,
}
use hovorun_v.Worker.Execution.{fenced_delivery}
use hovorun_v.Worker.Preserved.{IsPreserved, is_delivery, transaction-Keeps}
use hovorun_v.Worker.Sessions.{Task, run_tasks, run_tasks-keeps}

-- How often the media of a job were handed to Telegram.
unfoldable pub deliveries : String → Trace → ℕ
deliveries id [] = 0
deliveries id (media_delivered e m ∷ t) =
    let rest = deliveries id t in if str_eq e.job_id id then rest + 1 else rest
deliveries id (_ ∷ t) = deliveries id t

quiet-deliveries :
    (id : String) (e : Effect) (t : Trace)
    → is_delivery e ≡ false
    → deliveries id (e ∷ t) ≡ deliveries id t
unfolding deliveries
quiet-deliveries id (media_delivered e m) t h = cc
quiet-deliveries id _ t h = refl

pub unsent_fails :
    (x : Result (Option AdmissionChange × Space)) {c : Option AdmissionChange} → unsent x ≡ ok c → ⊥
unsent_fails (ok done) h = cc
unsent_fails (err e) h = cc

module _ (p : Ports) where
  linked-IsBegun :
      (l : Link) (id token : String) (t : Timestamp) (w : World) {x : Option AdmissionChange}
      {k : AdmissionTicket}
      → IsLimited p.limits w.admission
      → (linked_call p l (begin_delivery_call id token (at t)) w).0 ≡ ok x
      → ticket_answer x ≡ some k
      → IsBegun id w.admission (linked_call p l (begin_delivery_call id token (at t)) w).1.admission
  linked-IsBegun request_lost id token t w i h a =
      absurd (unsent_fails (call empty_space (begin_delivery_call id token (at t))) h)
  linked-IsBegun answer_lost id token t w i h a = cc
  linked-IsBegun connected id token t w {k = k} i h a =
      elim (Result-cases (call w.admission (begin_delivery_call id token (at t)))) [
        | inl ((y, sp'), e) ↦
            let same = ok-injective (rw e at h) in
            rw e (
              begin_delivery-IsBegun w.admission id token (at t) {x = y} i.accounted e
                (subst (λ z. ticket_answer z ≡ some k) (sym same) a))
        | inr (y, e) ↦ cc (rw e at h)
      ]

  -- The world in which a transition is made.
  abbrev before : Call → World → World
  before c w = disturbed p (noted (store_called c) w)

  -- A delivery that the store has allowed: the job was running, and its delivery has begun.
  transact-IsBegun :
      (id token : String) (t : Timestamp) (w : World) {x : Option AdmissionChange}
      {k : AdmissionTicket}
      → IsLimited p.limits (before (begin_delivery_call id token (at t)) w).admission
      → (transact p (begin_delivery_call id token (at t)) w).0 ≡ ok x
      → ticket_answer x ≡ some k
      → IsBegun id
          (before (begin_delivery_call id token (at t)) w).admission
          (transact p (begin_delivery_call id token (at t)) w).1.admission
  unfolding transact
  transact-IsBegun id token t w i h a =
      let w' = before (begin_delivery_call id token (at t)) w in
      linked-IsBegun (p.link w'.trace) id token t w' i h a

  trace-linked_call : (l : Link) (c : Call) (w : World) → (linked_call p l c w).1.trace ≡ w.trace
  trace-linked_call connected c w = refl
  trace-linked_call request_lost c w = refl
  trace-linked_call answer_lost c w = refl

  trace-transact : (c : Call) (w : World) → (transact p c w).1.trace ≡ (before c w).trace
  unfolding transact
  trace-transact c w = trace-linked_call (p.link (before c w).trace) c (before c w)

some_made : (n d : ℕ) → leb n d ≡ true → n ≤ d
some_made n d h = ground arith

no_more : (n d : ℕ) → leb n d ≡ false → d < n
no_more n d h = ground arith

-- A running job is not spent.
running_not_spent : (id : String) (sp : Space) {sp' : Space} → IsBegun id sp sp' → IsSpent id sp → ⊥
running_not_spent id sp b s =
    let this : stored b.ticket ≡ stored s.ticket = ground (arith, b.found, s.found) in
    ground (arith, b.running, s.spent)

-- The media of the job were delivered at most `n` times, and when it was `n` times, its delivery has
-- begun.
record IsFenced (n : ℕ) (id : String) (p : Ports) (w : World) : Type 0 where
  pub limited : IsLimited p.limits w.admission
  pub once : deliveries id w.trace ≤ n
  pub spent : n ≤ deliveries id w.trace → IsSpent id w.admission

module _ (n : ℕ) (id : String) (p : Ports) (o : (t : Trace) → AreValid (p.others t)) where
  noted-IsFenced :
      (e : Effect) (w : World)
      → is_delivery e ≡ false
      → IsFenced n id p w
      → IsFenced n id p (noted e w)
  noted-IsFenced e w quiet h =
      let same = quiet-deliveries id e w.trace quiet in
      record { limited = h.limited; once = rw same h.once; spent = rw same h.spent }

  disturbed-IsFenced : (w : World) → IsFenced n id p w → IsFenced n id p (disturbed p w)
  unfolding disturbed
  disturbed-IsFenced w h = record {
    limited = run_events_from p.limits (p.others w.trace) w.admission (o w.trace) h.limited;
    once = h.once;
    spent = λ d.
        run_events-IsSpent id p.limits (p.others w.trace) w.admission (o w.trace) h.limited
          (h.spent d);
  }

  moved-IsFenced : (c : Call) (w : World) → IsFenced n id p w → IsFenced n id p (moved_by p c w)
  moved-IsFenced c w h = record {
    limited = transition-IsLimited p.limits w.admission h.limited c;
    once = h.once;
    spent = λ d. transition-IsSpent id w.admission (h.spent d) c h.limited.accounted;
  }

  allowed-IsFenced :
      (e : JobEnvelope) (m : MediaPayload) (w : World)
      → IsFenced n id p w
      → (str_eq e.job_id id ≡ true → (deliveries id w.trace < n) × IsSpent id w.admission)
      → IsFenced n id p (noted (media_delivered e m) w)
  unfolding deliveries
  allowed-IsFenced e m w h new = elim (Bool-cases (str_eq e.job_id id)) [
    | inl same ↦ record {
      limited = h.limited;
      once = ground (arith, (new same).0);
      spent = λ d. (new same).1;
    }
    | inr apart ↦ record {
      limited = h.limited;
      once = ground (arith, h.once);
      spent = λ d. h.spent (ground arith);
    }
  ]

  -- A delivery that the store allows is the first one.
  first_delivery :
      (job token : String) (t : Timestamp) (w : World) {x : Option AdmissionChange}
      {k : AdmissionTicket}
      → job ≡ id
      → IsFenced n id p w
      → (transact p (begin_delivery_call job token (at t)) w).0 ≡ ok x
      → ticket_answer x ≡ some k
      → (deliveries id (transact p (begin_delivery_call job token (at t)) w).1.trace < n)
        × IsSpent id (transact p (begin_delivery_call job token (at t)) w).1.admission
  first_delivery job token t w same h made a =
      let c = begin_delivery_call job token (at t) in
      let h' : IsFenced n id p (before p c w) =
        disturbed-IsFenced (noted (store_called c) w) (noted-IsFenced (store_called c) w refl h) in
      let b = transact-IsBegun p job token t w h'.limited made a in
      let none_made : deliveries id (before p c w).trace < n =
        elim (Bool-cases (leb n (deliveries id (before p c w).trace))) [
          | inl earlier ↦ absurd (
              running_not_spent job (before p c w).admission b (
                subst (λ j. IsSpent j (before p c w).admission) (sym same)
                  (h'.spent (some_made n (deliveries id (before p c w).trace) earlier))))
          | inr new ↦ no_more n (deliveries id (before p c w).trace) new
        ] in
      let spent = subst (λ j. IsSpent j (transact p c w).1.admission) same b.spent in
      (rw (trace-transact p c w) none_made, spent)

  delivery-Keeps :
      (e : JobEnvelope) (m : MediaPayload) (token : String) (t : Timestamp)
      → Keeps (IsFenced n id p) (fenced_delivery p e m token t)
  unfolding fenced_delivery unless_none pure
  delivery-Keeps e m token t =
      let c = begin_delivery_call e.job_id token (at t) in
      let kept =
        transaction-Keeps p (IsFenced n id p) (λ c w. noted-IsFenced (store_called c) w refl)
          disturbed-IsFenced moved-IsFenced c in
      bind_at-Keeps (transact p c) _ kept λ w x h made. elim (Option-cases (ticket_answer x)) [
        | inl refused ↦ rw refused (kept.at w h)
        | inr (k, allowed) ↦ rw allowed (
            allowed-IsFenced e m (transact p c w).1 (kept.at w h) λ same.
              first_delivery e.job_id token t w ((eq_iff e.job_id id).0 same) h made allowed)
      ]

  deliveries-IsPreserved : IsPreserved p (IsFenced n id p)
  deliveries-IsPreserved = record {
    Own = λ q. Unit {0};
    owns = λ e provider t u h valid. tt;
    notes = noted-IsFenced;
    others = disturbed-IsFenced;
    moves = moved-IsFenced;
    reserves = λ q t totals w own h. record { limited = h.limited; once = h.once; spent = h.spent };
    finishes = λ id actual t w h. record { limited = h.limited; once = h.once; spent = h.spent };
    expires = λ ids t w h. record { limited = h.limited; once = h.once; spent = h.spent };
    delivers = delivery-Keeps;
  }

-- Whatever tasks a worker runs, whatever its ports answer, whatever other clients do between its calls
-- and wherever the connection to the stores is lost: if the other clients admit validated envelopes,
-- and the worker starts with an accounted store and no delivery made, it hands the media of a job to
-- Telegram at most once, and after that the ticket of the job settles, has ended or keeps its delivery
-- marked as begun.
pub run_tasks-IsFenced :
    (id : String) (p : Ports)
    → ((t : Trace) → AreValid (p.others t))
    → (ts : List Task) (w : World) → IsLimited p.limits w.admission
    → w.trace ≡ []
    → (deliveries id (run_tasks p w ts).trace ≤ 1)
      × (1 ≤ deliveries id (run_tasks p w ts).trace → IsSpent id (run_tasks p w ts).admission)
unfolding deliveries
run_tasks-IsFenced id p o ts w i fresh =
    let start : IsFenced 1 id p w = record {
      limited = i;
      once = ground (arith, fresh);
      spent = λ d. absurd (ground (arith, fresh));
    } in
    let done = run_tasks-keeps p (IsFenced 1 id p) (deliveries-IsPreserved 1 id p o) ts w start in
    (done.once, done.spent)

-- Once the delivery of a job has begun, by this worker or by another one, or the job settles or has
-- ended, a worker hands its media to Telegram no more, under the same conditions.
pub run_tasks-deliveries :
    (id : String) (p : Ports)
    → ((t : Trace) → AreValid (p.others t))
    → (ts : List Task) (w : World) → IsLimited p.limits w.admission
    → IsSpent id w.admission
    → deliveries id (run_tasks p w ts).trace ≤ deliveries id w.trace
run_tasks-deliveries id p o ts w i s =
    let n = deliveries id w.trace in
    let start : IsFenced n id p w = record { limited = i; once = omega arith; spent = λ d. s } in
    (run_tasks-keeps p (IsFenced n id p) (deliveries-IsPreserved n id p o) ts w start).once
