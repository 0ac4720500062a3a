-- ===== src/Worker/Settled.antt =====
-- Proofs that a reconciliation that returns has ended its ticket.
use hovorun_v.Prelude.{
  ◌≡◌, sym, ◌∙◌, ap, true, not, Option, none, some, String, ok, inl, inr, Result-cases,
  ok-injective, arith, unavailable,
}
use mathlib.Core.Path.{subst}
use hovorun_v.Domain.{Timestamp, at}
use hovorun_v.Jobs.Envelope.{JobEnvelope, JobOutcome}
use hovorun_v.Jobs.Settlement.{SettlementIntent}
use hovorun_v.Admission.Record.{AdmissionTicket, is_terminal, is_settling}
use hovorun_v.Admission.Space.{Space, empty_space}
use hovorun_v.Admission.Transition.{AdmissionChange}
use hovorun_v.Admission.Client.{Call, call, finish_call, begin_delivery_call, ticket_answer}
use hovorun_v.Admission.Client.Limits.{AreValid, IsLimited, run_events_from, transition-IsLimited}
use hovorun_v.Admission.Client.Ended.{IsEnded, IsRead, finish-IsEnded, get_ticket-IsRead}
use hovorun_v.Worker.Action.Keeps.{Keeps, bind-Keeps, pure-Keeps, unless_none-Keeps}
use hovorun_v.Worker.Action.Ensures.{
  Ensures, raise-Ensures, pure-Ensures, if-Ensures, bind-Ensures, kept_bind-Ensures,
  unless_none-Ensures,
}
use hovorun_v.Admission.Store.{Link, connected, request_lost, answer_lost}
use hovorun_v.Worker.World.{
  Ports, World, Trace, MediaPayload, noted, store_called, ticket_read, disturbed, moved_by,
  linked_call, linked_read, transact, read_ticket,
}
use hovorun_v.Worker.Execution.{fenced_delivery}
use hovorun_v.Worker.Lifecycle.{current_settlement, settle, reconcile, same_proof}
use hovorun_v.Worker.Preserved.{IsPreserved, transaction-Keeps}
use hovorun_v.Worker.Delivery.{unsent_fails}
use hovorun_v.Worker.Preserved.Lifecycle.{apply_receipt-Keeps, settle_budget-Keeps}

module _ (p : Ports) (o : (t : Trace) → AreValid (p.others t)) where
  abbrev IsSteady : World → Type 0
  IsSteady w = IsLimited p.limits w.admission

  disturbed-IsSteady : (w : World) → IsSteady w → IsSteady (disturbed p w)
  unfolding disturbed
  disturbed-IsSteady w h = run_events_from p.limits (p.others w.trace) w.admission (o w.trace) h

  moved-IsSteady : (c : Call) (w : World) → IsSteady w → IsSteady (moved_by p c w)
  moved-IsSteady c w h = transition-IsLimited p.limits w.admission h c

  delivery-Keeps :
      (e : JobEnvelope) (m : MediaPayload) (token : String) (t : Timestamp)
      → Keeps IsSteady (fenced_delivery p e m token t)
  unfolding fenced_delivery
  delivery-Keeps e m token t =
      bind-Keeps (transact p (begin_delivery_call e.job_id token (at t))) _
        (transaction-Keeps p IsSteady (λ c w h. h) disturbed-IsSteady moved-IsSteady
          (begin_delivery_call e.job_id token (at t)))
        λ begun.
          unless_none-Keeps (ticket_answer begun) _ _ (pure-Keeps none)
            λ _. record { at = λ w h. h }

  store-IsPreserved : IsPreserved p IsSteady
  store-IsPreserved = record {
    Own = λ q. Unit {0};
    owns = λ e provider t u h valid. tt;
    notes = λ e w quiet h. h;
    others = disturbed-IsSteady;
    moves = moved-IsSteady;
    reserves = λ q t totals w own h. h;
    finishes = λ id actual t w h. h;
    expires = λ ids t w h. h;
    delivers = delivery-Keeps;
  }

  linked-IsEnded :
      (l : Link) (id : String) (x : JobOutcome) (token : Option String) (w : World)
      {c : Option AdmissionChange} (t : AdmissionTicket)
      → IsSteady w
      → (linked_call p l (finish_call id x token) w).0 ≡ ok c
      → ticket_answer c ≡ some t
      → IsEnded id (linked_call p l (finish_call id x token) w).1.admission
  linked-IsEnded request_lost id x token w t i h a =
      absurd (unsent_fails (call empty_space (finish_call id x token)) h)
  linked-IsEnded answer_lost id x token w t i h a = cc
  linked-IsEnded connected id x token w t i h a =
      elim (Result-cases (call w.admission (finish_call id x token))) [
        | inl ((y, sp'), e) ↦
            let same = ok-injective (rw e at h) in
            rw e (
              finish-IsEnded w.admission id x token {x = y} i.accounted e
                (subst (λ z. ticket_answer z ≡ some t) (sym same) a))
        | inr (y, e) ↦ cc (rw e at h)
      ]

  -- A completion that the store answers with a ticket.
  transact-IsEnded :
      (id : String) (x : JobOutcome) (token : Option String)
      → Ensures IsSteady
          (transact p (finish_call id x token))
          (λ c w. (t : AdmissionTicket) → ticket_answer c ≡ some t → IsEnded id w.admission)
  unfolding transact
  transact-IsEnded id x token = record {
    at = λ w c h made t a.
        let w1 = noted (store_called (finish_call id x token)) w in
        let w' = disturbed p w1 in
        linked-IsEnded (p.link w'.trace) id x token w' t (disturbed-IsSteady w1 h) made a;
  }

  linked_read-IsRead :
      (l : Link) (sp : Space) (id : String) (t : AdmissionTicket)
      → IsLimited p.limits sp
      → linked_read p l sp id ≡ ok (some t)
      → IsRead id sp t
  linked_read-IsRead connected sp id t i h = get_ticket-IsRead sp id i.accounted h
  linked_read-IsRead request_lost sp id t i h = ground arith
  linked_read-IsRead answer_lost sp id t i h = ground arith

  abbrev IsFoundIn : String → Option AdmissionTicket → World → Type 0
  IsFoundIn id found w =
      IsSteady w × ((t : AdmissionTicket) → found ≡ some t → IsRead id w.admission t)

  read_ticket-IsRead : (id : String) → Ensures IsSteady (read_ticket p id) (IsFoundIn id)
  unfolding read_ticket
  read_ticket-IsRead id = record {
    at = λ w found h made.
        let w' = disturbed p (noted (ticket_read id) w) in
        let h' = disturbed-IsSteady (noted (ticket_read id) w) h in
        let read : (t : AdmissionTicket) → found ≡ some t → IsRead id w'.admission t =
          λ t same. linked_read-IsRead (p.link w'.trace) w'.admission id t h' (made ∙ ap ok same) in
        (h', read);
  }

  abbrev IsCurrentIn : String → AdmissionTicket → World → Type 0
  IsCurrentIn id t w = IsSteady w × IsRead id w.admission t

  current_settlement-IsRead :
      (t : AdmissionTicket)
      → Ensures IsSteady (current_settlement p t) (IsCurrentIn t.envelope.job_id)
  unfolding current_settlement
  current_settlement-IsRead t =
      let id = t.envelope.job_id in
      bind-Ensures (read_ticket p id) _ (read_ticket-IsRead id) λ found.
        unless_none-Ensures found _ _ (raise-Ensures unavailable) λ current here.
          if-Ensures (same_proof current t) _ _
            (λ _. pure-Ensures current λ w h. (h.0, h.1 current here))
            λ _. raise-Ensures unavailable

  settle-IsEnded :
      (t : AdmissionTicket) (i : SettlementIntent) (token : String)
      → Ensures IsSteady (settle p t i token) (λ _ w. IsEnded t.envelope.job_id w.admission)
  unfolding settle
  settle-IsEnded t i token =
      let k = store-IsPreserved in
      kept_bind-Ensures _ _ (apply_receipt-Keeps p IsSteady k i.event) λ _.
        kept_bind-Ensures _ _ (settle_budget-Keeps p IsSteady k t.envelope.job_id i.actual) λ _.
          bind-Ensures _ _ (transact-IsEnded t.envelope.job_id i.outcome (some token)) λ done.
            unless_none-Ensures (ticket_answer done) _ _ (raise-Ensures unavailable)
              λ t' a. pure-Ensures tt λ w h. h t' a

  terminal-IsEnded :
      (id : String) (t : AdmissionTicket) (sp : Space)
      → is_terminal t.state ≡ true
      → IsRead id sp t
      → IsEnded id sp
  terminal-IsEnded id t sp ended h = record {
    ticket = h.ticket;
    found = h.found;
    ended = subst (λ s. is_terminal s ≡ true) h.same ended;
  }

  settled-IsEnded :
      (id : String) (t : AdmissionTicket) (i : SettlementIntent) (token : String)
      → Ensures (IsCurrentIn id t) (settle p t i token) (λ _ w. IsEnded id w.admission)
  settled-IsEnded id t i token = record {
    at = λ w b h made.
        subst (λ id. IsEnded id (settle p t i token w).1.admission) h.1.job
          ((settle-IsEnded t i token).at w b h.0 made);
  }

  reconciled :
      (t : AdmissionTicket)
      → Ensures IsSteady (reconcile p t) (λ _ w. IsEnded t.envelope.job_id w.admission)
  unfolding reconcile
  reconciled t =
      let id = t.envelope.job_id in
      bind-Ensures (current_settlement p t) _ (current_settlement-IsRead t) λ current.
        if-Ensures (is_terminal current.state) _ _
          (λ ended. pure-Ensures tt λ w h. terminal-IsEnded id current w.admission ended h.1)
          λ _.
            if-Ensures (not (is_settling current.state)) _ _ (λ _. raise-Ensures unavailable)
              λ _. unless_none-Ensures current.settlement _ _ (raise-Ensures unavailable) λ i _.
                unless_none-Ensures current.token _ _ (raise-Ensures unavailable)
                  λ token _. settled-IsEnded id current i token

-- A reconciliation that returns has ended its ticket: if the other clients admit validated envelopes and
-- the store is accounted when it starts, then when it does not raise, the stored ticket of the job is
-- terminal, whatever the ports answer, whatever other clients do between its calls and wherever the
-- connection is lost.
pub reconcile-IsEnded :
    (p : Ports)
    → ((t : Trace) → AreValid (p.others t))
    → (t : AdmissionTicket) (w : World) → IsLimited p.limits w.admission
    → (reconcile p t w).0 ≡ ok tt
    → IsEnded t.envelope.job_id (reconcile p t w).1.admission
reconcile-IsEnded p o t w i returned = (reconciled p o t).at w tt i returned
