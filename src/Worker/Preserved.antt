-- ===== src/Worker/Preserved.antt =====
-- A rule for feature_job_runner.py and worker_lifecycle_service.py: what every single step of a worker
-- keeps, a whole run keeps, and a recovery.
pub mod Lifecycle
pub mod Extractions
pub mod Runs
pub mod Reservations
pub mod Recoveries
use hovorun_v.Prelude.{
  ℕ, ◌≡◌, refl, Bool, true, false, Option, none, some, List, [], ◌∷◌, String, Result, ok, err,
  Result-cases, inl, inr,
}
use hovorun_v.Domain.{Timestamp, at}
use hovorun_v.Usage.Policies.{ResolvedUsage}
use hovorun_v.Usage.Budgets.{validate_request, BudgetRequest, UnitAmount, ReservationDecision}
use hovorun_v.Jobs.Envelope.{JobEnvelope, JobOutcome}
use hovorun_v.Admission.Record.{JobStage, AdmissionTicket}
use hovorun_v.Admission.Client.{Call, begin_delivery_call}
use hovorun_v.Budget.Store.{BudgetSpace, reserve, finish, expire_each}
use hovorun_v.Budget.Bounds.{store_or}
use hovorun_v.Worker.Action.{Action, pure, lift, ◌>>=◌}
use hovorun_v.Worker.Action.Keeps.{Keeps, keeps_rules}
use hovorun_v.Admission.Store.{Link, connected, request_lost, answer_lost}
use hovorun_v.Worker.World.{
  Ports, World, Effect, media_delivered, MediaPayload, noted, store_called, budget_asked,
  budget_finished, disturbed, Trace, ask, now, token_hex, transact, read_ticket, send_budget,
  ask_budget, finish_budget, expire_page, linked_page, expire_stale, moved_by, linked_call,
  linked_budget,
}
use hovorun_v.Feature.Commands.{CommandName}
use hovorun_v.Worker.Runner.{budget_request, family_usage}
use hovorun_v.Worker.Execution.{fenced_delivery}

abbrev pub is_delivery : Effect → Bool
is_delivery (media_delivered e m) = true
is_delivery _ = false

-- The single steps of a worker. It reserves only what is its own: the requests that it makes of the
-- usage that its policies resolve.
pub record IsPreserved (p : Ports) (P : World → Type 0) : Type 1 where
  pub Own : BudgetRequest → Type 0
  pub owns :
      (e : JobEnvelope) (provider : Option CommandName) (t : Trace) (u : ResolvedUsage)
      → p.resolve t ≡ ok u
      → validate_request (budget_request e (family_usage provider u)) ≡ ok tt
      → Own (budget_request e (family_usage provider u))
  pub notes : (e : Effect) (w : World) → is_delivery e ≡ false → P w → P (noted e w)
  pub others : (w : World) → P w → P (disturbed p w)
  pub moves : (c : Call) (w : World) → P w → P (moved_by p c w)
  pub reserves :
      (q : BudgetRequest) (t : Timestamp) (totals : List ℕ) (w : World)
      → Own q
      → P w
      → P (record w { budget = store_or w.budget (reserve w.budget q (at t) totals) })
  pub finishes :
      (id : String) (actual : List UnitAmount) (t : Timestamp) (w : World)
      → P w
      → P (record w { budget = store_or w.budget (finish w.budget id actual (at t)) })
  pub expires :
      (ids : List String) (t : Timestamp) (w : World)
      → P w
      → P (record w { budget = (expire_each w.budget ids t).1 })
  pub delivers :
      (e : JobEnvelope) (m : MediaPayload) (token : String) (t : Timestamp)
      → Keeps P (fenced_delivery p e m token t)

module _ (p : Ports) (P : World → Type 0)
    (calls : (c : Call) (w : World) → P w → P (noted (store_called c) w))
    (others : (w : World) → P w → P (disturbed p w))
    (moves : (c : Call) (w : World) → P w → P (moved_by p c w)) where
  linked_call-Keeps : (l : Link) (c : Call) → Keeps P (linked_call p l c)
  linked_call-Keeps connected c = record { at = moves c }
  linked_call-Keeps request_lost c = record { at = λ w h. h }
  linked_call-Keeps answer_lost c = record { at = moves c }

  pub transaction-Keeps : (c : Call) → Keeps P (transact p c)
  unfolding transact
  transaction-Keeps c = record {
    at = λ w h.
        let w' = disturbed p (noted (store_called c) w) in
        (linked_call-Keeps (p.link w'.trace) c).at w' (others _ (calls c w h));
  }

module _ (p : Ports) (P : World → Type 0) (k : IsPreserved p P) where
  pub ask-Keeps :
      {A : Type 0} (e : Effect) (answer : Trace → Result A)
      → is_delivery e ≡ false
      → Keeps P (ask p e answer)
  unfolding ask
  ask-Keeps e answer quiet = record { at = λ w h. k.notes e w quiet h }

  -- What follows a question may use that its answer is one of the port.
  pub ask_bind-Keeps :
      {A B : Type 0} (e : Effect) (answer : Trace → Result A) (next : A → Action World B)
      → is_delivery e ≡ false
      → ((t : Trace) (a : A) → answer t ≡ ok a → Keeps P (next a))
      → Keeps P (ask p e answer >>= next)
  unfolding ask ◌>>=◌
  ask_bind-Keeps e answer next quiet kn = record {
    at = λ w h. elim (Result-cases (answer (e ∷ w.trace))) [
      | inl (a, made) ↦ rw made ((kn (e ∷ w.trace) a made).at (noted e w) (k.notes e w quiet h))
      | inr (x, made) ↦ rw made (k.notes e w quiet h)
    ];
  }

  pub now-Keeps : Keeps P (now p)
  unfolding now
  now-Keeps = record { at = λ w h. k.notes _ w refl h }

  pub token_hex-Keeps : Keeps P (token_hex p)
  unfolding token_hex
  token_hex-Keeps = record { at = λ w h. k.notes _ w refl h }

  pub transact-Keeps : (c : Call) → Keeps P (transact p c)
  transact-Keeps = transaction-Keeps p P (λ c w. k.notes (store_called c) w refl) k.others k.moves

  pub read_ticket-Keeps : (id : String) → Keeps P (read_ticket p id)
  unfolding read_ticket
  read_ticket-Keeps id = record { at = λ w h. k.others _ (k.notes _ w refl h) }

  reserve-Keeps :
      (l : Link) (q : BudgetRequest) (t : Timestamp) (totals : List ℕ)
      → k.Own q
      → Keeps P (linked_budget p l (λ sp. reserve sp q (at t) totals))
  reserve-Keeps connected q t totals own = record { at = λ w. k.reserves q t totals w own }
  reserve-Keeps request_lost q t totals own = record { at = λ w h. h }
  reserve-Keeps answer_lost q t totals own = record { at = λ w. k.reserves q t totals w own }

  send_reserve-Keeps :
      (q : BudgetRequest) (t : Timestamp) (totals : List ℕ)
      → k.Own q
      → Keeps P (send_budget p (budget_asked q t totals) (λ sp. reserve sp q (at t) totals))
  unfolding send_budget
  send_reserve-Keeps q t totals own = record {
    at = λ w h.
        let w' = disturbed p (noted (budget_asked q t totals) w) in
        (reserve-Keeps (p.link w'.trace) q t totals own).at w' (k.others _ (k.notes _ w refl h));
  }

  finish-Keeps :
      (l : Link) (id : String) (actual : List UnitAmount) (t : Timestamp)
      → Keeps P (linked_budget p l (λ sp. finish sp id actual (at t)))
  finish-Keeps connected id actual t = record { at = k.finishes id actual t }
  finish-Keeps request_lost id actual t = record { at = λ w h. h }
  finish-Keeps answer_lost id actual t = record { at = k.finishes id actual t }

  send_finish-Keeps :
      (id : String) (actual : List UnitAmount) (t : Timestamp)
      → Keeps P (send_budget p (budget_finished id actual t) (λ sp. finish sp id actual (at t)))
  unfolding send_budget
  send_finish-Keeps id actual t = record {
    at = λ w h.
        let w' = disturbed p (noted (budget_finished id actual t) w) in
        (finish-Keeps (p.link w'.trace) id actual t).at w' (k.others _ (k.notes _ w refl h));
  }

  pub finish_budget-Keeps :
      (id : String) (actual : List UnitAmount) (t : Timestamp)
      → Keeps P (finish_budget p id actual t)
  unfolding finish_budget
  finish_budget-Keeps id actual t = search (keeps_rules, send_finish-Keeps)

  pub ask_budget-Keeps :
      (q : BudgetRequest) (t : Timestamp) (totals : List ℕ)
      → k.Own q
      → Keeps P (ask_budget p q t totals)
  unfolding ask_budget
  ask_budget-Keeps q t totals own = search (keeps_rules, send_reserve-Keeps)

  linked_page-Keeps :
      (l : Link) (t : Timestamp) (ids : List String) (w : World)
      → P w
      → P (linked_page p l (expire_each w.budget ids t) w).1
  linked_page-Keeps connected t ids w h = k.expires ids t w h
  linked_page-Keeps request_lost t ids w h = h
  linked_page-Keeps answer_lost t ids w h = k.expires ids t w h

  pub expire_page-Keeps : (t : Timestamp) (ids : List String) → Keeps P (expire_page p t ids)
  unfolding expire_page
  expire_page-Keeps t ids = record {
    at = λ w h.
        let w' = disturbed p w in linked_page-Keeps (p.link w'.trace) t ids w' (k.others w h);
  }

  pub fenced-Keeps :
      (e : JobEnvelope) (m : MediaPayload) (token : String) (t : Timestamp)
      → Keeps P (fenced_delivery p e m token t)
  fenced-Keeps = k.delivers

  pub ruleset steps = (
    refl, keeps_rules, ask-Keeps, now-Keeps, token_hex-Keeps, transact-Keeps, read_ticket-Keeps,
    finish_budget-Keeps, ask_budget-Keeps, expire_page-Keeps, fenced-Keeps,
  )

  pub expire_stale-Keeps : (t : Timestamp) → Keeps P (expire_stale p t)
  unfolding expire_stale
  expire_stale-Keeps t = search steps
