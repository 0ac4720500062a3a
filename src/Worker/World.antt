-- ===== src/Worker/World.antt =====
-- src/hovorunv2/application/jobs/feature_job_runner.py and worker_lifecycle_service.py: what a worker
-- stands on. The admission store and the budget store are the modelled ones. Everything behind another
-- port is a parameter: an answer of a port is a function of what the worker has asked for so far, the
-- question itself first. Between two calls other clients may do anything to the stores, and the
-- connection may lose a request or its answer.
use hovorun_v.Prelude.{
  ℕ, ℤ, Bool, Option, none, List, ◌∷◌, String, Error, Result, ok, err, value_error, unavailable,
  if◌then◌else◌,
}
use hovorun_v.Domain.{Timestamp, at}
use hovorun_v.Usage.Policies.{ResolvedUsage, UsagePolicy}
use hovorun_v.Usage.Budgets.{
  is_technical_id, BudgetRequest, ReservationDecision, UnitAmount, unavailable as unavailable_state,
}
use hovorun_v.Usage.Ledger.{UsageEvent, AccountingSubject}
use hovorun_v.Jobs.Envelope.{JobEnvelope, JobTarget, TriggerKind}
use hovorun_v.Feature.Registry.{Registry}
use hovorun_v.Feature.Commands.{CommandName, FeatureEmergencyState}
use hovorun_v.Admission.Record.{AdmissionTicket, JobStage}
use hovorun_v.Admission.Reads.{get_ticket}
use hovorun_v.Admission.Transition.{AdmissionChange}
use hovorun_v.Admission.Capacity.{AdmissionLimits}
use hovorun_v.Admission.Space.{Space, empty_space}
use hovorun_v.Admission.Store.{Link, connected, request_lost, answer_lost}
use hovorun_v.Admission.Client.{Call, call}
use hovorun_v.Admission.Client.Limits.{Event, run_events, space_or}
use hovorun_v.Budget.Record.{validate_reserve_args, validate_finish_args, build_record}
use hovorun_v.Budget.Calculate.{decide}
use hovorun_v.Budget.Store.{BudgetSpace, reserve, finish, expire_each}
use hovorun_v.Budget.Bounds.{BudgetEvent, run_budget, store_or}
use hovorun_v.Worker.Action.{Action, lift, ◌>>=◌, ◌>>◌}

pub data PayloadState : Type 0 where
  ready missing_payload unreadable_payload expired_payload unavailable_payload : PayloadState

pub record LoadedPayload : Type 0 where
  pub state : PayloadState
  pub data_bytes : Option String
  pub sender_label : Option String

-- What delivery and the gates read of an extracted `RichMediaPayload`.
pub record MediaPayload : Type 0 where
  pub is_video : Bool
  pub content : Option String

-- A provider client, with what its pattern finds.
pub record MediaClient : Type 0 where
  pub name : CommandName
  pub pattern : String → Bool
  pub platform_label : String

-- How the extraction of a client ends. `media_failure` is a `MediaExtractionError`, a `BrowserError`
-- or an `HTTPTransportError`, and `other_failure` any other exception.
pub data Extraction : Type 0 where
  extracted : MediaPayload → Extraction
  continuation_required time_limit_exceeded media_failure : Extraction
  other_failure : Error → Extraction

-- How a delivery ends: `delivery_unknown` is a `TelegramDeliveryUncertainError`.
pub data Delivery : Type 0 where
  delivery_accepted delivery_unknown delivery_rejected : Delivery
  delivery_broken : Error → Delivery

-- The texts of the notices, each a constant of the source.
pub data NoticeText : Type 0 where
  application_failure_text delayed_text timeout_text extraction_failure_text : NoticeText
  limit_wait_text limit_failure_text : NoticeText

-- What a worker asks for.
pub data Effect : Type 0 where
  clock_read token_made : Effect
  store_called : Call → Effect
  ticket_read : String → Effect
  budget_asked : BudgetRequest → Timestamp → List ℕ → Effect
  budget_finished : String → List UnitAmount → Timestamp → Effect
  stale_read : Timestamp → Effect
  page_read : Effect
  pending_read : String → Effect
  payload_loaded : String → String → Effect
  payload_deleted : String → Effect
  usage_resolved : String → TriggerKind → Option ℕ → Option ℤ → Effect
  total_read : AccountingSubject → UsagePolicy → ℕ → Effect
  receipt_applied : UsageEvent → Effect
  emergency_read : String → Effect
  disabled_read : Effect
  target_checked : JobTarget → Effect
  access_evaluated : String → ℤ → Option ℕ → TriggerKind → Effect
  media_extracted : JobStage → CommandName → String → Effect
  payload_translated : MediaPayload → ℤ → Effect
  media_delivered : JobEnvelope → MediaPayload → Effect
  stage_published : JobEnvelope → JobStage → Effect
  feedback_checked : JobTarget → Effect
  notice_gated : JobTarget → Effect
  message_sent : ℤ → NoticeText → Option ℕ → Effect

-- What was asked, the last question first.
abbrev pub Trace : Type 0
Trace = List Effect

pub record Ports : Type 0 where
  pub limits : AdmissionLimits
  pub others : Trace → List Event
  pub other_budgets : Trace → List BudgetEvent
  pub link : Trace → Link
  pub clock : Trace → Timestamp
  pub new_token : Trace → String
  pub load : Trace → Result LoadedPayload
  pub delete : Trace → Result (Unit {0})
  pub resolve : Trace → Result ResolvedUsage
  pub usage_total : Trace → Result ℕ
  pub apply_batch : Trace → Result (Unit {0})
  pub emergency_state : Trace → Result FeatureEmergencyState
  pub disabled_features : Trace → Result (List FeatureEmergencyState)
  pub active_target : Trace → Result Bool
  pub evaluate : Trace → Result Bool
  pub extract : Trace → Extraction
  pub translate : Trace → Result MediaPayload
  pub deliver : Trace → Delivery
  pub publish_stage : Trace → Result Bool
  pub feedback_allowed : Trace → Result Bool
  pub claim_delayed : Trace → Result Bool
  pub send_message : Trace → Result (Option ℕ)
  pub recovery_page : Trace → Result (List AdmissionTicket)
  pub pending_ids : Trace → Result (List String)
  pub stale_ids : Trace → Result (List String)
  pub first_line : String → Result String
  pub registry : Registry
  pub clients : List MediaClient
  pub browser_enabled : Bool
  pub has_browser : Bool

pub record World : Type 0 where
  pub admission : Space
  pub budget : BudgetSpace
  pub trace : Trace

abbrev pub noted : Effect → World → World
noted e w = record w { trace = e ∷ w.trace }

-- What a call raises when its request never reaches the server: its arguments are checked first.
abbrev pub unsent : Result (Option AdmissionChange × Space) → Result (Option AdmissionChange)
unsent (ok _) = err unavailable
unsent (err e) = err e

module _ (p : Ports) where
  -- What the other clients have done by now.
  unfoldable pub disturbed : World → World
  disturbed w = record w {
    admission = run_events p.limits w.admission (p.others w.trace);
    budget = run_budget w.budget (p.other_budgets w.trace);
  }

  -- A question to a port.
  unfoldable pub ask : {A : Type 0} → Effect → (Trace → Result A) → Action World A
  ask e answer w = (answer (e ∷ w.trace), noted e w)

  unfoldable pub now : Action World Timestamp
  now w = (ok (p.clock (clock_read ∷ w.trace)), noted clock_read w)

  unfoldable pub token_hex : Action World String
  token_hex w = (ok (p.new_token (token_made ∷ w.trace)), noted token_made w)

  abbrev pub moved_by : Call → World → World
  moved_by c w = record w { admission = space_or w.admission (call w.admission c) }

  abbrev pub answered : Result (Option AdmissionChange × Space) → Result (Option AdmissionChange)
  answered (ok done) = ok done.0
  answered (err e) = err e

  -- A transition of the admission store.
  abbrev pub linked_call : Link → Call → Action World (Option AdmissionChange)
  linked_call connected c w = (answered (call w.admission c), moved_by c w)
  linked_call request_lost c w = (unsent (call empty_space c), w)
  linked_call answer_lost c w = (err unavailable, moved_by c w)

  unfoldable pub transact : Call → Action World (Option AdmissionChange)
  unfolding disturbed
  transact c w = let w' = disturbed (noted (store_called c) w) in linked_call (p.link w'.trace) c w'

  -- What a read raises when its request or its answer is lost.
  abbrev unreached : String → Result (Option AdmissionTicket)
  unreached id = if is_technical_id id then err unavailable else err value_error

  abbrev pub linked_read : Link → Space → String → Result (Option AdmissionTicket)
  linked_read connected sp id = get_ticket sp id
  linked_read _ sp id = unreached id

  -- `self._admission.get`
  unfoldable pub read_ticket : String → Action World (Option AdmissionTicket)
  unfolding disturbed get_ticket is_technical_id
  read_ticket id w =
      let w' = disturbed (noted (ticket_read id) w) in
      (linked_read (p.link w'.trace) w'.admission id, w')

  abbrev decided_by : Result (ReservationDecision × BudgetSpace) → Result ReservationDecision
  decided_by (ok done) = ok done.0
  decided_by (err e) = err e

  -- A transaction of the budget store: a lost connection is the decision `UNAVAILABLE`.
  abbrev pub linked_budget :
      Link
      → (BudgetSpace → Result (ReservationDecision × BudgetSpace))
      → Action World ReservationDecision
  linked_budget connected f w =
      (decided_by (f w.budget), record w { budget = store_or w.budget (f w.budget) })
  linked_budget request_lost f w = (ok (decide unavailable_state none), w)
  linked_budget answer_lost f w =
      (ok (decide unavailable_state none), record w { budget = store_or w.budget (f w.budget) })

  unfoldable pub send_budget :
      Effect
      → (BudgetSpace → Result (ReservationDecision × BudgetSpace))
      → Action World ReservationDecision
  unfolding disturbed
  send_budget e f w = let w' = disturbed (noted e w) in linked_budget (p.link w'.trace) f w'

  -- `self._budgets.reserve`
  unfoldable pub ask_budget : BudgetRequest → Timestamp → List ℕ → Action World ReservationDecision
  unfolding send_budget reserve validate_reserve_args build_record
  ask_budget q t totals = do
    lift (validate_reserve_args q (at t) totals)
    lift (build_record q t totals)
    send_budget (budget_asked q t totals) (λ sp. reserve sp q (at t) totals)

  -- `self._budgets.finish`
  unfoldable pub finish_budget :
      String → List UnitAmount → Timestamp → Action World ReservationDecision
  unfolding send_budget finish validate_finish_args
  finish_budget id actual t = do
    lift (validate_finish_args id actual (at t))
    send_budget (budget_finished id actual t) (λ sp. finish sp id actual (at t))

  -- What is expired counts where the answer comes back; a lost connection is logged.
  abbrev pub linked_page : Link → ℕ × BudgetSpace → Action World ℕ
  linked_page connected done w = (ok done.0, record w { budget = done.1 })
  linked_page request_lost done w = (ok 0, w)
  linked_page answer_lost done w = (ok 0, record w { budget = done.1 })

  -- The loop of `expire_stale`.
  unfoldable pub expire_page : Timestamp → List String → Action World ℕ
  unfolding disturbed expire_each
  expire_page t ids w =
      let w' = disturbed w in linked_page (p.link w'.trace) (expire_each w'.budget ids t) w'

  -- `self._budgets.expire_stale`, over the page of ids that the server returns.
  unfoldable pub expire_stale : Timestamp → Action World ℕ
  unfolding ask expire_page
  expire_stale t = do ids ← ask (stale_read t) p.stale_ids; expire_page t ids
