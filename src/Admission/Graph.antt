-- ===== src/Admission/Graph.antt =====
-- The diagram of the ticket states of admission_state.py, and proofs about it.
use hovorun_v.Prelude.{◌≡◌, refl, Bool, true, false, ◌⊎◌, Option, none, some, arith}
use hovorun_v.Admission.Record.{
  TicketState, accepted, enqueued, running, cancelling, waiting, settling, delivery_uncertain,
  terminal, AdmissionRecord, NoticeKind, delayed_notice, terminal_notice, failure_notice,
}
use hovorun_v.Admission.Transition.{
  AdmissionTransition, AdmissionChange, AdmissionOperation, calculate_change, dispatch, claim,
  handoff_stage, finish, register, cancel, mark_reserved, defer, begin_delivery, prepare,
  claim_notice, republish, mark_enqueued, mark_published, claim_op, handoff_op, cancel_op,
  finish_op, register_op, published_op, enqueued_op, notice_op, republish_op, reserved_op, defer_op,
  delivery_op, prepare_op,
}
use hovorun_v.Admission.Invariant.{Ensures}

pub data IsQueued : TicketState → Type 0 where
  fresh : IsQueued accepted
  announced : IsQueued enqueued
  delayed : IsQueued waiting

infix 40 ◌⟶◌
pub data ◌⟶◌ : TicketState → TicketState → Type 0 where
  announce : accepted ⟶ enqueued
  start : {s : TicketState} → IsQueued s → s ⟶ running
  drop : {s : TicketState} → IsQueued s → s ⟶ terminal
  refund : {s : TicketState} → IsQueued s → s ⟶ settling
  pass_on : running ⟶ accepted
  postpone : running ⟶ waiting
  deliver : running ⟶ delivery_uncertain
  stop : running ⟶ cancelling
  settle_running : running ⟶ settling
  settle_stopped : cancelling ⟶ settling
  settle_delivered : delivery_uncertain ⟶ settling
  end_running : running ⟶ terminal
  end_stopped : cancelling ⟶ terminal
  end_settled : settling ⟶ terminal

ruleset queues = (fresh, announced, delayed)

ruleset edges = (
  announce, start, drop, refund, pass_on, postpone, deliver, stop, settle_running, settle_stopped,
  settle_delivered, end_running, end_stopped, end_settled,
)

-- A change keeps the state or follows an edge.
abbrev pub FollowsAt : TicketState → Option AdmissionRecord → Type 0
FollowsAt s none = Unit
FollowsAt s (some r) = (s ≡ r.state) ⊎ (s ⟶ r.state)

abbrev pub Follows : TicketState → AdmissionChange → Type 0
Follows s c = FollowsAt s c.next

module _ (r : AdmissionRecord) (q : AdmissionTransition) where
  claim-⟶ : Follows r.state (claim r q)
  unfolding claim
  claim-⟶ = grind (arith, edges, queues)

  finish-⟶ : Ensures (Follows r.state) (finish r q)
  unfolding finish
  finish-⟶ = grind (arith, edges, queues)

  cancel-⟶ : Follows r.state (cancel r)
  unfolding cancel
  cancel-⟶ = grind (arith, edges, queues)

  register-⟶ : Ensures (Follows r.state) (register r q)
  unfolding register
  register-⟶ = ground arith

  handoff_stage-⟶ : Ensures (Follows r.state) (handoff_stage r q)
  unfolding handoff_stage
  handoff_stage-⟶ = grind (arith, edges)

  defer-⟶ : Ensures (Follows r.state) (defer r q)
  unfolding defer
  defer-⟶ = grind (arith, edges)

  begin_delivery-⟶ : Follows r.state (begin_delivery r q)
  unfolding begin_delivery
  begin_delivery-⟶ = grind (arith, edges)

  prepare-⟶ : Ensures (Follows r.state) (prepare r q)
  unfolding prepare
  prepare-⟶ = grind (arith, edges)

  mark_reserved-⟶ : Follows r.state (mark_reserved r q)
  unfolding mark_reserved
  mark_reserved-⟶ = ground arith

  claim_notice-⟶ : (k : Option NoticeKind) → Ensures (Follows r.state) (claim_notice r k)
  unfolding claim_notice
  claim_notice-⟶ none = tt
  claim_notice-⟶ (some delayed_notice) = ground arith
  claim_notice-⟶ (some terminal_notice) = ground arith
  claim_notice-⟶ (some failure_notice) = ground arith

  republish-⟶ : Follows r.state (republish r q)
  unfolding republish
  republish-⟶ = ground arith

  mark_enqueued-⟶ : Follows r.state (mark_enqueued r q)
  unfolding mark_enqueued
  mark_enqueued-⟶ = grind (arith, edges)

  mark_published-⟶ : Follows r.state (mark_published r q)
  unfolding mark_published
  mark_published-⟶ = ground arith

dispatch-Follows :
    (op : AdmissionOperation) (r : AdmissionRecord) (q : AdmissionTransition)
    → Ensures (Follows r.state) (dispatch op r q)
unfolding dispatch
dispatch-Follows claim_op r q = claim-⟶ r q
dispatch-Follows handoff_op r q = handoff_stage-⟶ r q
dispatch-Follows finish_op r q = finish-⟶ r q
dispatch-Follows register_op r q = register-⟶ r q
dispatch-Follows cancel_op r q = cancel-⟶ r q
dispatch-Follows reserved_op r q = mark_reserved-⟶ r q
dispatch-Follows defer_op r q = defer-⟶ r q
dispatch-Follows delivery_op r q = begin_delivery-⟶ r q
dispatch-Follows prepare_op r q = prepare-⟶ r q
dispatch-Follows notice_op r q = claim_notice-⟶ r q q.notice
dispatch-Follows republish_op r q = republish-⟶ r q
dispatch-Follows enqueued_op r q = mark_enqueued-⟶ r q
dispatch-Follows published_op r q = mark_published-⟶ r q

-- Every ticket that a transition returns has the state that it had, or one that an edge of the
-- diagram leads to.
pub calculate_change-Follows :
    (r : AdmissionRecord) (q : AdmissionTransition)
    → Ensures (Follows r.state) (calculate_change r q)
unfolding calculate_change
calculate_change-Follows r q = dispatch-Follows q.operation r q

-- A cancelled or settling execution, or an ended job.
abbrev pub is_stopped : TicketState → Bool
is_stopped cancelling = true
is_stopped settling = true
is_stopped terminal = true
is_stopped _ = false

-- From a stopped state the edges lead to stopped states only.
pub ⟶-is_stopped : {s t : TicketState} → is_stopped s ≡ true → s ⟶ t → is_stopped t ≡ true
⟶-is_stopped i announce = cc
⟶-is_stopped i (start fresh) = cc
⟶-is_stopped i (start announced) = cc
⟶-is_stopped i (start delayed) = cc
⟶-is_stopped i (drop _) = refl
⟶-is_stopped i (refund _) = refl
⟶-is_stopped i pass_on = cc
⟶-is_stopped i postpone = cc
⟶-is_stopped i deliver = cc
⟶-is_stopped i stop = refl
⟶-is_stopped i settle_running = refl
⟶-is_stopped i settle_stopped = refl
⟶-is_stopped i settle_delivered = refl
⟶-is_stopped i end_running = refl
⟶-is_stopped i end_stopped = refl
⟶-is_stopped i end_settled = refl

-- A delivery that has begun, what settles after it, or an ended job.
abbrev pub is_spent : TicketState → Bool
is_spent delivery_uncertain = true
is_spent settling = true
is_spent terminal = true
is_spent _ = false

pub ⟶-is_spent : {s t : TicketState} → is_spent s ≡ true → s ⟶ t → is_spent t ≡ true
⟶-is_spent i announce = cc
⟶-is_spent i (start fresh) = cc
⟶-is_spent i (start announced) = cc
⟶-is_spent i (start delayed) = cc
⟶-is_spent i (drop _) = refl
⟶-is_spent i (refund _) = refl
⟶-is_spent i pass_on = cc
⟶-is_spent i postpone = cc
⟶-is_spent i deliver = refl
⟶-is_spent i stop = cc
⟶-is_spent i settle_running = refl
⟶-is_spent i settle_stopped = refl
⟶-is_spent i settle_delivered = refl
⟶-is_spent i end_running = refl
⟶-is_spent i end_stopped = refl
⟶-is_spent i end_settled = refl
