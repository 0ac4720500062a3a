-- ===== src/Admission/Effect.antt =====
-- Proofs about the effect of one change of admission_state.py.
use hovorun_v.Prelude.{
  ◌+◌, ◌≡◌, Bool, true, false, not, ◌&&◌, Option, none, some, arith, if◌then◌else◌,
}
use hovorun_v.Admission.Record.{
  AdmissionRecord, NoticeKind, delayed_notice, terminal_notice, failure_notice, is_terminal,
  is_accepted, is_running,
}
use hovorun_v.Admission.Transition.{
  AdmissionTransition, AdmissionChange, AdmissionOperation, calculate_change, dispatch, claim,
  handoff_stage, finish, register, cancel, mark_reserved, defer, begin_delivery, prepare,
  claim_notice, republish, mark_enqueued, mark_published, claim_op, handoff_op, cancel_op,
  finish_op, register_op, published_op, enqueued_op, notice_op, republish_op, reserved_op, defer_op,
  delivery_op, prepare_op,
}
use hovorun_v.Admission.Invariant.{Ensures}

-- Whether a job waits in the handoff index after a change, told from whether it did before.
abbrev pub indexed : Option Bool → Bool → Bool
indexed none before = before
indexed (some b) before = b

-- The identity of a ticket: what admission has charged and where.
pub record SameJob (r r' : AdmissionRecord) : Type 0 where
  pub envelope : r'.envelope ≡ r.envelope
  pub byte_size : r'.byte_size ≡ r.byte_size
  pub subject : r'.subject_key ≡ r.subject_key
  pub ingress : r'.ingress_key ≡ r.ingress_key
  pub payload : r'.payload_key ≡ r.payload_key
  pub dedupe : r'.dedupe_key ≡ r.dedupe_key

-- The end of a ticket is final, up to the flags of its notices.
pub record SameEnd (r r' : AdmissionRecord) : Type 0 where
  pub ended : is_terminal r'.state ≡ true
  pub outcome : r'.outcome ≡ r.outcome
  pub settlement : r'.settlement ≡ r.settlement
  pub token : r'.token ≡ r.token
  pub attempt : r'.attempt ≡ r.attempt

pub record IsSound (r : AdmissionRecord) (c : AdmissionChange) (r' : AdmissionRecord) : Type 0 where
  pub job : SameJob r r'
  pub release : c.release ≡ (not (is_terminal r.state) && is_terminal r'.state)
  pub handoff : is_accepted r'.state ≡ indexed c.handoff (is_accepted r.state)
  pub attempts :
      r'.attempt
      ≡ (if not (is_running r.state) && is_running r'.state then r.attempt + 1 else r.attempt)
  pub final : is_terminal r.state ≡ true → SameEnd r r'
  pub unwritten : c.write ≡ false → r' ≡ r

-- A change that returns no ticket writes nothing and frees nothing.
abbrev pub SoundAt : AdmissionRecord → AdmissionChange → Option AdmissionRecord → Type 0
SoundAt r c none = (c.write ≡ false) × (c.release ≡ false)
SoundAt r c (some r') = IsSound r c r'

abbrev pub Sound : AdmissionRecord → AdmissionChange → Type 0
Sound r c = SoundAt r c c.next

module _ (r : AdmissionRecord) (q : AdmissionTransition) where
  claim-Sound : Sound r (claim r q)
  unfolding claim
  claim-Sound = ground arith

  finish-Sound : Ensures (Sound r) (finish r q)
  unfolding finish
  finish-Sound = ground arith

  cancel-Sound : Sound r (cancel r)
  unfolding cancel
  cancel-Sound = ground arith

  register-Sound : Ensures (Sound r) (register r q)
  unfolding register
  register-Sound = ground arith

  handoff_stage-Sound : Ensures (Sound r) (handoff_stage r q)
  unfolding handoff_stage
  handoff_stage-Sound = ground arith

  defer-Sound : Ensures (Sound r) (defer r q)
  unfolding defer
  defer-Sound = ground arith

  begin_delivery-Sound : Sound r (begin_delivery r q)
  unfolding begin_delivery
  begin_delivery-Sound = ground arith

  prepare-Sound : Ensures (Sound r) (prepare r q)
  unfolding prepare
  prepare-Sound = ground arith

  mark_reserved-Sound : Sound r (mark_reserved r q)
  unfolding mark_reserved
  mark_reserved-Sound = ground arith

  claim_notice-Sound : (k : Option NoticeKind) → Ensures (Sound r) (claim_notice r k)
  unfolding claim_notice
  claim_notice-Sound none = tt
  claim_notice-Sound (some delayed_notice) = ground arith
  claim_notice-Sound (some terminal_notice) = ground arith
  claim_notice-Sound (some failure_notice) = ground arith

  republish-Sound : Sound r (republish r q)
  unfolding republish
  republish-Sound = ground arith

  mark_enqueued-Sound : Sound r (mark_enqueued r q)
  unfolding mark_enqueued
  mark_enqueued-Sound = ground arith

  mark_published-Sound : Sound r (mark_published r q)
  unfolding mark_published
  mark_published-Sound = ground arith

dispatch-Sound :
    (op : AdmissionOperation) (r : AdmissionRecord) (q : AdmissionTransition)
    → Ensures (Sound r) (dispatch op r q)
unfolding dispatch
dispatch-Sound claim_op r q = claim-Sound r q
dispatch-Sound handoff_op r q = handoff_stage-Sound r q
dispatch-Sound finish_op r q = finish-Sound r q
dispatch-Sound register_op r q = register-Sound r q
dispatch-Sound cancel_op r q = cancel-Sound r q
dispatch-Sound reserved_op r q = mark_reserved-Sound r q
dispatch-Sound defer_op r q = defer-Sound r q
dispatch-Sound delivery_op r q = begin_delivery-Sound r q
dispatch-Sound prepare_op r q = prepare-Sound r q
dispatch-Sound notice_op r q = claim_notice-Sound r q q.notice
dispatch-Sound republish_op r q = republish-Sound r q
dispatch-Sound enqueued_op r q = mark_enqueued-Sound r q
dispatch-Sound published_op r q = mark_published-Sound r q

-- Every transition that returns a ticket keeps its job and its pointers, frees capacity exactly when
-- it ends the ticket, moves the job in the handoff index as it becomes or stops being accepted,
-- counts an attempt exactly when it starts to run, leaves the end of an ended ticket as it is, and
-- returns the ticket as it was when it writes nothing.
pub calculate_change-Sound :
    (r : AdmissionRecord) (q : AdmissionTransition) → Ensures (Sound r) (calculate_change r q)
unfolding calculate_change
calculate_change-Sound r q = dispatch-Sound q.operation r q
