-- ===== src/Admission/Laws.antt =====
-- Proofs about the fences of admission_state.py: owners, replays, first schedules and notices.
use hovorun_v.Prelude.{
  ◌↔◌, ◌<◌, ◌≡◌, ◌≢◌, Bool, true, false, not, ◌&&◌, is_some, str_eq, some, Result, ok, err, arith,
  eq_iff,
}
use hovorun_v.Admission.Record.{
  AdmissionRecord, NoticeKind, delayed_notice, terminal_notice, failure_notice, is_owned,
  is_running, is_terminal, has_token, delivery_uncertain,
}
use hovorun_v.Admission.Transition.{
  AdmissionTransition, AdmissionChange, AdmissionOperation, calculate_change, dispatch, finish,
  register, begin_delivery, claim_notice, claim_op, handoff_op, finish_op, reserved_op, defer_op,
  delivery_op, prepare_op, unchanged,
}

-- Whether a transition writes.
abbrev pub writes : Result AdmissionChange → Bool
writes (ok c) = c.write
writes (err _) = false

-- The operations that only an owner may perform on work that is owned.
abbrev pub needs_owner : AdmissionOperation → Bool
needs_owner claim_op = true
needs_owner handoff_op = true
needs_owner finish_op = true
needs_owner reserved_op = true
needs_owner defer_op = true
needs_owner delivery_op = true
needs_owner prepare_op = true
needs_owner _ = false

fenced :
    (op : AdmissionOperation) (r : AdmissionRecord) (q : AdmissionTransition)
    → needs_owner op ≡ true
    → is_owned r.state ≡ true
    → r.token ≢ q.token
    → writes (dispatch op r q) ≡ false
unfolding dispatch
fenced claim_op r q n o d = ground arith
fenced handoff_op r q n o d = ground (arith, eq_iff r.token q.token)
fenced finish_op r q n o d = ground (arith, eq_iff q.token r.token)
fenced reserved_op r q n o d = ground (arith, eq_iff r.token q.token)
fenced defer_op r q n o d = ground (arith, eq_iff r.token q.token)
fenced delivery_op r q n o d = ground (arith, eq_iff r.token q.token)
fenced prepare_op r q n o d = ground (arith, eq_iff r.token q.token)
fenced _ r q n o d = cc

-- While one owner's token is on a ticket, a claim, a handoff, a completion, a reservation, a deferral,
-- a delivery and a settlement that carry another token write nothing.
pub calculate_change_fenced :
    (r : AdmissionRecord) (q : AdmissionTransition)
    → needs_owner q.operation ≡ true
    → is_owned r.state ≡ true
    → r.token ≢ q.token
    → writes (calculate_change r q) ≡ false
unfolding calculate_change
calculate_change_fenced r q n o d = fenced q.operation r q n o d

-- What a completion that returned a ticket has made sure of.
record IsFinished (q : AdmissionTransition) (r : AdmissionRecord) : Type 0 where
  ended : is_terminal r.state ≡ true
  typed : is_some q.outcome ≡ true
  outcome : r.outcome ≡ q.outcome
  owner : (has_token q.token && not (str_eq q.token r.token)) ≡ false

finish-IsFinished :
    (r : AdmissionRecord) (q : AdmissionTransition) {c : AdmissionChange} {r' : AdmissionRecord}
    → finish r q ≡ ok c
    → c.next ≡ some r'
    → IsFinished q r'
unfolding finish
finish-IsFinished r q h e = ground arith

finish_of_IsFinished :
    (r : AdmissionRecord) (q : AdmissionTransition)
    → IsFinished q r
    → finish r q ≡ ok (record (unchanged r) { success = true })
unfolding finish
finish_of_IsFinished r q f = ground arith

-- A completion that returned a ticket can be repeated on that ticket: it succeeds again, returns the
-- same ticket, and writes and frees nothing.
pub finish-finish :
    (r : AdmissionRecord) (q : AdmissionTransition) {c : AdmissionChange} {r' : AdmissionRecord}
    → finish r q ≡ ok c
    → c.next ≡ some r'
    → finish r' q ≡ ok (record (unchanged r') { success = true })
finish-finish r q {r' = r'} h e = finish_of_IsFinished r' q (finish-IsFinished r q h e)

-- A publication that was told to publish keeps its first schedule: a later registration of the same
-- envelope, at any other time, returns the ticket unchanged and publishes again.
pub register-register :
    (r : AdmissionRecord) (q q' : AdmissionTransition) {c : AdmissionChange} {r' : AdmissionRecord}
    → register r q ≡ ok c
    → c.next ≡ some r'
    → c.should_publish ≡ true
    → q'.expected_envelope ≡ q.expected_envelope
    → register r' q' ≡ ok (record (unchanged r') { should_publish = true })
unfolding register
register-register r q q' h e p s = ground arith

abbrev pub succeeds : Result AdmissionChange → Bool
succeeds (ok c) = c.success
succeeds (err _) = false

-- A notice of each kind is claimed once: after a claim that succeeded the next one does not.
pub claim_notice_once :
    (r : AdmissionRecord) (k : NoticeKind) {c : AdmissionChange} {r' : AdmissionRecord}
    → claim_notice r (some k) ≡ ok c
    → c.success ≡ true
    → c.next ≡ some r'
    → succeeds (claim_notice r' (some k)) ≡ false
unfolding claim_notice
claim_notice_once r delayed_notice h s e = ground arith
claim_notice_once r terminal_notice h s e = ground arith
claim_notice_once r failure_notice h s e = ground arith

-- Delivery begins exactly for the running owner before the deadline, and leaves the ticket uncertain.
pub begin_delivery_iff :
    (r : AdmissionRecord) (q : AdmissionTransition)
    → ((begin_delivery r q).write ≡ true) ↔ (
        (is_running r.state ≡ true)
        × (r.token ≡ q.token)
        × (q.now < r.envelope.deadline)
        × ((begin_delivery r q).next ≡ some (record r { state = delivery_uncertain })))
unfolding begin_delivery
begin_delivery_iff r q = ground (arith, eq_iff r.token q.token)
