-- ===== src/Admission/Traces.antt =====
-- What holds of a ticket over every sequence of transitions. A transaction of admission.py replaces
-- the stored ticket when its change writes, and leaves it when the change does not or raises.
use hovorun_v.Prelude.{
  ℕ, ◌+◌, ◌≤◌, ◌≡◌, true, false, ◌&&◌, none, some, List, [], ◌∷◌, Result, ok, err, arith,
  if◌then◌else◌, Option-cases, inl, inr, ◌⊎◌, ◌∙◌,
}
use mathlib.Core.Path.{subst}
use hovorun_v.Admission.Record.{AdmissionRecord, is_terminal}
use hovorun_v.Admission.Transition.{AdmissionTransition, AdmissionChange, calculate_change}
use hovorun_v.Admission.Invariant.{Ensures}
use hovorun_v.Admission.Graph.{
  ◌⟶◌, Follows, FollowsAt, is_stopped, ⟶-is_stopped, is_spent, ⟶-is_spent, calculate_change-Follows,
}
use hovorun_v.Admission.Effect.{Sound, SoundAt, IsSound, SameJob, SameEnd, calculate_change-Sound}

-- The ticket that `_write_change` stores.
unfoldable pub after : AdmissionRecord → AdmissionChange → AdmissionRecord
after r c = elim c.next [ none ↦ r | some r' ↦ if c.write then r' else r ]

unfoldable pub after_result : AdmissionRecord → Result AdmissionChange → AdmissionRecord
unfolding after
after_result r (ok c) = after r c
after_result r (err _) = r

unfoldable pub step : AdmissionRecord → AdmissionTransition → AdmissionRecord
unfolding after_result
step r q = after_result r (calculate_change r q)

-- How often a change gives its capacity back.
unfoldable pub freed : Result AdmissionChange → ℕ
freed (ok c) = if c.write && c.release then 1 else 0
freed (err _) = 0

unfoldable pub run : AdmissionRecord → List AdmissionTransition → AdmissionRecord
unfolding step
run r [] = r
run r (q ∷ qs) = run (step r q) qs

unfoldable pub releases : AdmissionRecord → List AdmissionTransition → ℕ
unfolding step freed
releases r [] = 0
releases r (q ∷ qs) = freed (calculate_change r q) + releases (step r q) qs

-- 1 once a ticket has ended.
abbrev pub ends : AdmissionRecord → ℕ
ends r = if is_terminal r.state then 1 else 0

after-some :
    (r : AdmissionRecord) (c : AdmissionChange) {r' : AdmissionRecord}
    → c.next ≡ some r'
    → (c.write ≡ false → r' ≡ r)
    → after r c ≡ r'
unfolding after
after-some r c e h = ground arith

-- The facts about one step that the traces add up.
record IsStep (r : AdmissionRecord) (x : Result AdmissionChange) (r' : AdmissionRecord)
    : Type 0 where
  job : SameJob r r'
  account : freed x + ends r ≡ ends r'
  final : is_terminal r.state ≡ true → SameEnd r r'
  attempts : r.attempt ≤ r'.attempt
  path : (r.state ≡ r'.state) ⊎ (r.state ⟶ r'.state)

SameJob-refl : (r : AdmissionRecord) → SameJob r r
SameJob-refl r = ground arith

module _ (r : AdmissionRecord) (c : AdmissionChange) where
  kept-IsStep : c.next ≡ none → Sound r c → IsStep r (ok c) (after r c)
  unfolding freed after
  kept-IsStep e s = ground (arith, SameJob-refl r)

  sound-IsStep :
      {r' : AdmissionRecord}
      → IsSound r c r'
      → (r.state ≡ r'.state) ⊎ (r.state ⟶ r'.state)
      → IsStep r (ok c) r'
  unfolding freed
  sound-IsStep s f = record {
    job = s.job;
    account = ground (arith, s.release, s.unwritten);
    final = s.final;
    attempts = ground (arith, s.attempts);
    path = f;
  }

  change-IsStep : Sound r c → Follows r.state c → IsStep r (ok c) (after r c)
  change-IsStep s f = elim (Option-cases c.next) [
    | inl e ↦ kept-IsStep e s
    | inr (r', e) ↦
        let sound : IsSound r c r' = subst (SoundAt r c) e s in
        rw (after-some r c e sound.unwritten) (sound-IsStep sound (subst (FollowsAt r.state) e f))
  ]

result-IsStep :
    (r : AdmissionRecord) (x : Result AdmissionChange)
    → Ensures (Sound r) x
    → Ensures (Follows r.state) x
    → IsStep r x (after_result r x)
unfolding after_result freed
result-IsStep r (ok c) s f = change-IsStep r c s f
result-IsStep r (err _) s f = ground (arith, SameJob-refl r)

step-IsStep :
    (r : AdmissionRecord) (q : AdmissionTransition) → IsStep r (calculate_change r q) (step r q)
unfolding step
step-IsStep r q =
    result-IsStep r (calculate_change r q) (calculate_change-Sound r q)
      (calculate_change-Follows r q)

pub step-SameJob : (r : AdmissionRecord) (q : AdmissionTransition) → SameJob r (step r q)
step-SameJob r q = (step-IsStep r q).job

pub step-is_terminal :
    (r : AdmissionRecord) (q : AdmissionTransition)
    → is_terminal r.state ≡ true
    → is_terminal (step r q).state ≡ true
step-is_terminal r q h = ((step-IsStep r q).final h).ended

-- However its transitions are ordered or repeated, a ticket gives its capacity back once when it
-- ends, and never otherwise: the releases of a run make up the difference.
pub releases-run :
    (r : AdmissionRecord) (qs : List AdmissionTransition) → releases r qs + ends r ≡ ends (run r qs)
unfolding releases run
releases-run r [] = omega arith
releases-run r (q ∷ qs) = omega (arith, (step-IsStep r q).account, releases-run (step r q) qs)

-- A ticket that has ended stays as it ended: outcome, settlement, owner and attempt.
pub run-SameEnd :
    (r : AdmissionRecord) (qs : List AdmissionTransition)
    → is_terminal r.state ≡ true
    → SameEnd r (run r qs)
unfolding run
run-SameEnd r [] h = ground arith
run-SameEnd r (q ∷ qs) h =
    let one = (step-IsStep r q).final h in
    let rest = run-SameEnd (step r q) qs one.ended in
    record {
      ended = rest.ended;
      outcome = rest.outcome ∙ one.outcome;
      settlement = rest.settlement ∙ one.settlement;
      token = rest.token ∙ one.token;
      attempt = rest.attempt ∙ one.attempt;
    }

stopped-step :
    (r : AdmissionRecord) (q : AdmissionTransition)
    → is_stopped r.state ≡ true
    → is_stopped (step r q).state ≡ true
stopped-step r q h = elim (step-IsStep r q).path [
  | inl same ↦ rw (← same) h
  | inr edge ↦ ⟶-is_stopped h edge
]

pub spent-step :
    (r : AdmissionRecord) (q : AdmissionTransition)
    → is_spent r.state ≡ true
    → is_spent (step r q).state ≡ true
spent-step r q h = elim (step-IsStep r q).path [
  | inl same ↦ rw (← same) h
  | inr edge ↦ ⟶-is_spent h edge
]

-- Once a job is cancelled while it runs, or settles, or has ended, no sequence of transitions makes
-- it run, wait or be delivered again.
pub run-is_stopped :
    (r : AdmissionRecord) (qs : List AdmissionTransition)
    → is_stopped r.state ≡ true
    → is_stopped (run r qs).state ≡ true
unfolding run
run-is_stopped r [] h = h
run-is_stopped r (q ∷ qs) h = run-is_stopped (step r q) qs (stopped-step r q h)

-- No transition changes what was admitted: the envelope with its deadline, the bytes, the pointers.
pub run-SameJob : (r : AdmissionRecord) (qs : List AdmissionTransition) → SameJob r (run r qs)
unfolding run
run-SameJob r [] = SameJob-refl r
run-SameJob r (q ∷ qs) =
    let one = (step-IsStep r q).job in
    let rest = run-SameJob (step r q) qs in
    record {
      envelope = rest.envelope ∙ one.envelope;
      byte_size = rest.byte_size ∙ one.byte_size;
      subject = rest.subject ∙ one.subject;
      ingress = rest.ingress ∙ one.ingress;
      payload = rest.payload ∙ one.payload;
      dedupe = rest.dedupe ∙ one.dedupe;
    }
