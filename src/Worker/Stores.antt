-- ===== src/Worker/Stores.antt =====
-- Proofs that workers keep the two stores in order, over whatever ports and among other clients.
use hovorun_v.Prelude.{
  ℕ, ◌≡◌, ◌≤◌, refl, inl, inr, Bool-cases, str_eq, All, map, [], ◌∷◌, some, Option, none, List,
  String, ok,
}
use hovorun_v.Domain.{Timestamp, at}
use hovorun_v.Usage.Policies.{ResolvedUsage, UsagePolicy, UsageUnit}
use hovorun_v.Usage.Budgets.{validate_amount, validate_request}
use hovorun_v.Jobs.Envelope.{JobEnvelope}
use hovorun_v.Feature.Commands.{CommandName}
use hovorun_v.Admission.Client.{Call, begin_delivery_call, ticket_answer}
use hovorun_v.Admission.Client.Limits.{AreValid, IsLimited, run_events_from, transition-IsLimited}
use hovorun_v.Budget.Windows.{IsPolicy}
use hovorun_v.Budget.Histories.{IsKept, expire_each-IsKept}
use hovorun_v.Budget.Bounds.{
  AreRequests, IsRequest, run_budget_from, reservation-IsKept, settlement-IsKept,
}
use hovorun_v.Worker.Action.Keeps.{Keeps, pure-Keeps, bind-Keeps, unless_none-Keeps}
use hovorun_v.Worker.World.{
  Ports, World, Trace, Effect, MediaPayload, media_delivered, noted, disturbed, moved_by,
  store_called, transact,
}
use hovorun_v.Worker.Runner.{
  budget_request, family_usage, media_policies, media_bucket, one_request,
}
use hovorun_v.Worker.Execution.{fenced_delivery}
use hovorun_v.Worker.Preserved.{IsPreserved, transaction-Keeps}
use hovorun_v.Worker.Sessions.{Task, run_tasks, run_tasks-keeps}

-- What the workers rely on: the other clients admit validated envelopes and reserve what the
-- dataclasses accept, the policies that are resolved are accepted too, and no usage allows a global
-- concurrency above `n`.
pub record IsOrderly (n : ℕ) (p : Ports) : Type 0 where
  pub events : (t : Trace) → AreValid (p.others t)
  pub budgets : (t : Trace) → AreRequests n (p.other_budgets t)
  pub usage :
      (t : Trace) (u : ResolvedUsage)
      → p.resolve t ≡ ok u
      → (u.safety.global_concurrency ≤ n) × All IsPolicy u.policies

-- The stores of a worker are in order.
pub record IsInOrder (n : ℕ) (p : Ports) (w : World) : Type 0 where
  pub limited : IsLimited p.limits w.admission
  pub kept : IsKept n w.budget

media_policies-each : (us : List UsagePolicy) → All IsPolicy us → All IsPolicy (media_policies us)
unfolding media_policies
media_policies-each [] h = tt
media_policies-each (u ∷ us) h = elim (Bool-cases (str_eq u.bucket media_bucket)) [
  | inl same ↦ rw same (h.0, media_policies-each us h.1)
  | inr other ↦ rw other (media_policies-each us h.1)
]

one_request-each : (us : List UsageUnit) → All (λ a. validate_amount a ≡ ok tt) (map one_request us)
unfolding validate_amount
one_request-each [] = tt
one_request-each (u ∷ us) = (refl, one_request-each us)

family-IsRequest :
    (n : ℕ) (e : JobEnvelope) (provider : Option CommandName) (u : ResolvedUsage)
    → u.safety.global_concurrency ≤ n
    → All IsPolicy u.policies
    → validate_request (budget_request e (family_usage provider u)) ≡ ok tt
    → IsRequest n (budget_request e (family_usage provider u))
family-IsRequest n e none u limit v h = record {
  limit = limit;
  checked = record { policies = v; amounts = one_request-each _; request = h };
}
family-IsRequest n e (some provider) u limit v h = record {
  limit = limit;
  checked = record {
    policies = media_policies-each u.policies v;
    amounts = one_request-each _;
    request = h;
  };
}

module _ (n : ℕ) (p : Ports) (o : IsOrderly n p) where
  noted-IsInOrder : (e : Effect) (w : World) → IsInOrder n p w → IsInOrder n p (noted e w)
  noted-IsInOrder e w h = record { limited = h.limited; kept = h.kept }

  disturbed-IsInOrder : (w : World) → IsInOrder n p w → IsInOrder n p (disturbed p w)
  unfolding disturbed
  disturbed-IsInOrder w h = record {
    limited = run_events_from p.limits (p.others w.trace) w.admission (o.events w.trace) h.limited;
    kept = run_budget_from n (p.other_budgets w.trace) w.budget (o.budgets w.trace) h.kept;
  }

  moved-IsInOrder : (c : Call) (w : World) → IsInOrder n p w → IsInOrder n p (moved_by p c w)
  moved-IsInOrder c w h = record {
    limited = transition-IsLimited p.limits w.admission h.limited c;
    kept = h.kept;
  }

  delivery-Keeps :
      (e : JobEnvelope) (m : MediaPayload) (token : String) (t : Timestamp)
      → Keeps (IsInOrder n p) (fenced_delivery p e m token t)
  unfolding fenced_delivery
  delivery-Keeps e m token t =
      bind-Keeps (transact p (begin_delivery_call e.job_id token (at t))) _
        (transaction-Keeps p (IsInOrder n p) (λ c. noted-IsInOrder (store_called c))
          disturbed-IsInOrder moved-IsInOrder (begin_delivery_call e.job_id token (at t)))
        λ begun.
          unless_none-Keeps (ticket_answer begun) _ _ (pure-Keeps none)
            λ _. record { at = noted-IsInOrder (media_delivered e m) }

  stores-IsPreserved : IsPreserved p (IsInOrder n p)
  stores-IsPreserved = record {
    Own = IsRequest n;
    owns = λ e provider t u resolved valid.
        let (limit, policies) = o.usage t u resolved in
        family-IsRequest n e provider u limit policies valid;
    notes = λ e w quiet. noted-IsInOrder e w;
    others = disturbed-IsInOrder;
    moves = moved-IsInOrder;
    reserves = λ q t totals w own h. record {
      limited = h.limited;
      kept = reservation-IsKept n w.budget h.kept q (at t) totals own;
    };
    finishes = λ id actual t w h. record {
      limited = h.limited;
      kept = settlement-IsKept n w.budget h.kept id actual (at t);
    };
    expires = λ ids t w h. record {
      limited = h.limited;
      kept = expire_each-IsKept n ids w.budget t h.kept;
    };
    delivers = delivery-Keeps;
  }

-- Whatever tasks a worker runs, whatever its ports answer, whatever other clients do between its calls
-- and wherever the connection to the stores is lost: if the other clients admit validated envelopes and
-- reserve what the dataclasses accept, the resolved policies are accepted too, and no usage allows a
-- global concurrency above `n`, then both stores stay in order. The counters of the admission store
-- agree with its tickets and are within the limits, and the sets of the budget store hold exactly its
-- live reservations, at most `n` of them.
pub run_tasks-IsInOrder :
    (n : ℕ) (p : Ports)
    → IsOrderly n p
    → (ts : List Task) (w : World) → IsInOrder n p w
    → IsInOrder n p (run_tasks p w ts)
run_tasks-IsInOrder n p o = run_tasks-keeps p (IsInOrder n p) (stores-IsPreserved n p o)
