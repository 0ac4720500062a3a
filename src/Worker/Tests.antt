-- ===== src/Worker/Tests.antt =====
-- feature_job_runner.py at a sample job of a group: a run that delivers, with every property of a worker
-- applied to it.
use hovorun_v.Prelude.{
  ◌≤◌, All, ok-injective, arith, ◌≡◌, refl, true, false, none, some, List, [], ◌∷◌, String, negsuc,
  ok, lookup, put, remove, ℤ-discrete,
}
use mathlib.Core.Path.{subst}
use hovorun_v.Domain.{group, seconds, at}
use hovorun_v.Usage.Policies.{
  default_caps, ResolvedUsage, requests, validate_policy, validate_window,
}
use hovorun_v.Usage.Budgets.{is_technical_id}
use hovorun_v.Jobs.Envelope.{direct, automatic, validate_envelope}
use hovorun_v.Feature.Registry.{FeatureDefinition, standard, private_scope, group_scope}
use hovorun_v.Feature.Commands.{twitter}
use hovorun_v.Jobs.Envelope.{complete, failed}
use hovorun_v.Jobs.Settlement.{SettlementIntent, SettlementIntent-discrete, validate_intent}
use hovorun_v.Worker.Action.{◌>>=◌, unless_none, pure}
use hovorun_v.Admission.Record.{
  AdmissionRecord, AdmissionTicket, media, terminal, settling, ticket_of, validate_record,
}
use hovorun_v.Admission.Transition.{calculate_change}
use hovorun_v.Admission.Capacity.{
  AdmissionLimits, read_capacity, read_counter, read_totals, is_full, admitted_counters,
  released_counters, require_active, require_counts,
}
use hovorun_v.Admission.Space.{
  Space, empty_space, byte_length, same_owner, same_ingress, same_lane, Lane-discrete,
}
use hovorun_v.Admission.Store.{connected, SealedPayload, initial_record}
use hovorun_v.Admission.Accounting.{keys_of}
use hovorun_v.Admission.Client.{claim_stage_call, finish_call, prepare_settlement_call}
use hovorun_v.Admission.Client.Limits.{
  Event, admission, transition, IsLimited, run_events, run_events-IsLimited,
}
use hovorun_v.Admission.Client.Spent.{IsSpent}
use hovorun_v.Admission.Samples.{sample_job}
use hovorun_v.Budget.Windows.{IsPolicy}
use hovorun_v.Budget.Store.{empty_budget}
use hovorun_v.Budget.Holders.{empty_budget-IsHeld}
use hovorun_v.Worker.World.{Ports, World, ready, extracted, delivery_accepted}
use hovorun_v.Admission.Client.Ended.{IsEnded}
use hovorun_v.Worker.Lifecycle.{reconcile}
use hovorun_v.Worker.Settled.{reconcile-IsEnded}
use hovorun_v.Worker.Execution.{run_job}
use hovorun_v.Worker.Sessions.{Task, job_task, recovery_task, run_tasks}
use hovorun_v.Worker.Stores.{IsOrderly, IsInOrder, run_tasks-IsInOrder}
use hovorun_v.Worker.Delivery.{deliveries, run_tasks-IsFenced, run_tasks-deliveries}
use hovorun_v.Worker.Codes.{IsSafeCode, run_job-IsSafeCode}

abbrev sealed : SealedPayload
sealed = record {
  reference = sample_job.payload_ref;
  job_id = "job-1";
  blob = "sealed";
  deadline = seconds 1300;
  byte_size = 6;
}

abbrev limits : AdmissionLimits
limits = record { subject_pending = 2; ingress_pending = 3; safety = default_caps }

abbrev usage : ResolvedUsage
usage = record {
  subject = record { kind = group; telegram_id = negsuc 99; entity_id = 4; generation = 1 };
  policies =
      record {
        bucket = "family:media";
        limit = 10;
        burst = 5;
        concurrency = 2;
        pending = 4;
        unit = requests;
        window = record { seconds = 60 };
      }
      ∷ [];
  bypass_personal_quota = false;
  safety = default_caps;
}

abbrev video : FeatureDefinition
video = record {
  key = "twitter_video";
  display_name = "Videos";
  channel = standard;
  introduction = "Send a link";
  default_enabled = true;
  scopes = private_scope ∷ group_scope ∷ [];
  triggers = direct ∷ automatic ∷ [];
  required_bot_capabilities = [];
  units = "requests" ∷ [];
  usage_policy = "media";
  queue_policy = "media";
  notification_category = "features";
}

-- Ports that let everything through and deliver.
abbrev ports : Ports
ports = record {
  limits = limits;
  others = λ t. [];
  other_budgets = λ t. [];
  link = λ t. connected;
  clock = λ t. seconds 1002;
  new_token = λ t. "worker-a";
  load = λ t. ok (record { state = ready; data_bytes = some "link"; sender_label = none });
  delete = λ t. ok tt;
  resolve = λ t. ok usage;
  usage_total = λ t. ok 3;
  apply_batch = λ t. ok tt;
  emergency_state = λ t. ok (record {
    feature_key = "twitter";
    disabled = false;
    reason = none;
    public_reason = none;
    epoch = 0;
  });
  disabled_features = λ t. ok [];
  active_target = λ t. ok true;
  evaluate = λ t. ok true;
  extract = λ t. extracted (record { is_video = true; content = none });
  translate = λ t. ok (record { is_video = true; content = none });
  deliver = λ t. delivery_accepted;
  publish_stage = λ t. ok true;
  feedback_allowed = λ t. ok true;
  claim_delayed = λ t. ok true;
  send_message = λ t. ok (some 1);
  recovery_page = λ t. ok [];
  pending_ids = λ t. ok [];
  stale_ids = λ t. ok [];
  first_line = λ s. ok s;
  registry = video ∷ [];
  clients = record { name = twitter; pattern = λ s. true; platform_label = "Twitter" } ∷ [];
  browser_enabled = false;
  has_browser = false;
}

abbrev entry : Event
entry = admission sample_job sealed (at (seconds 1001))

abbrev start : World
start = record {
  admission = run_events limits empty_space (entry ∷ []);
  budget = empty_budget;
  trace = [];
}

sample_job_valid : validate_envelope sample_job ≡ ok tt
unfolding validate_envelope is_technical_id ℤ-discrete
sample_job_valid = refl

start-IsLimited : IsLimited limits start.admission
start-IsLimited = (run_events-IsLimited limits (entry ∷ []) (sample_job_valid, tt)).0

-- A space in which another worker has claimed the job and ended it.
abbrev ended_space : Space
ended_space = run_events limits empty_space (
    entry
    ∷ transition (claim_stage_call "job-1" media (at (seconds 1002)) "worker-b" none)
    ∷ transition (finish_call "job-1" complete (some "worker-b"))
    ∷ [])

abbrev ended_ticket : AdmissionRecord
ended_ticket = record (initial_record sample_job sealed (keys_of sample_job)) {
  state = terminal;
  outcome = some complete;
  token = "worker-b";
  attempt = 1;
  terminal_notice_requested = true;
}

ended-IsSpent : IsSpent "job-1" ended_space
unfolding run_events calculate_change read_capacity read_counter read_totals is_full
    admitted_counters released_counters require_active require_counts validate_record
    validate_envelope is_technical_id ℤ-discrete byte_length lookup put same_owner same_ingress
    same_lane Lane-discrete remove
ended-IsSpent = record { ticket = ended_ticket; found = refl; spent = refl }

ended-IsLimited : IsLimited limits ended_space
ended-IsLimited = (run_events-IsLimited limits _ (sample_job_valid, tt)).0

abbrev tasks : List Task
tasks =
    job_task (some sample_job) media
    ∷ job_task (some sample_job) media
    ∷ recovery_task
    ∷ job_task none media
    ∷ []

policy-IsPolicy : All IsPolicy usage.policies
unfolding validate_policy validate_window
policy-IsPolicy = (record { checked = refl; windowed = refl }, tt)

ports-IsOrderly : IsOrderly 2 ports
ports-IsOrderly = record {
  events = λ t. tt;
  budgets = λ t. tt;
  usage = λ t u h.
      subst (λ u. (u.safety.global_concurrency ≤ 2) × All IsPolicy u.policies) (ok-injective h)
        (omega arith, policy-IsPolicy);
}

run_tasks-IsInOrder_example : IsInOrder 2 ports (run_tasks ports start tasks)
run_tasks-IsInOrder_example = run_tasks-IsInOrder 2 ports ports-IsOrderly tasks start (record {
  limited = start-IsLimited;
  kept = record { held = empty_budget-IsHeld; global = ground arith };
})

run_tasks-IsFenced_example :
    (deliveries "job-1" (run_tasks ports start tasks).trace ≤ 1)
    × (1 ≤ deliveries "job-1" (run_tasks ports start tasks).trace
        → IsSpent "job-1" (run_tasks ports start tasks).admission)
run_tasks-IsFenced_example =
    run_tasks-IsFenced "job-1" ports (λ t. tt) tasks start start-IsLimited refl

abbrev late_start : World
late_start = record start { admission = ended_space }

run_tasks-deliveries_example :
    deliveries "job-1" (run_tasks ports late_start tasks).trace
    ≤ deliveries "job-1" late_start.trace
run_tasks-deliveries_example =
    run_tasks-deliveries "job-1" ports (λ t. tt) tasks late_start ended-IsLimited ended-IsSpent

run_job-IsSafeCode_example :
    (code : String) × ((run_job ports (some sample_job) media start).0 ≡ ok code) × IsSafeCode code
run_job-IsSafeCode_example = run_job-IsSafeCode ports (some sample_job) media start

-- The settlement of a job that has consumed nothing.
abbrev unconsumed : SettlementIntent
unconsumed = record { outcome = failed; actual = []; event = none }

-- A world in which another worker has recorded the settlement of the job, and then stopped.
abbrev settling_start : World
settling_start = record start {
  admission = run_events limits empty_space (
      entry
      ∷ transition (claim_stage_call "job-1" media (at (seconds 1002)) "worker-b" none)
      ∷ transition (prepare_settlement_call "job-1" "worker-b" unconsumed)
      ∷ []);
}

abbrev settling_ticket : AdmissionTicket
settling_ticket = ticket_of (record (initial_record sample_job sealed (keys_of sample_job)) {
  state = settling;
  token = "worker-b";
  attempt = 1;
  settlement = some unconsumed;
})

settling-IsLimited : IsLimited limits settling_start.admission
settling-IsLimited = (run_events-IsLimited limits _ (sample_job_valid, tt)).0

settling_returns : (reconcile ports settling_ticket settling_start).0 ≡ ok tt
unfolding reconcile run_events calculate_change read_capacity read_counter read_totals is_full
    admitted_counters released_counters require_active require_counts validate_record
    validate_envelope is_technical_id ℤ-discrete byte_length lookup put same_owner same_ingress
    same_lane Lane-discrete remove ◌>>=◌ unless_none pure validate_intent SettlementIntent-discrete
settling_returns = refl

reconcile-IsEnded_example :
    IsEnded "job-1" (reconcile ports settling_ticket settling_start).1.admission
unfolding ticket_of
reconcile-IsEnded_example =
    reconcile-IsEnded ports (λ t. tt) settling_ticket settling_start settling-IsLimited
      settling_returns
