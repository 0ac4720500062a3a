-- ===== src/Worker/Preserved/Recoveries.antt =====
-- Proofs that the methods of feature_job_runner.py keep what every single step keeps: `recover`.
use hovorun_v.Prelude.{◌+◌, List, [], ◌∷◌, String}
use hovorun_v.Domain.{Timestamp}
use hovorun_v.Feature.Commands.{FeatureEmergencyState}
use hovorun_v.Admission.Reads.{keep_family}
use hovorun_v.Admission.Record.{AdmissionTicket, terminal_notice}
use hovorun_v.Worker.Action.Keeps.{Keeps, pure-Keeps, bind-Keeps, if-Keeps}
use hovorun_v.Worker.World.{Ports, World, timeout_text}
use hovorun_v.Worker.Preserved.{IsPreserved, steps, read_ticket-Keeps}
use hovorun_v.Worker.Preserved.Lifecycle.{recover_tickets-Keeps, notify-Keeps}
use hovorun_v.Worker.Recovery.{
  notify_each, notify_expired_notices, read_pending, pending_for_feature, has_stopped,
  clear_stopped, clear_ticket, clear_each, clear_feature, clear_features, clear_disabled_features,
  recover_jobs,
}

module _ (p : Ports) (P : World → Type 0) (k : IsPreserved p P) where
  notify_each-Keeps : (t : Timestamp) (ts : List AdmissionTicket) → Keeps P (notify_each p t ts)
  unfolding notify_each
  notify_each-Keeps t [] = search steps
  notify_each-Keeps t (x ∷ ts) = if-Keeps _ _ _ (notify_each-Keeps t ts) (
      bind-Keeps _ _ (notify-Keeps p P k x.envelope terminal_notice timeout_text)
        λ _. bind-Keeps _ _ (notify_each-Keeps t ts) λ n. pure-Keeps (1 + n))

  notify_expired_notices-Keeps : Keeps P (notify_expired_notices p)
  unfolding notify_expired_notices
  notify_expired_notices-Keeps = search (steps, notify_each-Keeps) depth 20

  read_pending-Keeps : (key : String) (ids : List String) → Keeps P (read_pending p key ids)
  unfolding read_pending
  read_pending-Keeps key [] = search steps
  read_pending-Keeps key (id ∷ ids) = bind-Keeps _ _ (read_ticket-Keeps p P k id) λ found.
      bind-Keeps _ _ (read_pending-Keeps key ids) λ rest. pure-Keeps (keep_family key found rest)

  pending_for_feature-Keeps : (feature : String) → Keeps P (pending_for_feature p feature)
  unfolding pending_for_feature
  pending_for_feature-Keeps feature = search (steps, read_pending-Keeps) depth 20

  has_stopped-Keeps : (t : AdmissionTicket) → Keeps P (has_stopped p t)
  unfolding has_stopped
  has_stopped-Keeps t = search (steps) depth 20

  clear_stopped-Keeps : (t : AdmissionTicket) (id : String) → Keeps P (clear_stopped p t id)
  unfolding clear_stopped
  clear_stopped-Keeps t id = search (steps) depth 20

  clear_ticket-Keeps : (t : AdmissionTicket) → Keeps P (clear_ticket p t)
  unfolding clear_ticket
  clear_ticket-Keeps t = search (steps, has_stopped-Keeps, clear_stopped-Keeps) depth 20

  clear_each-Keeps : (ts : List AdmissionTicket) → Keeps P (clear_each p ts)
  unfolding clear_each
  clear_each-Keeps [] = search steps
  clear_each-Keeps (t ∷ ts) =
      bind-Keeps _ _ (clear_ticket-Keeps t)
        λ _. bind-Keeps _ _ (clear_each-Keeps ts) λ n. pure-Keeps (1 + n)

  clear_feature-Keeps : (feature : String) → Keeps P (clear_feature p feature)
  unfolding clear_feature
  clear_feature-Keeps feature = search (steps, pending_for_feature-Keeps, clear_each-Keeps) depth 20

  clear_features-Keeps : (ss : List FeatureEmergencyState) → Keeps P (clear_features p ss)
  unfolding clear_features
  clear_features-Keeps [] = search steps
  clear_features-Keeps (s ∷ ss) =
      bind-Keeps _ _ (clear_feature-Keeps s.feature_key)
        λ cleared. bind-Keeps _ _ (clear_features-Keeps ss) λ rest. pure-Keeps (cleared + rest)

  clear_disabled_features-Keeps : Keeps P (clear_disabled_features p)
  unfolding clear_disabled_features
  clear_disabled_features-Keeps = search (steps, clear_features-Keeps) depth 20

  -- A recovery keeps what every single step of a worker keeps.
  pub recover_jobs-Keeps : Keeps P (recover_jobs p)
  unfolding recover_jobs
  recover_jobs-Keeps =
      search
        (steps, notify_expired_notices-Keeps, recover_tickets-Keeps, clear_disabled_features-Keeps)
        depth 20
