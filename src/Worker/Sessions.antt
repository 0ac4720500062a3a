-- ===== src/Worker/Sessions.antt =====
-- What a worker process does, one task after another: `run` for a job, and `recover`.
use hovorun_v.Prelude.{Option, List, [], ◌∷◌}
use hovorun_v.Jobs.Envelope.{JobEnvelope}
use hovorun_v.Admission.Record.{JobStage}
use hovorun_v.Worker.World.{Ports, World}
use hovorun_v.Worker.Execution.{run_job}
use hovorun_v.Worker.Recovery.{recover_jobs}
use hovorun_v.Worker.Preserved.{IsPreserved}
use hovorun_v.Worker.Preserved.Runs.{run_job-Keeps}
use hovorun_v.Worker.Preserved.Recoveries.{recover_jobs-Keeps}

pub data Task : Type 0 where
  job_task : Option JobEnvelope → JobStage → Task
  recovery_task : Task

-- The world after a task, whether it returns or raises.
unfoldable pub run_task : Ports → World → Task → World
unfolding run_job recover_jobs
run_task p w (job_task e stage) = (run_job p e stage w).1
run_task p w recovery_task = (recover_jobs p w).1

unfoldable pub run_tasks : Ports → World → List Task → World
unfolding run_task
run_tasks p w [] = w
run_tasks p w (t ∷ ts) = run_tasks p (run_task p w t) ts

module _ (p : Ports) (P : World → Type 0) (k : IsPreserved p P) where
  run_task-keeps : (w : World) (t : Task) → P w → P (run_task p w t)
  unfolding run_task
  run_task-keeps w (job_task e stage) h = (run_job-Keeps p P k e stage).at w h
  run_task-keeps w recovery_task h = (recover_jobs-Keeps p P k).at w h

  pub run_tasks-keeps : (ts : List Task) (w : World) → P w → P (run_tasks p w ts)
  unfolding run_tasks
  run_tasks-keeps [] w h = h
  run_tasks-keeps (t ∷ ts) w h = run_tasks-keeps ts (run_task p w t) (run_task-keeps w t h)
