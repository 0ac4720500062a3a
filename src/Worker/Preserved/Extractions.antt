-- ===== src/Worker/Preserved/Extractions.antt =====
-- Proofs that the methods of feature_job_runner.py keep what every single step keeps: the extraction of
-- the media of a job.
use hovorun_v.Prelude.{String}
use hovorun_v.Jobs.Envelope.{JobEnvelope}
use hovorun_v.Admission.Record.{JobStage, media, browser}
use hovorun_v.Worker.Action.Keeps.{Keeps}
use hovorun_v.Worker.World.{
  Ports, World, MediaClient, Extraction, extracted, continuation_required, time_limit_exceeded,
  media_failure, other_failure,
}
use hovorun_v.Worker.Preserved.{IsPreserved, steps}
use hovorun_v.Worker.Extraction.{
  handoff_to_browser, extract_with, conclude_media, conclude_browser, extract_by, extract_stage,
}
use hovorun_v.Worker.Preserved.Reservations.{complete_zero-Keeps}

module _ (p : Ports) (P : World → Type 0) (k : IsPreserved p P) where
  handoff_to_browser-Keeps :
      (e : JobEnvelope) (token : String) → Keeps P (handoff_to_browser p e token)
  unfolding handoff_to_browser
  handoff_to_browser-Keeps e token = search (steps, complete_zero-Keeps) depth 20

  extract_with-Keeps :
      (s : JobStage) (c : MediaClient) (url : String) → Keeps P (extract_with p s c url)
  unfolding extract_with
  extract_with-Keeps s c url = search (steps) depth 20

  conclude_media-Keeps :
      (e : JobEnvelope) (c : MediaClient) (token : String) (x : Extraction)
      → Keeps P (conclude_media p e c token x)
  unfolding conclude_media
  conclude_media-Keeps e c token (extracted m) = search (steps) depth 20
  conclude_media-Keeps e c token continuation_required =
      search (steps, handoff_to_browser-Keeps) depth 20
  conclude_media-Keeps e c token time_limit_exceeded = search (steps) depth 20
  conclude_media-Keeps e c token media_failure = search (steps) depth 20
  conclude_media-Keeps e c token (other_failure x) = search (steps) depth 20

  conclude_browser-Keeps : (c : MediaClient) (x : Extraction) → Keeps P (conclude_browser p c x)
  unfolding conclude_browser
  conclude_browser-Keeps c (extracted m) = search (steps) depth 20
  conclude_browser-Keeps c continuation_required = search (steps) depth 20
  conclude_browser-Keeps c time_limit_exceeded = search (steps) depth 20
  conclude_browser-Keeps c media_failure = search (steps) depth 20
  conclude_browser-Keeps c (other_failure x) = search (steps) depth 20

  extract_by-Keeps :
      (e : JobEnvelope) (s : JobStage) (token url : String) (c : MediaClient)
      → Keeps P (extract_by p e s token url c)
  unfolding extract_by
  extract_by-Keeps e media token url c =
      search (steps, extract_with-Keeps, conclude_media-Keeps) depth 20
  extract_by-Keeps e browser token url c =
      search (steps, extract_with-Keeps, conclude_browser-Keeps) depth 20

  pub extract_stage-Keeps :
      (e : JobEnvelope) (bytes : String) (s : JobStage) (token : String)
      → Keeps P (extract_stage p e bytes s token)
  unfolding extract_stage
  extract_stage-Keeps e bytes s token = search (steps, extract_by-Keeps) depth 20
