-- ===== src/Worker/Extraction.antt =====
-- src/hovorunv2/application/jobs/feature_job_runner.py: the extraction of the media of a job.
use hovorun_v.Prelude.{not, Option, none, some, List, [], ◌∷◌, String, if◌then◌else◌, ok}
use hovorun_v.Jobs.Envelope.{JobEnvelope, cancelled}
use hovorun_v.Feature.Commands.{
  CommandName, CommandName-discrete, same_command, resolve_provider_command,
}
use hovorun_v.Admission.Record.{JobStage, media, browser}
use hovorun_v.Admission.Client.{handoff_stage_call, ticket_answer}
use hovorun_v.Worker.Action.{Action, pure, raise, lift, ◌>>=◌, ◌>>◌, unless_none}
use hovorun_v.Worker.World.{
  Ports, World, MediaPayload, MediaClient, Extraction, extracted, continuation_required,
  time_limit_exceeded, media_failure, other_failure, media_extracted, stage_published, ask,
  transact,
}
use hovorun_v.Worker.Runner.{complete_zero}

-- How `_extract_stage` ends: with a payload and its client, after a handoff to the browser stage, at
-- the time limit, or with one of the failures that are caught together.
pub data Extracted : Type 0 where
  obtained : MediaPayload → MediaClient → Extracted
  handed_off timed_out not_extracted : Extracted

unfoldable pub client_named : CommandName → List MediaClient → Option MediaClient
unfolding CommandName-discrete
client_named name [] = none
client_named name (c ∷ cs) = if same_command c.name name then some c else client_named name cs

unfoldable pub client_for : String → List MediaClient → Option MediaClient
client_for url [] = none
client_for url (c ∷ cs) = if c.pattern url then some c else client_for url cs

-- `_find_client`
unfoldable pub find_client : List MediaClient → String → String → Option MediaClient
unfolding client_named client_for resolve_provider_command
find_client clients feature url = elim (resolve_provider_command feature) [
  | none ↦ client_for url clients
  | some provider ↦ elim (client_named provider clients) [
    | none ↦ client_for url clients
    | some c ↦ some c
  ]
]

module _ (p : Ports) where
  -- `_handoff_to_browser`
  unfoldable pub handoff_to_browser : JobEnvelope → String → Action World (Unit {0})
  unfolding transact complete_zero ask
  handoff_to_browser e token = do
    done ← transact p (handoff_stage_call e.job_id token browser)
    unless_none (ticket_answer done) (complete_zero p e.job_id token cancelled)
        λ _. (ask p (stage_published e browser) p.publish_stage >> pure tt)

  unfoldable pub extract_with : JobStage → MediaClient → String → Action World Extraction
  unfolding ask
  extract_with stage c url = ask p (media_extracted stage c.name url) (λ t. ok (p.extract t))

  -- What `_extract_media_stage` makes of an extraction.
  unfoldable pub conclude_media :
      JobEnvelope → MediaClient → String → Extraction → Action World Extracted
  unfolding handoff_to_browser
  conclude_media e c token (extracted m) = pure (obtained m c)
  conclude_media e c token continuation_required =
      if not p.browser_enabled
      then pure not_extracted
      else (handoff_to_browser e token >> pure handed_off)
  conclude_media e c token time_limit_exceeded = pure timed_out
  conclude_media e c token media_failure = pure not_extracted
  conclude_media e c token (other_failure x) = raise x

  -- What `_extract_and_deliver` catches of an extraction in the browser.
  unfoldable pub conclude_browser : MediaClient → Extraction → Action World Extracted
  conclude_browser c (extracted m) = pure (obtained m c)
  conclude_browser c continuation_required = pure handed_off
  conclude_browser c time_limit_exceeded = pure timed_out
  conclude_browser c media_failure = pure not_extracted
  conclude_browser c (other_failure x) = raise x

  -- The end of `_extract_stage`: `_extract_media_stage` and `_extract_browser_stage`.
  unfoldable pub extract_by :
      JobEnvelope → JobStage → String → String → MediaClient → Action World Extracted
  unfolding extract_with conclude_media conclude_browser
  extract_by e media token url c = do
    found ← extract_with media c url
    conclude_media e c token found
  extract_by e browser token url c =
      if not p.browser_enabled
      then pure not_extracted
      else (if not p.has_browser
          then pure not_extracted
          else (do found ← extract_with browser c url; conclude_browser c found))

  -- `_extract_stage`
  unfoldable pub extract_stage : JobEnvelope → String → JobStage → String → Action World Extracted
  unfolding find_client extract_by
  extract_stage e bytes stage token = do
    url ← lift (p.first_line bytes)
    unless_none (find_client p.clients e.feature url) (pure not_extracted)
        (extract_by e stage token url)
