-- ===== src/Service.antt =====
-- src/core/service.ts: the calls that `CoreService` makes up from several of the repository's.
use short_editor.Prelude.{ℕ, false, not, none, some}
use short_editor.Store.{
  Db, Job, JobType, Provider, plain, source_missing, Result, ◌>>=◌, ◌>>◌, require,
}
use short_editor.Jobs.{JobRequest, enqueue}
use short_editor.Shorts.{get_episode}

abbrev pub analysis_request : ℕ → JobRequest
analysis_request episode = record {
  type = JobType.analyze;
  entity_id = some episode;
  payload = plain 0;
  provider = some Provider.local;
  operation_class = none;
  scope = none;
}

-- `startAnalysis(episodeId, "local")` of src/core/service.ts
unfoldable pub start_analysis : ℕ → ℕ → ℕ → Db → Result (Db × Job)
start_analysis episode_id job_id time db = do
  episode ← get_episode db episode_id
  require (not episode.missing) source_missing
  enqueue (λ handle. false) db (analysis_request episode_id) job_id time
