-- ===== src/Workflows/Steps.antt =====
-- src/core/short-workflows.ts: what `advance` does in each state, up to the draft.
use short_editor.Prelude.{
  ℕ, ◌+◌, ◌*◌, ◌/◌, if◌then◌else◌, Bool, true, false, not, ◌&&◌, ltb, [], Option, none, some, find,
}
use short_editor.Store.{
  Job, JobState, Short, ErrorCode, validation_error, invalid_state, dependency_unavailable,
  internal_error, job_cancelled,
}
use short_editor.Jobs.{has_id}
use short_editor.Shorts.{get_short, update_short_timeline, update_short_captions}
use short_editor.Timeline.{output_duration}
use short_editor.Workflows.{
  WorkflowState, Workflow, World, Run, fault_of, pure, throw, found, gets, query, transact, call,
  ◌>>=◌, ◌>>◌, demand, draw, now, Core,
}
use short_editor.Renders.{newest}
use short_editor.Service.{start_analysis}
use short_editor.Workflows.Rows.{update}
use short_editor.Workflows.Choices.{
  ends_mp4, episode_of, analyzes, best_candidate, opening_range, graphics_layers, made_from,
}

-- `continue` or `return` of a round.
pub data Round : Type 0 where
  again done : Round

module _ {R : Type 0} where
  -- `workflow.x!` on a nullable column: where the column is null, the call that reads the row by it
  -- throws `code`.
  abbrev pub present : Option ℕ → ErrorCode → Run R ℕ
  present o code = found o code

  abbrev pub job_found : Option ℕ → World R → Option Job
  job_found none w = none
  job_found (some id) w = find (has_id id) w.db.jobs

  abbrev pub unless : Bool → Run R (Unit {0}) → Run R (Unit {0})
  unless true m = pure tt
  unless false m = m

  abbrev pub again_at : Run R (Unit {0}) → Run R Round
  again_at m = m >>= λ written. pure again

  abbrev pub done_at : Run R (Unit {0}) → Run R Round
  done_at m = m >>= λ written. pure done

module _ {R : Type 0} (core : Core R) where
  unfoldable pub join_or_start : ℕ → Option Job → Run R (Option ℕ)
  join_or_start episode (some j) = pure (some j.id)
  join_or_start episode none = do
    id ← draw
    time ← now
    job ← transact (start_analysis episode id time)
    pure (some job.id)

  unfoldable pub analysis_unless : Bool → ℕ → Run R (Option ℕ)
  unfolding join_or_start
  analysis_unless true episode = pure none
  analysis_unless false episode = do
    open_job ← gets (λ w. newest (analyzes episode) w.db.jobs)
    join_or_start episode open_job

  -- The analysis that the import goes on with: none where a transcript has been accepted.
  unfoldable pub analysis_of : ℕ → Run R (Option ℕ)
  unfolding analysis_unless
  analysis_of episode = do
    accepted ← gets (λ w. core.has_accepted_transcript episode w.db w.rest)
    analysis_unless accepted episode

  abbrev pub with_import : ℕ → Option ℕ → Workflow → Workflow
  with_import episode none r = record r {
    state = WorkflowState.selecting_candidate;
    progress = 380000;
    episode_id = some episode;
    analysis_job_id = none;
  }
  with_import episode (some job) r = record r {
    state = WorkflowState.analyzing;
    progress = 120000;
    episode_id = some episode;
    analysis_job_id = some job;
  }

  unfoldable pub import_step : Workflow → Run R Round
  import_step r = do
    imports ← core.import_paths r.input.source_path
    episode ← found (episode_of imports) validation_error
    demand (ends_mp4 episode.source_path) validation_error
    job ← analysis_of episode.id
    again_at (update r.id r.revision (with_import episode.id job))

  abbrev pub code_or : Option ErrorCode → ErrorCode → ErrorCode
  code_or none code = code
  code_or (some other) code = other

  unfoldable pub analysis_round : Workflow → Job → JobState → Run R Round
  analysis_round r job JobState.failed =
      throw (record { code = code_or job.error_code dependency_unavailable; retryable = true })
  analysis_round r job JobState.cancelled = throw (fault_of job_cancelled)
  analysis_round r job JobState.succeeded = again_at (
      update r.id r.revision
        (λ w. record w { state = WorkflowState.selecting_candidate; progress = 380000 }))
  analysis_round r job JobState.queued =
      done_at
        (update r.id r.revision (λ w. record w { progress = 120000 + job.progress * 24 / 100 }))
  analysis_round r job JobState.running =
      done_at
        (update r.id r.revision (λ w. record w { progress = 120000 + job.progress * 24 / 100 }))

  unfoldable pub analysis_step : Workflow → Run R Round
  unfolding analysis_round
  analysis_step r = do
    held ← gets (job_found r.analysis_job_id)
    job ← found held internal_error
    analysis_round r job job.state

  unfoldable pub choose_candidate : Workflow → Run R Round
  choose_candidate r = do
    episode ← present r.episode_id validation_error
    candidates ← call (core.generate_candidates episode)
    chosen ← found (best_candidate r.input.target_duration_ms candidates) invalid_state
    again_at (
        update r.id r.revision (λ w. record w {
          state = WorkflowState.selecting_candidate;
          progress = 440000;
          candidate_id = some chosen.id;
        }))

  unfoldable pub accept_candidate : Workflow → ℕ → Run R Round
  accept_candidate r id = do
    candidate ← call (core.get_candidate id)
    pack ← call (core.get_content_package candidate.id)
    unless pack.accepted
        (call (core.accept_content_package candidate.id pack.candidate_revision pack.proposed))
    fresh ← call (core.get_candidate candidate.id)
    unless fresh.approved (call (core.review_candidate candidate.id fresh.revision))
    again_at (
        update r.id r.revision (λ w. record w {
          state = WorkflowState.assembling_draft;
          progress = 480000;
          candidate_id = some candidate.id;
        }))

  unfoldable pub selection_step : Workflow → Option ℕ → Run R Round
  unfolding choose_candidate accept_candidate
  selection_step r none = choose_candidate r
  selection_step r (some id) = accept_candidate r id

  unfoldable pub draft_or_make : Workflow → ℕ → Option Short → Run R Short
  draft_or_make r candidate (some project) = pure project
  draft_or_make r candidate none = do
    id ← call (core.create_short candidate r.input.template_id)
    query (λ db. get_short db id)

  -- The Short of the candidate, made where there is none.
  unfoldable pub drafted : Workflow → ℕ → ℕ → Run R Short
  unfolding draft_or_make
  drafted r episode candidate = do
    held ← gets (λ w. find (made_from episode candidate) w.db.shorts)
    draft_or_make r candidate held

  unfoldable pub cut : Workflow → Short → Run R Short
  cut r project = do
    time ← now
    transact (λ db.
        update_short_timeline db project.id project.revision
          (opening_range r.input.target_duration_ms project.source_ranges) time)

  unfoldable pub shortened : Workflow → Short → Run R Short
  unfolding cut
  shortened r project =
      if ltb r.input.target_duration_ms (output_duration project.source_ranges)
      then cut r project
      else pure project

  unfoldable pub without_captions : Short → Run R Short
  without_captions project = do
    time ← now
    transact (λ db.
        update_short_captions db project.id project.revision
          (record project.captions { enabled = false }) time)

  unfoldable pub captioned : Workflow → Short → Run R Short
  unfolding without_captions
  captioned r project =
      if not r.input.captions_enabled && project.captions.enabled
      then without_captions project
      else pure project

  abbrev pub after_draft : Bool → WorkflowState
  after_draft true = WorkflowState.preflighting
  after_draft false = WorkflowState.awaiting_review

  unfoldable pub assembly_step : Workflow → Run R Round
  unfolding drafted shortened captioned
  assembly_step r = do
    episode ← present r.episode_id validation_error
    candidate ← present r.candidate_id ErrorCode.not_found
    project ← drafted r episode candidate
    short ← shortened r project
    final ← captioned r short
    again_at (
        update r.id r.revision (λ w. record w {
          state = after_draft r.input.auto_approve;
          progress = if r.input.auto_approve then 640000 else 600000;
          short_id = some final.id;
          graphics_proposal =
              if r.input.graphics.enabled
              then graphics_layers r.input.graphics (output_duration short.source_ranges)
              else [];
        }))
