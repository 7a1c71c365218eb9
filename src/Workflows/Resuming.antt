-- ===== src/Workflows/Resuming.antt =====
-- src/core/short-workflows.ts: `resume`, `cancel` and `reconcileAll`.
use short_editor.Prelude.{ℕ, if◌then◌else◌, List, [], ◌∷◌, Option, none, some, find, select, sort}
use short_editor.Store.{Job, invalid_state}
use short_editor.Jobs
use short_editor.Jobs.{has_id, is_open}
use short_editor.Renders.{get_render, retry_render_attempt, retryable_state}
use short_editor.Service.{start_analysis}
use short_editor.Workflows.{
  WorkflowState, Workflow, Run, pure, gets, found, query, transact, ◌>>=◌, ◌>>◌, demand, draw, now,
  is_active, Core,
}
use short_editor.Workflows.Rows.{read, assert_revision, update}
use short_editor.Workflows.Calls.{
  retry_state, progress_for, is_rendering, is_analyzing, is_preflighting, is_awaiting, is_failed,
  advance_safely, get, hydrate, Resumption, approve_draft, retry, comes_first,
}

module _ {R : Type 0} (core : Core R) where
  unfoldable pub approve_workflow : Workflow → ℕ → Run R (Unit {0})
  approve_workflow r expected = do
    demand (is_awaiting r.state) invalid_state
    update r.id expected (λ w. record w { state = WorkflowState.preflighting; progress = 640000 })

  unfoldable pub retry_render : Workflow → ℕ → ℕ → Run R (Unit {0})
  retry_render r expected source = do
    render_id ← draw
    job_id ← draw
    time ← now
    retried ← transact (λ db. retry_render_attempt db source render_id job_id time)
    update r.id expected (λ w. record w {
      state = WorkflowState.rendering;
      progress = 720000;
      failure = none;
      render_id = some retried.render.id;
      render_job_id = some retried.job.id;
    })

  unfoldable pub retry_analysis : Workflow → ℕ → ℕ → Run R (Unit {0})
  retry_analysis r expected episode = do
    job_id ← draw
    time ← now
    job ← transact (start_analysis episode job_id time)
    update r.id expected (λ w. record w {
      state = WorkflowState.analyzing;
      progress = 120000;
      failure = none;
      analysis_job_id = some job.id;
    })

  unfoldable pub retry_stage : Workflow → ℕ → WorkflowState → Run R (Unit {0})
  retry_stage r expected stage =
      let state = retry_state r stage in
      update r.id expected (λ w. record w {
        state = state;
        progress = progress_for state;
        failure = none;
        preflight_id = if is_preflighting stage then none else r.preflight_id;
      })

  -- After the case of a Render that may be retried.
  unfoldable pub retry_other : Workflow → ℕ → WorkflowState → Option ℕ → Run R (Unit {0})
  unfolding retry_analysis retry_stage
  retry_other r expected stage none = retry_stage r expected stage
  retry_other r expected stage (some episode) =
      if is_analyzing stage then retry_analysis r expected episode else retry_stage r expected stage

  unfoldable pub retry_failed : Workflow → ℕ → WorkflowState → Option ℕ → Run R (Unit {0})
  unfolding retry_render retry_other
  retry_failed r expected stage none = retry_other r expected stage r.episode_id
  retry_failed r expected stage (some render) =
      if is_rendering stage
      then (query (λ db. get_render db render) >>= λ source.
          if retryable_state source.state
          then retry_render r expected source.id
          else retry_other r expected stage r.episode_id)
      else retry_other r expected stage r.episode_id

  unfoldable pub retry_workflow : Workflow → ℕ → Run R (Unit {0})
  unfolding retry_failed
  retry_workflow r expected = do
    demand (is_failed r.state) invalid_state
    failure ← found r.failure invalid_state
    demand failure.retryable invalid_state
    retry_failed r expected failure.stage r.render_id

  unfoldable pub resume_by : Resumption → Workflow → ℕ → Run R (Unit {0})
  unfolding approve_workflow retry_workflow
  resume_by approve_draft r expected = approve_workflow r expected
  resume_by retry r expected = retry_workflow r expected

  unfoldable pub resume : ℕ → ℕ → Resumption → Run R Workflow
  unfolding resume_by
  resume id expected action = do
    r ← read id
    assert_revision r expected
    resume_by action r expected
    advance_safely core id
    get core id

  unfoldable pub cancel_if_open : Option Job → Run R (Unit {0})
  cancel_if_open none = pure tt
  cancel_if_open (some j) =
      if is_open j.state
      then (now >>= λ time. transact (λ db. Jobs.cancel db j.id time))
      else pure tt

  -- The list of the jobs is read anew for each.
  unfoldable pub cancel_open : Option ℕ → Run R (Unit {0})
  unfolding cancel_if_open
  cancel_open none = pure tt
  cancel_open (some id) = do held ← gets (λ w. find (has_id id) w.db.jobs); cancel_if_open held

  unfoldable pub cancel_workflow : ℕ → ℕ → Run R Workflow
  unfolding cancel_open
  cancel_workflow id expected = do
    r ← read id
    assert_revision r expected
    demand (is_active r.state) invalid_state
    cancel_open r.analysis_job_id
    cancel_open r.render_job_id
    update id expected (λ w. record w { state = WorkflowState.cancelled; failure = none })
    s ← read id
    hydrate core s

  unfoldable pub advance_all : List Workflow → Run R (Unit {0})
  advance_all [] = pure tt
  advance_all (r ∷ rs) = do advance_safely core r.id; advance_all rs

  unfoldable pub reconcile_all : Run R (Unit {0})
  unfolding advance_all
  reconcile_all w =
      advance_all (sort comes_first (select (λ (r : Workflow). is_active r.state) w.workflows)) w
