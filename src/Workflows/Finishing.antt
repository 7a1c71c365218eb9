-- ===== src/Workflows/Finishing.antt =====
-- src/core/short-workflows.ts: `advance` from the approved draft to the exported Render, and
-- `exportRender`.
use short_editor.Prelude.{
  ℕ, ◌+◌, ◌*◌, ◌/◌, ◌==◌, if◌then◌else◌, Bool, true, false, not, ◌&&◌, [], ◌∷◌, ◌++◌, Option, none,
  some, any, option_eq, or_else, is_some,
}
use short_editor.Paths.{Text, text_eq, split_slash, portable}
use short_editor.Store.{
  Job, Render, RenderState, Short, validation_error, invalid_state, not_found,
  dependency_unavailable, internal_error, job_cancelled, SidecarFormat, srt,
}
use short_editor.Shorts.{is_succeeded, get_short, approve_short}
use short_editor.Renders.{get_render, get_preflight, start_render_attempt, newest}
use short_editor.Workflows.{
  World, Outcome, threw, returned, WorkflowState, Workflow, Run, fault_of, pure, throw, found, gets,
  query, transact, ◌>>=◌, ◌>>◌, demand, draw, now, Copying, Core,
}
use short_editor.Workflows.Rows.{update}
use short_editor.Workflows.Choices.{ends_mp4, newest_render, reusable_at}
use short_editor.Workflows.Steps.{Round, present, job_found, again_at, done_at}

abbrev pub has_reference : ℕ → Job → Bool
has_reference render j = option_eq j.payload_reference (some render)

abbrev pub sidecar : Bool → Option SidecarFormat
sidecar true = some srt
sidecar false = none

-- `exportRenderInputSchema`
pub record ExportInput : Type 0 where
  pub render_id : ℕ
  pub directory : Text
  pub filename : Option Text

-- A file in the `realpath` of a directory, under the name that exports have by default.
abbrev pub export_name : Text → Text
export_name id =
    (b's' ∷ b'i' ∷ b'f' ∷ b't' ∷ b'c' ∷ b'u' ∷ b't' ∷ b'-' ∷ [])
    ++ id
    ++ b'.' ∷ b'm' ∷ b'p' ∷ b'4' ∷ []

abbrev pub is_dots : Text → Bool
is_dots segment = text_eq segment (b'.' ∷ b'.' ∷ [])

-- `basename(filename) === filename`, on POSIX hosts, and the other tests of a name.
abbrev pub is_plain_mp4 : Text → Bool
is_plain_mp4 name = not (any (λ c. c == b'/') name) && ends_mp4 name

abbrev pub is_exportable : Render → Bool
is_exportable r =
    is_succeeded r.state && is_some r.output_path && is_some r.content_hash && or_else r.valid false

module _ {R : Type 0} where
  abbrev pub rescued : World R × Outcome Round → Run R Round → World R × Outcome Round
  rescued (w, threw e) n = n w
  rescued (w, returned round) n = (w, returned round)

  -- A `try` whose `catch` is empty, and what follows it where it throws.
  unfoldable pub rescue : Run R Round → Run R Round → Run R Round
  rescue m n w = rescued (m w) n

module _ {R : Type 0} (core : Core R) where
  unfoldable pub approve : Short → Run R Short
  approve project = do
    time ← now
    transact (λ db. approve_short db project.id project.revision time)

  unfoldable pub approved_short : Short → Run R Short
  unfolding approve
  approved_short project = if project.approved then pure project else approve project

  unfoldable pub reattach : Workflow → Render → Run R Round
  reattach r render = do
    held ← gets (λ w. newest (has_reference render.id) w.db.jobs)
    job ← found held internal_error
    again_at (
        update r.id r.revision (λ w. record w {
          state = WorkflowState.rendering;
          progress = if is_succeeded render.state then 940000 else 720000;
          preflight_id = render.preflight_id;
          render_id = some render.id;
          render_job_id = some job.id;
        }))

  -- The preflight that is on record, or a new one.
  unfoldable pub preflight_of : Workflow → Short → Option ℕ → Run R (ℕ × Bool)
  preflight_of r project none =
      core.preflight_workflow_render project.id project.revision r.graphics_proposal
  preflight_of r project (some id) = do
    preflight ← query (λ db. get_preflight db id)
    pure (preflight.id, preflight.passed)

  unfoldable pub start_render : Workflow → Short → ℕ → Run R Round
  start_render r project preflight = do
    render_id ← draw
    job_id ← draw
    time ← now
    started ← transact (λ db.
        start_render_attempt db
          (record {
            short_id = project.id;
            expected_revision = project.revision;
            preflight_id = preflight;
            sidecar_format = sidecar r.input.captions_enabled;
          })
          render_id job_id time)
    done_at (
        update r.id r.revision (λ w. record w {
          state = WorkflowState.rendering;
          progress = 720000;
          preflight_id = some preflight;
          render_id = some started.render.id;
          render_job_id = some started.job.id;
        }))

  unfoldable pub record_preflight : Workflow → ℕ → Run R Round
  record_preflight r preflight = again_at (
      update r.id r.revision (λ w. record w {
        state = WorkflowState.preflighting;
        progress = 680000;
        preflight_id = some preflight;
      }))

  unfoldable pub preflight_round : Workflow → Short → Run R Round
  unfolding preflight_of start_render record_preflight
  preflight_round r project = do
    preflight ← preflight_of r project r.preflight_id
    demand preflight.1 validation_error
    let starts = start_render r project preflight.0
    let records = record_preflight r preflight.0
    if is_some r.preflight_id then starts else records

  unfoldable pub render_or_reattach : Workflow → Short → Option Render → Run R Round
  unfolding reattach preflight_round
  render_or_reattach r project none = preflight_round r project
  render_or_reattach r project (some render) = reattach r render

  unfoldable pub preflight_step : Workflow → Run R Round
  unfolding approved_short render_or_reattach
  preflight_step r = do
    id ← present r.short_id not_found
    held ← query (λ db. get_short db id)
    project ← approved_short held
    existing ← gets (λ w. newest_render (reusable_at project.id project.revision) w.db.renders)
    render_or_reattach r project existing

  abbrev pub progress_of : Option Job → ℕ
  progress_of none = 0
  progress_of (some j) = j.progress

  unfoldable pub still_rendering : Workflow → Run R Round
  still_rendering r = do
    job ← gets (job_found r.render_job_id)
    done_at
        (update r.id r.revision (λ w. record w { progress = 720000 + progress_of job * 22 / 100 }))

  unfoldable pub render_round : Workflow → RenderState → Run R Round
  unfolding still_rendering
  render_round r RenderState.failed =
      throw (record { code = dependency_unavailable; retryable = true })
  render_round r RenderState.stale =
      throw (record { code = dependency_unavailable; retryable = true })
  render_round r RenderState.cancelled = throw (fault_of job_cancelled)
  render_round r RenderState.queued = still_rendering r
  render_round r RenderState.running = still_rendering r
  render_round r RenderState.succeeded =
      if is_some r.input.export_directory
      then again_at (
          update r.id r.revision
            (λ w. record w { state = WorkflowState.exporting; progress = 960000 }))
      else done_at (
          update r.id r.revision
            (λ w. record w { state = WorkflowState.completed; progress = 1000000 }))

  unfoldable pub render_step : Workflow → Run R Round
  unfolding render_round
  render_step r = do
    id ← present r.render_id not_found
    render ← query (λ db. get_render db id)
    render_round r render.state

  unfoldable pub copied_to : Text × Text → Copying → Run R (Text × Text)
  copied_to destination Copying.copied = pure destination
  copied_to destination Copying.exists = throw (fault_of invalid_state)
  copied_to destination Copying.broken =
      throw (record { code = dependency_unavailable; retryable = true })

  unfoldable pub export_render : ExportInput → Run R (Text × Text)
  unfolding copied_to
  export_render input = do
    demand core.has_artifacts dependency_unavailable
    render ← query (λ db. get_render db input.render_id)
    demand (is_exportable render) invalid_state
    demand (not (any is_dots (split_slash (portable input.directory)))) validation_error
    held ← core.find_directory input.directory
    directory ← found held not_found
    let name = or_else input.filename (export_name (core.id_text render.id))
    demand (is_plain_mp4 name) validation_error
    output ← found render.output_path invalid_state
    result ← core.copy_file output (directory, name)
    copied_to (directory, name) result

  abbrev pub complete_export : Workflow → Text × Text → Run R Round
  complete_export r path = done_at (
      update r.id r.revision (λ w. record w {
        state = WorkflowState.completed;
        progress = 1000000;
        export_path = some path;
      }))

  -- The file that an earlier run has exported already, if it is the Render's.
  unfoldable pub recovered : Render → Text × Text → Run R Bool
  recovered render path = do
    hash ← core.file_hash path
    pure (is_some render.content_hash && option_eq hash render.content_hash)

  unfoldable pub export_anew : Workflow → ℕ → Text → Run R Round
  unfolding export_render
  export_anew r id target = do
    path ← export_render (record { render_id = id; directory = target; filename = none })
    complete_export r path

  unfoldable pub export_step : Workflow → Run R Round
  unfolding recovered export_anew
  export_step r = do
    id ← present r.render_id not_found
    render ← query (λ db. get_render db id)
    target ← found r.input.export_directory internal_error
    held ← core.find_directory target
    directory ← found held internal_error
    let path : Text × Text = (directory, export_name (core.id_text id))
    exported ← recovered render path
    let exports = export_anew r id target
    let recovers = rescue (complete_export r path) exports
    if exported then recovers else exports
