-- ===== src/Jobs/Recovery.antt =====
-- src/core/repository.ts, `recoverJobs`: the jobs and the Renders that a run of the application left
-- behind are settled at the start of the next. The database comes with the number of the changes
-- that the call returns.
use Prim.Native.String.{String}
use short_editor.Prelude.{
  ℕ, ◌+◌, if◌then◌else◌, Bool, true, false, not, ◌&&◌, ◌||◌, ltb, List, [], ◌∷◌, Option, none, some,
  any, find, update_where, count_where, option_eq, or_else,
}
use short_editor.Store.{
  Db, Job, JobType, JobState, Render, RenderState, Provider, ErrorCode, job_cancelled,
  internal_error, revision_conflict,
}
use short_editor.Jobs.{
  has_id, render_has_id, render_is_queued, render_is_running, same_type, is_running, is_open, whole,
  update_jobs,
}

abbrev pub is_cancelled : JobState → Bool
is_cancelled JobState.cancelled = true
is_cancelled _ = false

abbrev pub is_render : Job → Bool
is_render j = same_type j.type JobType.render

abbrev pub Tally : Type 0
Tally = Db × ℕ

-- `UPDATE jobs SET ... WHERE ...`, with the rows that it changes counted.
abbrev pub change_jobs : (Job → Bool) → (Job → Job) → Tally → Tally
change_jobs p f t = (update_jobs p f t.0, t.1 + count_where p t.0.jobs)

abbrev pub update_renders : (Render → Bool) → (Render → Render) → Db → Db
update_renders p f db = record db { renders = update_where p f db.renders }

abbrev pub change_renders : (Render → Bool) → (Render → Render) → Tally → Tally
change_renders p f t = (update_renders p f t.0, t.1 + count_where p t.0.renders)

-- A row of the join: a job, and the Render that its `payload_reference` names.
abbrev pub Pair : Type 0
Pair = Job × Option Render

abbrev pub render_of : Db → Job → Option Render
render_of db j = elim j.payload_reference [
  | none ↦ none
  | some id ↦ find (render_has_id id) db.renders
]

unfoldable pub pairs : Db → List Job → List Pair
pairs db [] = []
pairs db (j ∷ js) =
    let rest = pairs db js in
    if is_render j && is_open j.state then (j, render_of db j) ∷ rest else rest

abbrev pub ended_as : JobState → String → Option ErrorCode → ℕ → Job → Job
ended_as state stage error now j = record j {
  state = state;
  stage = stage;
  error_code = error;
  updated_at = now;
}

abbrev pub recovery_required : ℕ → Job → Job
recovery_required = ended_as JobState.failed "recovery_required" (some internal_error)

abbrev pub recovered_cancel : ℕ → Job → Job
recovered_cancel = ended_as JobState.cancelled "cancelled" (some job_cancelled)

abbrev pub recovered_success : ℕ → Job → Job
recovered_success now j = record j {
  state = JobState.succeeded;
  progress = whole;
  stage = "complete";
  error_code = none;
  updated_at = now;
}

abbrev pub requeued : ℕ → Job → Job
requeued = ended_as JobState.queued "recovered" none

-- `WHERE id=? AND state IN ('queued','running')`
abbrev pub opens_id : ℕ → Job → Bool
opens_id id j = has_id id j && is_open j.state

abbrev pub runs_id : ℕ → Job → Bool
runs_id id j = has_id id j && is_running j.state

abbrev pub render_ended_as : RenderState → ErrorCode → ℕ → Render → Render
render_ended_as state error now r = record r {
  state = state;
  error_code = some error;
  updated_at = now;
}

abbrev pub interrupted : ℕ → Render → Render
interrupted now r = record r {
  state = RenderState.failed;
  output_path = none;
  sidecar_path = none;
  content_hash = none;
  error_code = some internal_error;
  updated_at = now;
}

-- The Render was still queued: its job is tried again, up to three times.
abbrev pub recover_queued : ℕ → Job → Render → Tally → Tally
recover_queued now j r (db, n) =
    if is_running j.state
    then (if ltb j.attempts 3
        then change_jobs (runs_id j.id) (requeued now) (db, n)
        else change_jobs (runs_id j.id) (recovery_required now) (
          update_renders (λ x. render_has_id r.id x && render_is_queued x.state)
              (render_ended_as RenderState.failed internal_error now) db,
          n,
        ))
    else (db, n)

-- The branches on `render_state`, here the last argument but one.
unfoldable pub recover_settled : ℕ → Job → Render → RenderState → Tally → Tally
recover_settled now j r RenderState.succeeded t =
    change_jobs (opens_id j.id) (recovered_success now) t
recover_settled now j r RenderState.cancelled t =
    change_jobs (opens_id j.id) (recovered_cancel now) t
recover_settled now j r RenderState.stale t =
    change_jobs (opens_id j.id) (ended_as JobState.failed "failed" (some revision_conflict) now) t
recover_settled now j r RenderState.failed t =
    change_jobs (opens_id j.id)
      (ended_as JobState.failed "failed" (some (or_else r.error_code internal_error)) now) t
recover_settled now j r RenderState.queued t = recover_queued now j r t
recover_settled now j r RenderState.running t =
    change_jobs (opens_id j.id) (recovery_required now)
      (change_renders (λ x. render_has_id r.id x && render_is_running x.state) (interrupted now) t)

-- The first branch that holds, as in the body of the loop.
unfoldable pub recover_pair : ℕ → Pair → Tally → Tally
recover_pair now (j, none) t = change_jobs (has_id j.id) (recovery_required now) t
recover_pair now (j, some r) t =
    if j.cancel_requested || is_cancelled j.state
    then change_jobs (opens_id j.id) (recovered_cancel now) (
        change_renders
          (λ x. render_has_id r.id x && (render_is_queued x.state || render_is_running x.state))
          (render_ended_as RenderState.cancelled job_cancelled now) t)
    else recover_settled now j r r.state t

unfoldable pub recover_pairs : ℕ → List Pair → Tally → Tally
recover_pairs now [] t = t
recover_pairs now (p ∷ ps) t = recover_pairs now ps (recover_pair now p t)

-- A Render in the queue whose job has been cancelled.
abbrev pub cancels_render : List Job → Render → Bool
cancels_render jobs r =
    render_is_queued r.state
    && any
        (λ j.
          is_render j
          && is_cancelled j.state
          && j.cancel_requested
          && option_eq j.payload_reference (some r.id))
        jobs

abbrev pub is_local : Option Provider → Bool
is_local (some Provider.local) = true
is_local _ = false

-- The types of jobs that may be run again.
abbrev pub is_repeatable : Job → Bool
is_repeatable j =
    same_type j.type JobType.probe
    || same_type j.type JobType.hash
    || same_type j.type JobType.candidates
    || same_type j.type JobType.watched_folder_scan
    || same_type j.type JobType.source_reconcile
    || (same_type j.type JobType.analyze && is_local j.provider)

abbrev pub runs_other : Job → Bool
runs_other j = not (is_render j) && is_running j.state

unfoldable pub recover_others : ℕ → Tally → Tally
recover_others now t =
    change_jobs (λ j. runs_other j && not j.cancel_requested) (recovery_required now)
      (change_jobs
        (λ j. runs_other j && not j.cancel_requested && ltb j.attempts 3 && is_repeatable j)
        (requeued now)
        (change_jobs (λ j. runs_other j && j.cancel_requested) (recovered_cancel now)
          (change_renders (cancels_render t.0.jobs)
            (render_ended_as RenderState.cancelled job_cancelled now) t)))

unfoldable pub recover_jobs : Db → ℕ → Tally
recover_jobs db now = recover_others now (recover_pairs now (pairs db db.jobs) (db, 0))
