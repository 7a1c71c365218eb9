-- ===== src/Jobs/Settling.antt =====
-- src/core/jobs.ts: the state in which `tick` leaves the job whose handler has ended.
use short_editor.Prelude.{
  ℕ, ◌==◌, ◌≡◌, ◌≢◌, refl, subst, inl, inr, true, false, ◌&&◌, Option, some, arith, find,
  find-update_where, ==_self, Bool-cases, Option-cases, ◌⊎◌, &&_both, sym,
}
use mathlib.Core.Option
use short_editor.Store.{Db, Job, Render, RenderState, JobType, JobState, ErrorCode}
use short_editor.Jobs
use short_editor.Jobs.{
  same_type, has_id, runs, completed, finally_cancelled, failed_with, render_completed,
  render_succeeded, render_is_succeeded, render_has_id,
}
use short_editor.Jobs.Runner.{Outcome, returned, threw, is_cancelled_error, settle}

-- The job is a render job, and the Render that it references has succeeded.
pub record HasRendered (db : Db) (j : Job) : Type 0 where
  pub renders : j.type ≡ JobType.render
  pub id : ℕ
  pub referenced : j.payload_reference ≡ some id
  pub render : Render
  pub found : find (λ r. r.id == id) db.renders ≡ some render
  pub succeeded : render.state ≡ RenderState.succeeded

-- The state that the runner owes to a job, by how its handler ended.
pub data Verdict (db : Db) (j : Job) : Outcome → JobState → Type 0 where
  done : j.cancel_requested ≡ false → Verdict db j returned JobState.succeeded
  done_in_time : HasRendered db j → Verdict db j returned JobState.succeeded
  stopped :
      j.cancel_requested ≡ true → ¬ HasRendered db j → Verdict db j returned JobState.cancelled
  stopped_by_error :
      (e : ErrorCode) → j.cancel_requested ≡ true → Verdict db j (threw e) JobState.cancelled
  gave_up : Verdict db j (threw ErrorCode.job_cancelled) JobState.cancelled
  broke :
      (e : ErrorCode)
      → e ≢ ErrorCode.job_cancelled
      → j.cancel_requested ≡ false
      → Verdict db j (threw e) JobState.failed

abbrev pub state_of : ℕ → Db → Option JobState
state_of id db = Option.map (λ j. j.state) (find (has_id id) db.jobs)

type-render : (t : JobType) → same_type t JobType.render ≡ true → t ≡ JobType.render
type-render JobType.render h = refl
type-render _ h = cc

succeeded-state : (s : RenderState) → render_is_succeeded s ≡ true → s ≡ RenderState.succeeded
succeeded-state RenderState.succeeded h = refl
succeeded-state _ h = cc

succeeded_render :
    (db : Db) (id : ℕ)
    → render_succeeded db id ≡ true
    → (r : Render) × (find (render_has_id id) db.renders ≡ some r)
      × (r.state ≡ RenderState.succeeded)
succeeded_render db id h = elim (Option-cases (find (render_has_id id) db.renders)) [
  | inl absent ↦ cc (rw (absent, render_succeeded) at h)
  | inr (r, found) ↦ (r, found, succeeded-state r.state (rw (found, render_succeeded) at h))
]

cancelled_error-cases :
    (e : ErrorCode)
    → (e ≡ ErrorCode.job_cancelled)
      ⊎ ((is_cancelled_error e ≡ false) × (e ≢ ErrorCode.job_cancelled))
cancelled_error-cases ErrorCode.job_cancelled = inl refl
cancelled_error-cases _ = inr (refl, λ same. cc)

module _ (db : Db) (j : Job) (now : ℕ) (held : find (has_id j.id) db.jobs ≡ some j)
    (running : j.state ≡ JobState.running) where
  ended :
      (f : Job → Job)
      → ((k : Job) → (f k).id ≡ k.id)
      → find (has_id j.id) (Jobs.update_jobs (runs j.id) f db).jobs ≡ some (f j)
  ended f same = rw (
    find-update_where (has_id j.id) (runs j.id) f db.jobs (λ k hit. rw (same k)),
    held,
    ==_self j.id,
    running,
  )

  complete-state : state_of j.id (Jobs.complete db j.id now) ≡ some JobState.succeeded
  unfolding Jobs.complete
  complete-state = rw (ended (completed now) (λ k. refl))

  finalize_cancelled-state :
      state_of j.id (Jobs.finalize_cancelled db j.id now) ≡ some JobState.cancelled
  unfolding Jobs.finalize_cancelled
  finalize_cancelled-state = rw (ended (finally_cancelled now) (λ k. refl))

  fail_job-state :
      (e : ErrorCode) → state_of j.id (Jobs.fail_job db j.id e now) ≡ some JobState.failed
  unfolding Jobs.fail_job
  fail_job-state e = rw (ended (failed_with e now) (λ k. refl))

  requested : Jobs.cancellation_requested db j.id ≡ j.cancel_requested
  unfolding Jobs.cancellation_requested
  requested = rw (held, Jobs.cancellation_requested)

  rendered :
      same_type j.type JobType.render ≡ true → render_completed db j.id ≡ true → HasRendered db j
  unfolding render_completed
  rendered render h = elim (Option-cases j.payload_reference) [
    | inl none_given ↦ cc (rw (held, none_given, render_completed) at h)
    | inr (id, given) ↦
        let there : render_succeeded db id ≡ true = rw (held, given, render_completed) at h in
        let (r, found, state) = succeeded_render db id there in
        record {
          renders = type-render j.type render;
          id = id;
          referenced = given;
          render = r;
          found = found;
          succeeded = state;
        }
  ]

  HasRendered-completed :
      HasRendered db j → (same_type j.type JobType.render && render_completed db j.id) ≡ true
  unfolding render_completed
  HasRendered-completed r =
      rw (held, r.renders, r.referenced, r.found, r.succeeded, render_completed, render_succeeded)

  -- A running job, found under its id, ends in one of three states. Succeeded: the handler has
  -- returned, and no cancel was requested or it is a render job whose Render has
  -- succeeded. Cancelled: the handler has returned, a cancel was requested, and there is no such
  -- Render; or it threw, and a cancel was requested or the error was `job_cancelled`. Failed: it
  -- threw another error, and no cancel was requested.
  pub settle-Verdict :
      (o : Outcome)
      → (s : JobState) × (state_of j.id (settle db j o now) ≡ some s) × Verdict db j o s
  unfolding settle
  settle-Verdict returned = elim (Bool-cases j.cancel_requested) [
    | inl asked ↦ elim (Bool-cases (same_type j.type JobType.render && render_completed db j.id)) [
      | inl late ↦
          let (render, succeeded) = &&_both _ _ late in
          (
            JobState.succeeded,
            rw (requested, asked, late) complete-state,
            done_in_time (rendered render succeeded),
          )
      | inr unfinished ↦ (
        JobState.cancelled,
        rw (requested, asked, unfinished) finalize_cancelled-state,
        stopped asked (λ r. cc (HasRendered-completed r, unfinished)),
      )
    ]
    | inr unasked ↦ (JobState.succeeded, rw (requested, unasked) complete-state, done unasked)
  ]
  settle-Verdict (threw e) = elim (Bool-cases j.cancel_requested) [
    | inl asked ↦ (
      JobState.cancelled,
      rw (requested, asked) (ground (arith, finalize_cancelled-state)),
      stopped_by_error e asked,
    )
    | inr unasked ↦ elim (cancelled_error-cases e) [
      | inl own ↦ (
        JobState.cancelled,
        rw (requested, unasked, own) finalize_cancelled-state,
        subst (λ c. Verdict db j (threw c) JobState.cancelled) (sym own) gave_up,
      )
      | inr (other, differs) ↦ (
        JobState.failed,
        rw (requested, unasked, other) (fail_job-state e),
        broke e differs unasked,
      )
    ]
  ]
