-- ===== src/Jobs/Runner.antt =====
-- src/core/jobs.ts, the class `JobRunner`: one handler runs at a time, and any other call may come
-- between its start and its end. A handler is known by what it does to the database and by how it
-- ends.
use short_editor.Prelude.{
  ℕ, if◌then◌else◌, Bool, true, false, ◌&&◌, ◌||◌, Option, none, some, is_some,
}
use short_editor.Store.{Db, Job, JobType, ErrorCode}
use short_editor.Jobs.{
  same_type, claim_next, complete, finalize_cancelled, fail_job, cancellation_requested,
  render_completed,
}

pub record Runner : Type 0 where
  pub db : Db
  pub claimed : Option Job  -- `working`, with the job of the call in progress
  pub stopping : Bool
  pub ticking : Bool  -- `timer`

pub data Outcome : Type 0 where
  returned : Outcome
  threw : ErrorCode → Outcome

abbrev pub is_cancelled_error : ErrorCode → Bool
is_cancelled_error ErrorCode.job_cancelled = true
is_cancelled_error _ = false

module _ (available : ℕ → Bool) where
  -- `tick`, up to the call of the handler.
  unfoldable pub begin_tick : Runner → ℕ → Runner
  begin_tick r now =
      if is_some r.claimed || r.stopping
      then r
      else (let (db, job) = claim_next available r.db now in record r { db = db; claimed = job })

-- What the `try` and the `catch` do with the outcome of the handler of job `j`.
unfoldable pub settle : Db → Job → Outcome → ℕ → Db
settle db j returned now =
    if cancellation_requested db j.id
    then (if same_type j.type JobType.render && render_completed db j.id
        then complete db j.id now
        else finalize_cancelled db j.id now)
    else complete db j.id now
settle db j (threw e) now =
    if is_cancelled_error e || cancellation_requested db j.id
    then finalize_cancelled db j.id now
    else fail_job db j.id e now

-- With no handler for the type of the job, `tick` throws in its place.
abbrev pub handled : (JobType → Bool) → Job → Outcome → Outcome
handled installed j outcome =
    if installed j.type then outcome else threw ErrorCode.dependency_unavailable

-- `tick`, from the end of the handler.
unfoldable pub end_tick : (JobType → Bool) → Runner → Outcome → ℕ → Runner
end_tick installed r outcome now = elim r.claimed [
  | none ↦ r
  | some j ↦ record r { db = settle r.db j (handled installed j outcome) now; claimed = none }
]

-- `start` also calls `tick`, which is a step of its own.
unfoldable pub start : Runner → Runner
start r = if r.ticking then r else record r { stopping = false; ticking = true }

unfoldable pub stop : Runner → Runner
stop r = record r { stopping = true; ticking = false }
