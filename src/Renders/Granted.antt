-- ===== src/Renders/Granted.antt =====
-- src/core/repository.ts, `startRenderAttempt` and `retryRenderAttempt`, described without them: what
-- a new attempt may be granted on, and what it leaves in the tables.
use short_editor.Prelude.{ℕ, ◌+◌, ◌<◌, ◌≡◌, ◌⊎◌, true, [], ◌∷◌, ◌++◌, none, some}
use short_editor.Store.{Db, Short, Render, RenderState, Preflight, JobType, JobState, ok}
use short_editor.Shorts.{get_short}
use short_editor.Renders.{Attempt, RenderStart, get_render, get_preflight, max_attempt}

-- A preflight of the Short at the revision, that has passed.
pub record IsPassed (db : Db) (preflight_id short_id revision : ℕ) (p : Preflight) : Type 0 where
  pub on_record : get_preflight db preflight_id ≡ ok p
  pub passed : p.passed ≡ true
  pub of_short : p.short_id ≡ short_id
  pub of_revision : p.revision ≡ revision

-- What a start is granted on: the Short as it is approved, and a passed preflight of that revision.
pub record Granted (db : Db) (short_id revision preflight_id : ℕ) : Type 0 where
  pub short : Short
  pub preflight : Preflight
  pub held : get_short db short_id ≡ ok short
  pub current : short.revision ≡ revision
  pub approved : short.approved ≡ true
  pub checked : IsPassed db preflight_id short_id revision preflight

-- The tables after an attempt: its Render and its job come last, and nothing else changes.
pub record Written (db next : Db) (a : Attempt) : Type 0 where
  pub renders : next.renders ≡ db.renders ++ a.render ∷ []
  pub jobs : next.jobs ≡ db.jobs ++ a.job ∷ []
  pub shorts : next.shorts ≡ db.shorts
  pub episodes : next.episodes ≡ db.episodes
  pub entries : next.entries ≡ db.entries
  pub authorizations : next.authorizations ≡ db.authorizations
  pub preflights : next.preflights ≡ db.preflights

-- The Render is queued for the Short at the revision on the preflight, and the job is queued to
-- render it.
pub record IsQueuedAttempt (short_id revision preflight_id render_id job_id : ℕ) (a : Attempt)
    : Type 0 where
  pub id : a.render.id ≡ render_id
  pub of_short : a.render.short_id ≡ short_id
  pub of_revision : a.render.project_revision ≡ revision
  pub on_preflight : a.render.preflight_id ≡ some preflight_id
  pub state : a.render.state ≡ RenderState.queued
  pub no_output : a.render.output_path ≡ none
  pub of_job : a.job.id ≡ job_id
  pub job_type : a.job.type ≡ JobType.render
  pub job_state : a.job.state ≡ JobState.queued
  pub job_reference : a.job.payload_reference ≡ some render_id

-- A first attempt: number 1 of a lineage under its own id, decided by the preflight.
pub record Started (db next : Db) (input : RenderStart) (render_id job_id : ℕ) (a : Attempt)
    : Type 0 where
  pub granted : Granted db input.short_id input.expected_revision input.preflight_id
  pub queued :
      IsQueuedAttempt input.short_id input.expected_revision input.preflight_id render_id job_id a
  pub number : a.render.attempt ≡ 1
  pub lineage : a.render.lineage_id ≡ render_id
  pub previous : a.render.previous_render_id ≡ none
  pub decision : a.render.decision_hash ≡ some granted.preflight.snapshot_hash
  pub written : Written db next a

-- What a retry is granted on, an attempt that has failed or was cancelled, has number 1 or 2 and is
-- the last of its lineage, with what a start of its revision would be granted on; and the attempt
-- that comes of it.
pub record Retried (db : Db) (source_id render_id job_id : ℕ) (next : Db) (a : Attempt)
    : Type 0 where
  pub source : Render
  pub found : get_render db source_id ≡ ok source
  pub over : (source.state ≡ RenderState.failed) ⊎ (source.state ≡ RenderState.cancelled)
  pub last : max_attempt source.lineage_id db.renders ≡ source.attempt
  pub few : source.attempt < 3
  pub preflight_id : ℕ
  pub same_preflight : source.preflight_id ≡ some preflight_id
  pub granted : Granted db source.short_id source.project_revision preflight_id
  pub decided : source.decision_hash ≡ some granted.preflight.snapshot_hash
  pub queued :
      IsQueuedAttempt source.short_id source.project_revision preflight_id render_id job_id a
  pub number : a.render.attempt ≡ source.attempt + 1
  pub lineage : a.render.lineage_id ≡ source.lineage_id
  pub previous : a.render.previous_render_id ≡ some source.id
  pub decision : a.render.decision_hash ≡ source.decision_hash
  pub written : Written db next a
