-- ===== src/Renders.antt =====
-- src/core/repository.ts: the attempts to render a Short. An attempt is a row of `renders` with a job;
-- the attempts that retry one another share a lineage. Argument `render_id` and `job_id` stand for
-- `randomUUID()` and `now` for the clock.
pub mod Transition
pub mod Moves
pub mod Granted
pub mod Granting
pub mod Lineage
pub mod Completion
pub mod Reproducible
use Prim.Native.String.{String}
use short_editor.Prelude.{
  ℕ, ◌+◌, ◌==◌, max, if◌then◌else◌, Bool, true, false, not, ◌&&◌, ◌||◌, leb, ltb, List, [], ◌∷◌,
  ◌++◌, Option, none, some, find, any, update_where, option_eq, or_else, is_some, count_where,
}
use short_editor.Store.{
  Db, Short, Job, JobType, JobState, Render, RenderState, Preflight, Provider, Payload, snapshot,
  RenderSnapshot, SidecarFormat, Comparison, Evidence, Determinism, ErrorCode, revision_conflict,
  not_found, validation_error, invalid_state, job_cancelled, artifact_corrupt, Result, ok, fail,
  ◌>>=◌, ◌>>◌, require, found_or,
}
use short_editor.Jobs.{insert_job, render_has_id, same_type, has_id}
use short_editor.Shorts.{get_short}

unfoldable pub get_render : Db → ℕ → Result Render
get_render db id = found_or (find (render_has_id id) db.renders) not_found

unfoldable pub get_preflight : Db → ℕ → Result Preflight
get_preflight db id = found_or (find (λ (p : Preflight). p.id == id) db.preflights) not_found

unfoldable pub insert_render : Db → Render → Db
insert_render db r = record db { renders = db.renders ++ r ∷ [] }

abbrev pub new_render : ℕ → ℕ → ℕ → ℕ → Option ℕ → ℕ → Option ℕ → Option ℕ → ℕ → Render
new_render id short_id revision lineage previous attempt preflight decision now = record {
  id = id;
  short_id = short_id;
  project_revision = revision;
  lineage_id = lineage;
  previous_render_id = previous;
  attempt = attempt;
  preflight_id = preflight;
  output_path = none;
  sidecar_path = none;
  state = RenderState.queued;
  error_code = none;
  content_hash = none;
  decision_hash = decision;
  determinism = none;
  valid = none;
  created_at = now;
  updated_at = now;
}

abbrev pub new_render_job : ℕ → RenderSnapshot → ℕ → Job
new_render_job id s now = record {
  id = id;
  type = JobType.render;
  entity_id = some s.short_id;
  provider = some Provider.local;
  state = JobState.queued;
  progress = 0;
  stage = "queued";
  attempts = 0;
  cancel_requested = false;
  error_code = none;
  payload_reference = some s.render_id;
  payload = snapshot s;
  created_at = now;
  updated_at = now;
}

pub record Attempt : Type 0 where
  pub render : Render
  pub job : Job

abbrev pub write_attempt : Db → Attempt → Db
write_attempt db a = insert_job (insert_render db a.render) a.job

abbrev pub preflight_ok : Preflight → ℕ → ℕ → Bool
preflight_ok p short_id revision = p.passed && p.short_id == short_id && p.revision == revision

pub record RenderStart : Type 0 where
  pub short_id : ℕ
  pub expected_revision : ℕ
  pub preflight_id : ℕ
  pub sidecar_format : Option SidecarFormat

abbrev pub first_attempt : RenderStart → Preflight → ℕ → ℕ → ℕ → Attempt
first_attempt input preflight render_id job_id now = record {
  render =
      new_render render_id input.short_id input.expected_revision render_id none 1
        (some input.preflight_id) (some preflight.snapshot_hash) now;
  job =
      new_render_job job_id
        (record {
          short_id = input.short_id;
          project_revision = input.expected_revision;
          render_id = render_id;
          preflight_id = input.preflight_id;
          sidecar_format = input.sidecar_format;
        })
        now;
}

unfoldable pub start_render_attempt : Db → RenderStart → ℕ → ℕ → ℕ → Result (Db × Attempt)
start_render_attempt db input render_id job_id now = do
  project ← get_short db input.short_id
  require (project.revision == input.expected_revision) revision_conflict
  require project.approved invalid_state
  preflight ← get_preflight db input.preflight_id
  require (preflight_ok preflight input.short_id input.expected_revision) invalid_state
  let attempt = first_attempt input preflight render_id job_id now
  ok (write_attempt db attempt, attempt)

abbrev pub in_lineage : ℕ → Render → Bool
in_lineage lineage r = r.lineage_id == lineage

-- `MAX(attempt)` of the lineage.
abbrev pub max_attempt : ℕ → List Render → ℕ
max_attempt lineage [] = 0
max_attempt lineage (r ∷ rs) =
    let rest = max_attempt lineage rs in if in_lineage lineage r then max r.attempt rest else rest

abbrev pub retryable_state : RenderState → Bool
retryable_state RenderState.failed = true
retryable_state RenderState.cancelled = true
retryable_state _ = false

abbrev pub is_stale : RenderState → Bool
is_stale RenderState.stale = true
is_stale _ = false

-- `ORDER BY created_at DESC LIMIT 1`
unfoldable pub newest : (Job → Bool) → List Job → Option Job
newest p [] = none
newest p (j ∷ js) = elim (newest p js) [
  | none ↦ if p j then some j else none
  | some k ↦ if p j && leb k.created_at j.created_at then some j else some k
]

-- `WHERE payload_reference=? AND type='render'`
abbrev pub renders_job : ℕ → Job → Bool
renders_job id j = option_eq j.payload_reference (some id) && same_type j.type JobType.render

-- The snapshot that the job of the source attempt was given.
abbrev pub snapshot_of : Payload → Option RenderSnapshot
snapshot_of (snapshot s) = some s
snapshot_of _ = none

abbrev pub next_attempt : Render → ℕ → RenderSnapshot → ℕ → ℕ → ℕ → Attempt
next_attempt source preflight s render_id job_id now = record {
  render =
      new_render render_id source.short_id source.project_revision source.lineage_id
        (some source.id) (source.attempt + 1) (some preflight) source.decision_hash now;
  job =
      new_render_job job_id
        (record {
          short_id = source.short_id;
          project_revision = source.project_revision;
          render_id = render_id;
          preflight_id = preflight;
          sidecar_format = s.sidecar_format;
        })
        now;
}

-- The end of `retryRenderAttempt`: the snapshot of the source attempt and its preflight still hold.
unfoldable pub retry_from : Db → Render → ℕ → ℕ → ℕ → ℕ → Result (Db × Attempt)
retry_from db source preflight_id render_id job_id now = do
  job ← found_or (newest (renders_job source.id) db.jobs) invalid_state
  s ← found_or (snapshot_of job.payload) invalid_state
  require (s.preflight_id == preflight_id && s.project_revision == source.project_revision)
      invalid_state
  preflight ← get_preflight db preflight_id
  require
      (preflight_ok preflight source.short_id source.project_revision
        && option_eq source.decision_hash (some preflight.snapshot_hash))
      invalid_state
  let attempt = next_attempt source preflight_id s render_id job_id now
  ok (write_attempt db attempt, attempt)

unfoldable pub retry_render_attempt : Db → ℕ → ℕ → ℕ → ℕ → Result (Db × Attempt)
retry_render_attempt db source_id render_id job_id now = do
  source ← get_render db source_id
  project ← get_short db source.short_id
  require (not (is_stale source.state)) revision_conflict
  require (retryable_state source.state) invalid_state
  preflight_id ← found_or source.preflight_id invalid_state
  require (project.revision == source.project_revision) revision_conflict
  require project.approved revision_conflict
  require (max_attempt source.lineage_id db.renders == source.attempt) invalid_state
  require (ltb (count_where (in_lineage source.lineage_id) db.renders) 3 && ltb source.attempt 3)
      invalid_state
  retry_from db source preflight_id render_id job_id now
