-- ===== src/Renders/Transition.antt =====
-- src/core/repository.ts, `transitionRender` and `completeRenderAttempt`.
use short_editor.Prelude.{
  ℕ, ◌==◌, if◌then◌else◌, Bool, true, false, not, ◌&&◌, ◌||◌, leb, ltb, List, [], ◌∷◌, Option, none,
  some, find, any, update_where, option_eq, is_some,
}
use short_editor.Store.{
  Db, Short, Render, RenderState, Comparison, Evidence, Determinism, invalid_state,
  validation_error, job_cancelled, artifact_corrupt, Result, ok, ◌>>=◌, ◌>>◌, require, found_or,
}
use short_editor.Jobs.{render_has_id, render_is_running, has_id}
use short_editor.Shorts.{get_short}
use short_editor.Paths.{Text, validate_owned_relative_path}
use short_editor.Renders.{get_render}

abbrev pub state_code : RenderState → ℕ
state_code RenderState.queued = 0
state_code RenderState.running = 1
state_code RenderState.succeeded = 2
state_code RenderState.failed = 3
state_code RenderState.cancelled = 4
state_code RenderState.stale = 5

abbrev pub same_state : RenderState → RenderState → Bool
same_state a b = state_code a == state_code b

-- `undefined`, `null` or a path.
pub data PathPatch : Type 0 where
  keeps clears : PathPatch
  puts : Text → PathPatch

unfoldable pub patched_path : PathPatch → Option Text → Result (Option Text)
patched_path keeps current = ok current
patched_path clears current = ok none
patched_path (puts path) current = do owned ← validate_owned_relative_path path; ok (some owned)

-- `renderDeterminismSchema`: the baseline has no reference, and other evidence has one.
abbrev pub determinism_ok : Option Determinism → Bool
determinism_ok none = true
determinism_ok (some d) = elim d.comparison [
  | Comparison.baseline ↦ not (is_some d.reference_render_id)
  | _ ↦ is_some d.reference_render_id
]

-- `WHERE id=? AND state=?`
abbrev pub in_state : ℕ → RenderState → Render → Bool
in_state id state r = render_has_id id r && same_state r.state state

-- `set` writes the fields of the patch other than the paths.
unfoldable pub transition_render :
    Db
    → ℕ
    → (RenderState → Bool)
    → PathPatch
    → PathPatch
    → (Render → Render)
    → ℕ
    → Result (Db × Render)
transition_render db id allowed output sidecar set now = do
  current ← get_render db id
  require (allowed current.state) invalid_state
  output_path ← patched_path output current.output_path
  sidecar_path ← patched_path sidecar current.sidecar_path
  let changed = set current
  let next = record changed {
    output_path = output_path;
    sidecar_path = sidecar_path;
    updated_at = now;
  }
  require (determinism_ok next.determinism) validation_error
  require (any (in_state id current.state) db.renders) invalid_state
  ok (record db { renders = update_where (in_state id current.state) (λ _. next) db.renders }, next)

pub record Completion : Type 0 where
  pub output_path : Text
  pub sidecar_path : Option Text
  pub content_hash : ℕ
  pub valid : Bool
  pub evidence : Evidence

abbrev pub path_patch : Option Text → PathPatch
path_patch none = clears
path_patch (some path) = puts path

abbrev pub is_baseline : Option Determinism → Bool
is_baseline none = false
is_baseline (some d) = elim d.comparison [ Comparison.baseline ↦ true | _ ↦ false ]

abbrev pub has_identity : ℕ → Option Determinism → Bool
has_identity hash none = false
has_identity hash (some d) = d.evidence.identity_hash == hash

-- `WHERE id<>? AND state='succeeded' AND identityHash=?`
abbrev pub is_reference : ℕ → ℕ → Render → Bool
is_reference id hash r =
    not (render_has_id id r)
    && same_state r.state RenderState.succeeded
    && has_identity hash r.determinism

-- The order of the references: the baseline first, then by creation and id.
abbrev pub reference_before : Render → Render → Bool
reference_before r s =
    if is_baseline r.determinism
    then (if is_baseline s.determinism
        then ltb r.created_at s.created_at || (r.created_at == s.created_at && leb r.id s.id)
        else true)
    else if is_baseline s.determinism
    then false
    else ltb r.created_at s.created_at || (r.created_at == s.created_at && leb r.id s.id)

-- `ORDER BY ... LIMIT 1`
unfoldable pub first_reference : ℕ → ℕ → List Render → Option Render
first_reference id hash [] = none
first_reference id hash (r ∷ rs) = elim (first_reference id hash rs) [
  | none ↦ if is_reference id hash r then some r else none
  | some s ↦ if is_reference id hash r && reference_before r s then some r else some s
]

abbrev pub same_streams : Evidence → Evidence → Bool
same_streams a b =
    a.video_sha256 == b.video_sha256
    && a.video_bytes == b.video_bytes
    && a.audio_sha256 == b.audio_sha256
    && a.audio_bytes == b.audio_bytes

abbrev pub matches : Option Render → Evidence → Bool
matches none e = true
matches (some r) e = elim r.determinism [ none ↦ false | some d ↦ same_streams d.evidence e ]

abbrev pub compared : Option Render → Evidence → Determinism
compared none e = record {
  evidence = e;
  comparison = Comparison.baseline;
  reference_render_id = none;
}
compared (some r) e = record {
  evidence = e;
  comparison = if matches (some r) e then Comparison.matched else Comparison.mismatch;
  reference_render_id = some r.id;
}

-- The job of the attempt; `none` where no job id was given.
unfoldable pub check_job : Db → ℕ → Option ℕ → Result Bool
check_job db id none = ok false
check_job db id (some job_id) = do
  job ←
      found_or (find (λ j. has_id job_id j && option_eq j.payload_reference (some id)) db.jobs)
        invalid_state
  ok job.cancel_requested

abbrev pub settle_cancelled : Render → Render
settle_cancelled r = record r { state = RenderState.cancelled; error_code = some job_cancelled }

abbrev pub settle_stale : Bool → Render → Render
settle_stale valid r = record r { state = RenderState.stale; valid = some valid }

abbrev pub settle_mismatch : Determinism → Render → Render
settle_mismatch d r = record r {
  valid = some true;
  determinism = some d;
  content_hash = none;
  state = RenderState.failed;
  error_code = some artifact_corrupt;
}

abbrev pub settle_succeeded : Completion → Determinism → Render → Render
settle_succeeded c d r = record r {
  valid = some c.valid;
  content_hash = some c.content_hash;
  determinism = some d;
  state = RenderState.succeeded;
  error_code = none;
}

-- The end of `completeRenderAttempt`: comparison with the reference, and the final state.
unfoldable pub conclude : Db → ℕ → Completion → ℕ → Result (Db × Render)
conclude db id c now =
    let reference = first_reference id c.evidence.identity_hash db.renders in
    let d = compared reference c.evidence in
    if matches reference c.evidence
    then transition_render db id render_is_running (puts c.output_path) (path_patch c.sidecar_path)
        (settle_succeeded c d) now
    else transition_render db id render_is_running clears clears (settle_mismatch d) now

-- `WHERE id=?` of the Short: is it approved, at the revision that the job was given?
abbrev pub is_approved_at : Short → ℕ → Bool
is_approved_at project expected = project.revision == expected && project.approved

unfoldable pub complete_render_attempt :
    Db → ℕ → ℕ → Completion → Option ℕ → ℕ → Result (Db × Render)
complete_render_attempt db id expected c job_id now = do
  render ← get_render db id
  require (render_is_running render.state) invalid_state
  cancelled ← check_job db id job_id
  let cancels = transition_render db id render_is_running keeps keeps settle_cancelled now
  let stales = transition_render db id render_is_running keeps keeps (settle_stale c.valid) now
  let concludes = require c.valid validation_error >> conclude db id c now
  if cancelled then cancels else (do
    project ← get_short db render.short_id
    if is_approved_at project expected then concludes else stales)
