-- ===== src/Workflows/Calls.antt =====
-- src/core/short-workflows.ts: the loop of `advance`, and the calls of the service.
use short_editor.Prelude.{
  ℕ, zero, suc, ◌==◌, if◌then◌else◌, Bool, true, false, ◌&&◌, ◌||◌, List, [], ◌∷◌, ◌++◌, Option,
  none, some, any, find, is_some, leb, ltb,
}
use short_editor.Store.{ErrorCode, internal_error}
use short_editor.Shorts.{get_short}
use short_editor.Renders.{get_render, get_preflight}
use short_editor.Workflows.{
  gets, WorkflowState, WorkflowInput, Workflow, World, Fault, Outcome, returned, threw, Run,
  fault_of, pure, query, call, ◌>>=◌, ◌>>◌, draw, now, is_active, RequestKey, keyed, described,
  Core,
}
use short_editor.Workflows.Rows.{read, update}
use short_editor.Workflows.Steps.{
  Round, again, done, import_step, analysis_step, selection_step, assembly_step,
}
use short_editor.Workflows.Finishing.{preflight_step, render_step, export_step}

abbrev pub request_key : WorkflowInput → WorkflowInput → RequestKey
request_key input resolved = elim input.idempotency_key [
  | some key ↦ keyed key
  | none ↦ described resolved
]

abbrev pub same_request : ℕ → Workflow → Bool
same_request hash r = r.request_hash == hash

abbrev pub new_workflow : ℕ → ℕ → WorkflowInput → ℕ → Workflow
new_workflow id hash input time = record {
  id = id;
  request_hash = hash;
  state = WorkflowState.importing;
  revision = 1;
  input = input;
  progress = 20000;
  graphics_proposal = [];
  episode_id = none;
  analysis_job_id = none;
  candidate_id = none;
  short_id = none;
  preflight_id = none;
  render_id = none;
  render_job_id = none;
  export_path = none;
  failure = none;
  created_at = time;
  updated_at = time;
}

-- `normalized.retryable || [...].includes(normalized.code)`
abbrev pub may_retry : Fault → Bool
may_retry e = e.retryable || retryable_code e.code
  where
    retryable_code : ErrorCode → Bool
    retryable_code ErrorCode.dependency_unavailable = true
    retryable_code ErrorCode.source_missing = true
    retryable_code ErrorCode.internal_error = true
    retryable_code _ = false

abbrev pub with_failure : Fault → Workflow → Workflow
with_failure e r = record r {
  state = WorkflowState.failed;
  failure = some (record { code = e.code; retryable = may_retry e; stage = r.state });
}

abbrev pub is_rendering : WorkflowState → Bool
is_rendering WorkflowState.rendering = true
is_rendering _ = false

abbrev pub is_exporting : WorkflowState → Bool
is_exporting WorkflowState.exporting = true
is_exporting _ = false

abbrev pub is_analyzing : WorkflowState → Bool
is_analyzing WorkflowState.analyzing = true
is_analyzing _ = false

abbrev pub is_preflighting : WorkflowState → Bool
is_preflighting WorkflowState.preflighting = true
is_preflighting _ = false

abbrev pub is_awaiting : WorkflowState → Bool
is_awaiting WorkflowState.awaiting_review = true
is_awaiting _ = false

abbrev pub is_failed : WorkflowState → Bool
is_failed WorkflowState.failed = true
is_failed _ = false

-- `state NOT IN ('failed','cancelled','completed')` is `is_active`; by `updated_at` and then id.
abbrev pub comes_first : Workflow → Workflow → Bool
comes_first l r = ltb l.updated_at r.updated_at || (l.updated_at == r.updated_at && leb l.id r.id)

abbrev pub retry_state : Workflow → WorkflowState → WorkflowState
retry_state r stage =
    if is_rendering stage && is_some r.render_id
    then WorkflowState.preflighting
    else if is_exporting stage && is_some r.render_id
    then WorkflowState.exporting
    else if is_some r.short_id
    then WorkflowState.preflighting
    else if is_some r.candidate_id
    then WorkflowState.assembling_draft
    else if is_some r.episode_id
    then WorkflowState.selecting_candidate
    else WorkflowState.importing

abbrev pub progress_for : WorkflowState → ℕ
progress_for WorkflowState.importing = 20000
progress_for WorkflowState.analyzing = 120000
progress_for WorkflowState.selecting_candidate = 380000
progress_for WorkflowState.assembling_draft = 480000
progress_for WorkflowState.awaiting_review = 600000
progress_for WorkflowState.preflighting = 640000
progress_for WorkflowState.rendering = 720000
progress_for WorkflowState.exporting = 960000
progress_for WorkflowState.failed = 0
progress_for WorkflowState.cancelled = 0
progress_for WorkflowState.completed = 1000000

-- The action of `resume`.
pub data Resumption : Type 0 where
  approve_draft retry : Resumption

module _ {R : Type 0} (core : Core R) where
  unfoldable pub step_in : WorkflowState → Workflow → Run R Round
  step_in WorkflowState.importing r = import_step core r
  step_in WorkflowState.analyzing r = analysis_step core r
  step_in WorkflowState.selecting_candidate r = selection_step core r r.candidate_id
  step_in WorkflowState.assembling_draft r = assembly_step core r
  step_in WorkflowState.awaiting_review r = pure done
  step_in WorkflowState.preflighting r = preflight_step core r
  step_in WorkflowState.rendering r = render_step core r
  step_in WorkflowState.exporting r = export_step core r
  step_in WorkflowState.failed r = pure done
  step_in WorkflowState.cancelled r = pure done
  step_in WorkflowState.completed r = pure done

  abbrev pub go_on : Run R (Unit {0}) → Round → Run R (Unit {0})
  go_on rest again = rest
  go_on rest done = pure tt

  -- The loop, with the rounds that are left.
  unfoldable pub advance_for : ℕ → ℕ → Run R (Unit {0})
  advance_for zero id = pure tt
  advance_for (suc rounds) id = do
    r ← read id
    round ← step_in r.state r
    go_on (advance_for rounds id) round

  unfoldable pub advance : ℕ → Run R (Unit {0})
  unfolding advance_for
  advance id = advance_for 8 id

  unfoldable pub record_failure : ℕ → Fault → Run R (Unit {0})
  record_failure id e = do
    r ← read id
    let writes = update id r.revision (with_failure e)
    if is_active r.state then writes else pure tt

  abbrev pub caught : ℕ → World R × Outcome (Unit {0}) → World R × Outcome (Unit {0})
  caught id (w, returned nothing) = (w, returned tt)
  caught id (w, threw e) = record_failure id e w

  abbrev pub without : ℕ → List ℕ → List ℕ
  without id [] = []
  without id (x ∷ xs) = if x == id then without id xs else x ∷ without id xs

  -- `finally`
  abbrev pub released : ℕ → World R × Outcome (Unit {0}) → World R × Outcome (Unit {0})
  released id (w, outcome) = (record w { advancing = without id w.advancing }, outcome)

  unfoldable pub advance_safely : ℕ → Run R (Unit {0})
  unfolding advance record_failure
  advance_safely id w =
      if any (λ x. x == id) w.advancing
      then (w, returned tt)
      else released id (caught id (advance id (record w { advancing = id ∷ w.advancing })))

  abbrev pub checked : Option ℕ → (ℕ → Run R (Unit {0})) → Run R (Unit {0})
  checked none f = pure tt
  checked (some id) f = f id

  -- `hydrate`, of which only the reads may throw.
  unfoldable pub hydrate : Workflow → Run R Workflow
  hydrate r = do
    checked r.candidate_id (λ id. call (core.get_candidate id) >>= λ c. pure tt)
    checked r.short_id (λ id. query (λ db. get_short db id) >>= λ s. pure tt)
    checked r.preflight_id (λ id. query (λ db. get_preflight db id) >>= λ p. pure tt)
    checked r.render_id (λ id. query (λ db. get_render db id) >>= λ x. pure tt)
    pure r

  unfoldable pub get : ℕ → Run R Workflow
  unfolding advance_safely hydrate
  get id = do advance_safely id; r ← read id; hydrate r

  -- The INSERT fails where a row has the id or the hash.
  unfoldable pub insert_workflow : Workflow → Run R (Unit {0})
  insert_workflow r w =
      if any (λ (s : Workflow). s.id == r.id || s.request_hash == r.request_hash) w.workflows
      then (w, threw (fault_of internal_error))
      else (record w { workflows = w.workflows ++ r ∷ [] }, returned tt)

  unfoldable pub begin : ℕ → WorkflowInput → Run R Workflow
  unfolding insert_workflow get
  begin hash input = do
    time ← now
    id ← draw
    insert_workflow (new_workflow id hash input time)
    advance_safely id
    get id

  unfoldable pub get_or_begin : ℕ → WorkflowInput → Option Workflow → Run R Workflow
  unfolding begin
  get_or_begin hash input (some r) = get r.id
  get_or_begin hash input none = begin hash input

  abbrev pub request_hash : WorkflowInput → ℕ
  request_hash input =
      core.digest
        (request_key input (record input { source_path = core.resolve_path input.source_path }))

  unfoldable pub create : WorkflowInput → Run R Workflow
  unfolding get_or_begin
  create input = do
    existing ← gets (λ w. find (same_request (request_hash input)) w.workflows)
    get_or_begin (request_hash input) input existing
