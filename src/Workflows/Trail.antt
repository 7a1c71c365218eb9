-- ===== src/Workflows/Trail.antt =====
-- src/core/short-workflows.ts: what becomes of the row of a workflow, over any calls.
use short_editor.Prelude.{
  ℕ, ◌+◌, ◌≡◌, ◌<◌, ◌⊎◌, refl, inl, inr, Bool, true, false, not, ◌&&◌, ◌||◌, List, Option, none,
  some, find, is_some, arith,
}
use short_editor.Workflows.{WorkflowState, Failure, Workflow, is_active}
use short_editor.Workflows.Rows.{workflow_has_id}

-- The states that a state may be followed by.
abbrev pub may_follow : WorkflowState → WorkflowState → Bool
may_follow WorkflowState.importing WorkflowState.analyzing = true
may_follow WorkflowState.importing WorkflowState.selecting_candidate = true
may_follow WorkflowState.analyzing WorkflowState.analyzing = true
may_follow WorkflowState.analyzing WorkflowState.selecting_candidate = true
may_follow WorkflowState.selecting_candidate WorkflowState.selecting_candidate = true
may_follow WorkflowState.selecting_candidate WorkflowState.assembling_draft = true
may_follow WorkflowState.assembling_draft WorkflowState.awaiting_review = true
may_follow WorkflowState.assembling_draft WorkflowState.preflighting = true
may_follow WorkflowState.awaiting_review WorkflowState.preflighting = true
may_follow WorkflowState.preflighting WorkflowState.preflighting = true
may_follow WorkflowState.preflighting WorkflowState.rendering = true
may_follow WorkflowState.rendering WorkflowState.rendering = true
may_follow WorkflowState.rendering WorkflowState.exporting = true
may_follow WorkflowState.rendering WorkflowState.completed = true
may_follow WorkflowState.exporting WorkflowState.completed = true
may_follow WorkflowState.failed WorkflowState.failed = false
may_follow WorkflowState.failed WorkflowState.cancelled = false
may_follow WorkflowState.failed WorkflowState.completed = false
may_follow WorkflowState.failed WorkflowState.awaiting_review = false
may_follow WorkflowState.failed s = true
may_follow s WorkflowState.failed = is_active s
may_follow s WorkflowState.cancelled = is_active s
may_follow r s = false

-- The columns that `advance` reads in a state with a `!`.
abbrev pub refers : WorkflowState → Workflow → Bool
refers WorkflowState.analyzing r = is_some r.episode_id && is_some r.analysis_job_id
refers WorkflowState.selecting_candidate r = is_some r.episode_id
refers WorkflowState.assembling_draft r = is_some r.candidate_id
refers WorkflowState.awaiting_review r = is_some r.short_id
refers WorkflowState.preflighting r = is_some r.short_id
refers WorkflowState.rendering r = is_some r.short_id && is_some r.render_id
refers WorkflowState.exporting r =
    is_some r.short_id && is_some r.render_id && is_some r.input.export_directory
refers _ r = true

abbrev pub failure_refers : Option Failure → Workflow → Bool
failure_refers none r = false
failure_refers (some f) r = is_active f.stage && refers f.stage r

abbrev pub state_refers : WorkflowState → Workflow → Bool
state_refers WorkflowState.failed r = failure_refers r.failure r
state_refers s r = refers s r

-- A Short is of a candidate, and a candidate of an Episode; and the columns that the state wants are
-- there, or, in a failed workflow, those that the stage wants at which it failed.
abbrev pub is_sound_row : Workflow → Bool
is_sound_row r =
    (not (is_some r.short_id) || is_some r.candidate_id)
    && (not (is_some r.candidate_id) || is_some r.episode_id)
    && state_refers r.state r

-- An update: to a state that may follow, at the next revision.
pub record IsMove (r s : Workflow) : Type 0 where
  pub legal : may_follow r.state s.state ≡ true
  pub revised : s.revision ≡ r.revision + 1
  pub same_input : s.input ≡ r.input
  pub sound : is_sound_row r ≡ true → is_sound_row s ≡ true

pub record IsStart (r : Workflow) : Type 0 where
  pub sound : is_sound_row r ≡ true
  pub importing : r.state ≡ WorkflowState.importing

-- From what is under an id at first, over updates, to what is there later.
pub data Trail (o : Option Workflow) : Option Workflow → Type 0 where
  stays : Trail o o
  begins : {s : Workflow} → o ≡ none → IsStart s → Trail o (some s)
  moves : {r s : Workflow} → Trail o (some r) → IsMove r s → Trail o (some s)

abbrev pub row_at : ℕ → List Workflow → Option Workflow
row_at id rows = find (workflow_has_id id) rows

abbrev pub Advances : List Workflow → List Workflow → Type 0
Advances before after = (id : ℕ) → Trail (row_at id before) (row_at id after)

Trail-none : {o p : Option Workflow} → Trail o p → p ≡ none → o ≡ none
Trail-none stays e = e
Trail-none (begins same start) e = cc
Trail-none (moves t m) e = cc

pub Trail-trans : {o p q : Option Workflow} → Trail o p → Trail p q → Trail o q
Trail-trans t stays = t
Trail-trans t (begins same start) = begins (Trail-none t same) start
Trail-trans t (moves u m) = moves (Trail-trans t u) m

pub later_or_same :
    (r : Workflow) {p : Option Workflow}
    → Trail (some r) p
    → (s : Workflow) → p ≡ some s
    → (s ≡ r) ⊎ (r.revision < s.revision)
later_or_same r stays s e = inl (cc)
later_or_same r (begins same start) s e = cc
later_or_same r (moves {r = u} t m) s e = elim (later_or_same r t u refl) [
  | inl same ↦ inr (ground (arith, m.revised))
  | inr later ↦ inr (ground (arith, m.revised))
]
