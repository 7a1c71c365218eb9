-- ===== src/Workflows/Histories.antt =====
-- src/core/short-workflows.ts: the workflows over any calls of the service.
use short_editor.Prelude.{
  ℕ, ◌==◌, ◌≡◌, refl, subst, ap, inl, inr, Bool, true, false, ◌||◌, List, [], ◌∷◌, ◌++◌, Option,
  none, some, any, arith, Bool-cases,
}
use short_editor.Workflows.{WorkflowState, WorkflowInput, Workflow, World, Core}
use short_editor.Workflows.Calls.{insert_workflow, get, begin, get_or_begin, create, Resumption}
use short_editor.Workflows.Resuming.{resume, cancel_workflow, reconcile_all}
use short_editor.Workflows.Finishing.{ExportInput, export_render}
use short_editor.Workflows.Trail.{
  is_sound_row, may_follow, IsStart, Trail, stays, begins, moves, row_at, Advances, Trail-trans,
}
use short_editor.Workflows.Rules.{
  Keeps, gets-Silent, draw-Silent, now-Silent, bind-Keeps, then-Keeps,
}
use short_editor.Workflows.Moving.{IsOrderly}
use short_editor.Workflows.Ending.{export_render-Keeps}
use short_editor.Workflows.Retrying.{resume-Keeps, cancel_workflow-Keeps, reconcile_all-Keeps}
use short_editor.Workflows.Keeping.{advance_safely-Keeps, get-Keeps}

-- An inserted row is met under its id where no row had it.
append-Trail :
    (id : ℕ) (r : Workflow) (rows : List Workflow)
    → IsStart r
    → Trail (row_at id rows) (row_at id (rows ++ r ∷ []))
append-Trail id r [] start = elim (Bool-cases (r.id == id)) [
  | inl own ↦ rw own (begins refl start)
  | inr other ↦ rw other stays
]
append-Trail id r (x ∷ rows) start = elim (Bool-cases (x.id == id)) [
  | inl own ↦ rw own stays
  | inr other ↦ rw other (append-Trail id r rows start)
]

module _ {R : Type 0} (core : Core R) (orderly : IsOrderly core) where
  insert_workflow-Keeps : (r : Workflow) → IsStart r → Keeps (insert_workflow core r)
  unfolding insert_workflow
  insert_workflow-Keeps r start = record {
    at = λ w.
        elim (Bool-cases
          (any (λ (s : Workflow). s.id == r.id || s.request_hash == r.request_hash) w.workflows)) [
            | inl taken ↦ rw taken (λ id. stays)
            | inr free ↦ rw free (λ id. append-Trail id r w.workflows start)
          ];
  }

  begin-Keeps : (hash : ℕ) (input : WorkflowInput) → Keeps (begin core hash input)
  unfolding begin
  begin-Keeps hash input = then-Keeps _ _ now-Silent λ time. then-Keeps _ _ draw-Silent λ id.
      bind-Keeps _ _ (insert_workflow-Keeps _ (record { sound = refl; importing = refl }))
        λ inserted.
          bind-Keeps _ _ (advance_safely-Keeps core orderly id)
            λ advanced. get-Keeps core orderly id

  get_or_begin-Keeps :
      (hash : ℕ) (input : WorkflowInput) (o : Option Workflow)
      → Keeps (get_or_begin core hash input o)
  unfolding get_or_begin
  get_or_begin-Keeps hash input none = begin-Keeps hash input
  get_or_begin-Keeps hash input (some r) = get-Keeps core orderly r.id

  pub create-Keeps : (input : WorkflowInput) → Keeps (create core input)
  unfolding create
  create-Keeps input =
      then-Keeps _ _ (gets-Silent _) λ existing. get_or_begin-Keeps _ input existing

abbrev pub is_closed : WorkflowState → Bool
is_closed WorkflowState.cancelled = true
is_closed WorkflowState.completed = true
is_closed _ = false

some-injective : {a b : Workflow} → some a ≡ some b → a ≡ b
some-injective {a} e = ap (λ o. elim o [ none ↦ a | some x ↦ x ]) e

-- The calls of the service, of which the coordinator's timer makes the last.
pub data Call : Type 0 where
  creates : WorkflowInput → Call
  gets_one : ℕ → Call
  resumes : ℕ → ℕ → Resumption → Call
  cancels : ℕ → ℕ → Call
  exports : ExportInput → Call
  reconciles : Call

-- A row that is under an id at first is sound.
abbrev pub AreSound : List Workflow → Type 0
AreSound rows = (id : ℕ) (r : Workflow) → row_at id rows ≡ some r → is_sound_row r ≡ true

Trail-sound :
    {o p : Option Workflow}
    → Trail o p
    → ((r : Workflow) → o ≡ some r → is_sound_row r ≡ true)
    → (s : Workflow) → p ≡ some s
    → is_sound_row s ≡ true
Trail-sound stays h s e = h s e
Trail-sound (begins same start) h s e = cc (start.sound, e)
Trail-sound (moves {r = r} t m) h s e =
    subst (λ x. is_sound_row x ≡ true) (some-injective e) (m.sound (Trail-sound t h r refl))

closed_follows : (s t : WorkflowState) → is_closed s ≡ true → may_follow s t ≡ true → ⊥
closed_follows s t h k = ground (arith, h, k)

Trail-closed :
    (r : Workflow) {p : Option Workflow} → Trail (some r) p → is_closed r.state ≡ true → p ≡ some r
Trail-closed r stays h = refl
Trail-closed r (begins same start) h = cc
Trail-closed r (moves {r = u} {s = s} t m) h =
    let same : u ≡ r = some-injective (Trail-closed r t h) in
    absurd (closed_follows u.state s.state (rw same h) m.legal)

module _ {R : Type 0} (core : Core R) where
  unfoldable pub run_call : Call → World R → World R
  run_call (creates input) w = (create core input w).0
  run_call (gets_one id) w = (get core id w).0
  run_call (resumes id expected action) w = (resume core id expected action w).0
  run_call (cancels id expected) w = (cancel_workflow core id expected w).0
  run_call (exports input) w = (export_render core input w).0
  run_call reconciles w = (reconcile_all core w).0

  unfoldable pub run_calls : List Call → World R → World R
  unfolding run_call
  run_calls [] w = w
  run_calls (c ∷ cs) w = run_calls cs (run_call c w)

module _ {R : Type 0} (core : Core R) (orderly : IsOrderly core) where
  run_call-Advances : (c : Call) (w : World R) → Advances w.workflows (run_call core c w).workflows
  unfolding run_call
  run_call-Advances (creates input) w = (create-Keeps core orderly input).at w
  run_call-Advances (gets_one id) w = (get-Keeps core orderly id).at w
  run_call-Advances (resumes id expected action) w =
      (resume-Keeps core orderly id expected action).at w
  run_call-Advances (cancels id expected) w = (cancel_workflow-Keeps core orderly id expected).at w
  run_call-Advances (exports input) w = (export_render-Keeps core orderly input).at w
  run_call-Advances reconciles w = (reconcile_all-Keeps core orderly).at w

  -- Where the calls that the coordinator awaits leave the workflows to the calls of others, any calls
  -- of the service only ever take the row under an id through updates that are allowed: to a state
  -- that may follow, at the next revision, with the input unchanged; or they begin it at the import.
  pub run_calls-Trail :
      (cs : List Call) (w : World R) (id : ℕ)
      → Trail (row_at id w.workflows) (row_at id (run_calls core cs w).workflows)
  unfolding run_calls
  run_calls-Trail [] w id = stays
  run_calls-Trail (c ∷ cs) w id =
      Trail-trans (run_call-Advances c w id) (run_calls-Trail cs (run_call core c w) id)

  -- Where the calls that the coordinator awaits leave the workflows to the calls of others, any calls
  -- of the service keep the rows sound: a Short is of a candidate, a candidate of an Episode, and the
  -- columns that a step reads with a `!` are not null, also in the step that a failed workflow is
  -- resumed with.
  pub run_calls-AreSound :
      (cs : List Call) (w : World R)
      → AreSound w.workflows
      → AreSound (run_calls core cs w).workflows
  run_calls-AreSound cs w sound id s there =
      Trail-sound (run_calls-Trail cs w id) (sound id) s there

  -- Where the calls that the coordinator awaits leave the workflows to the calls of others, a
  -- workflow that is cancelled or completed keeps its row, unchanged, through any calls of the
  -- service.
  pub run_calls-closed :
      (cs : List Call) (w : World R) (id : ℕ) (r : Workflow)
      → is_closed r.state ≡ true
      → row_at id w.workflows ≡ some r
      → row_at id (run_calls core cs w).workflows ≡ some r
  run_calls-closed cs w id r closed there =
      Trail-closed r
        (subst (λ o. Trail o (row_at id (run_calls core cs w).workflows)) there
          (run_calls-Trail cs w id))
        closed
