-- ===== src/Tests/Flows.antt =====
-- Runs of the Short workflows.
use short_editor.Prelude.{
  ℕ, ◌==◌, ◌≡◌, refl, true, false, List, [], ◌∷◌, Option, none, some, find, All, IsIn, arith,
}
use short_editor.Shorts.{get_short}
use short_editor.Timeline.{output_duration}
use short_editor.Workflows.{
  WorkflowState, Preset, WorkflowInput, Workflow, World, returned, Core, Candidate, Copying, pure,
  throw, found, gets, query, transact, call, ◌>>=◌, demand, draw, now,
}
use short_editor.Workflows.Rows.{read, update}
use short_editor.Workflows.Choices.{best_candidate, graphics_layers}
use short_editor.Workflows.Steps.{import_step, analysis_of, selection_step, assembly_step}
use short_editor.Workflows.Calls.{
  new_workflow, step_in, advance_for, advance, advance_safely, get, create, retry, hydrate,
}
use short_editor.Workflows.Resuming.{resume, cancel_workflow}
use short_editor.Workflows.Trail.{Trail, row_at}
use short_editor.Workflows.Rules.{Silent-Keeps, pure-Silent}
use short_editor.Workflows.Moving.{IsOrderly}
use short_editor.Workflows.Histories.{
  Call, creates, resumes, cancels, reconciles, AreSound, run_call, run_calls, run_calls-Trail,
  run_calls-AreSound, run_calls-closed,
}
use short_editor.Workflows.Ends.{advance-stable}
use short_editor.Workflows.Picking.{IsWithin, IsNoWorse, best_candidate_lem, graphics_layers-All}
use short_editor.Tests.{short_db}

abbrev pick : ℕ → ℕ → ℕ → Candidate
pick id length score = record {
  id = id;
  revision = 1;
  start_ms = 0;
  end_ms = length;
  score = score;
  approved = true;
}

-- Calls that return at once, of a core with one Episode and one candidate.
abbrev core : Core (Unit {0})
core = record {
  import_paths = λ path. pure (record {
    imported = record { id = 1; source_path = path } ∷ [];
    duplicates = [];
    relinked = [];
  });
  preflight_workflow_render = λ short_id revision layers. pure (5, true);
  find_directory = λ path. pure (some path);
  copy_file = λ from to. pure Copying.copied;
  file_hash = λ path. pure none;
  has_accepted_transcript = λ episode db rest. true;
  generate_candidates = λ episode db rest. ((db, rest), returned (pick 1 5000 700000 ∷ []));
  get_candidate = λ id db rest. ((db, rest), returned (pick 1 5000 700000));
  get_content_package = λ id db rest.
      ((db, rest), returned (record { candidate_revision = 1; accepted = true; proposed = 0 }));
  accept_content_package = λ id revision proposed db rest. ((db, rest), returned tt);
  review_candidate = λ id revision db rest. ((db, rest), returned tt);
  create_short = λ candidate template db rest. ((db, rest), returned 1);
  digest = λ key. 9;
  resolve_path = λ path. path;
  id_text = λ id. id ∷ [];
  has_artifacts = true;
}

orderly : IsOrderly core
orderly = record {
  imports = λ path. Silent-Keeps (pure-Silent _);
  preflights = λ short_id revision layers. Silent-Keeps (pure-Silent _);
  directories = λ path. Silent-Keeps (pure-Silent _);
  copies = λ from to. Silent-Keeps (pure-Silent _);
  hashes = λ path. Silent-Keeps (pure-Silent _);
}

abbrev input : WorkflowInput
input = record {
  source_path = b'a' ∷ b'.' ∷ b'm' ∷ b'p' ∷ b'4' ∷ [];
  target_duration_ms = 45000;
  template_id = none;
  captions_enabled = true;
  graphics = record { enabled = true; presets = Preset.hook ∷ Preset.end_card ∷ [] };
  export_directory = none;
  auto_approve = false;
  idempotency_key = none;
}

abbrev world : List Workflow → World (Unit {0})
world rows = record {
  db = short_db;
  rest = tt;
  workflows = rows;
  advancing = [];
  next_id = 40;
  clock = 7;
}

flows : Unit {0}
unfolding pure throw found gets query transact call ◌>>=◌ demand draw now read update run_call
    run_calls create get advance_safely advance advance_for step_in import_step analysis_of
    selection_step assembly_step best_candidate graphics_layers hydrate cancel_workflow resume
    output_duration get_short
flows = tt

abbrev state_at : ℕ → List Workflow → Option (WorkflowState × ℕ × Option ℕ)
state_at id rows = elim (find (λ (r : Workflow). r.id == id) rows) [
  | none ↦ none
  | some r ↦ some (r.state, r.revision, r.short_id)
]

-- A workflow is created, advanced up to its review, and cancelled.
abbrev two_calls : List Call
two_calls = creates input ∷ cancels 40 5 ∷ []

created_test :
    state_at 40 (run_calls core (creates input ∷ []) (world [])).workflows
    ≡ some (WorkflowState.awaiting_review, 5, some 1)
unfolding flows
created_test = refl

cancelled_test :
    state_at 40 (run_calls core two_calls (world [])).workflows
    ≡ some (WorkflowState.cancelled, 6, some 1)
unfolding flows
cancelled_test = refl

abbrev selecting : Workflow
selecting = record (new_workflow 3 8 input 1) {
  state = WorkflowState.selecting_candidate;
  episode_id = some 1;
}

abbrev cancelled_row : Workflow
cancelled_row = record selecting { state = WorkflowState.cancelled; revision = 4 }

run_calls-Trail_example :
    Trail
      (row_at 40 (world []).workflows)
      (row_at 40 (run_calls core two_calls (world [])).workflows)
run_calls-Trail_example = run_calls-Trail core orderly two_calls (world []) 40

run_calls-AreSound_example : AreSound (run_calls core two_calls (world [])).workflows
run_calls-AreSound_example =
    run_calls-AreSound core orderly two_calls (world []) (λ id r none_there. cc)

run_calls-closed_example :
    row_at 3
      (run_calls core
        (resumes 3 4 retry ∷ cancels 3 4 ∷ reconciles ∷ [])
        (world (cancelled_row ∷ []))).workflows
    ≡ some cancelled_row
run_calls-closed_example =
    run_calls-closed core orderly (resumes 3 4 retry ∷ cancels 3 4 ∷ reconciles ∷ [])
      (world (cancelled_row ∷ [])) 3 cancelled_row refl refl

advance-stable_example :
    advance_for core 20 3 (world (selecting ∷ [])) ≡ advance core 3 (world (selecting ∷ []))
advance-stable_example =
    advance-stable core orderly 20 3 (world (selecting ∷ [])) selecting refl refl (omega arith)

abbrev picks : List Candidate
picks = pick 1 9000 700000 ∷ pick 2 5000 600000 ∷ []

best_candidate_lem_example :
    (c : Candidate) × (best_candidate 5000 picks ≡ some c)
    × IsIn c picks
    × All (λ e. IsNoWorse 5000 c e) picks
best_candidate_lem_example = best_candidate_lem 5000 (pick 1 9000 700000) (pick 2 5000 600000 ∷ [])

graphics_layers-All_example : All (IsWithin 5000) (graphics_layers input.graphics 5000)
graphics_layers-All_example = graphics_layers-All input.graphics 5000 (omega arith)
