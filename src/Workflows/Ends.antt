-- ===== src/Workflows/Ends.antt =====
-- src/core/short-workflows.ts: the loop of `advance` comes to its own end.
use short_editor.Prelude.{
  find-holds, ◌∙◌, ap, subst, ==→eq, ℕ, zero, suc, ◌≡◌, ◌≤◌, ◌<◌, refl, sym, Bool, true, false,
  some, arith,
}
use short_editor.Workflows.{
  WorkflowState, Workflow, World, Outcome, threw, returned, found, pure, resume_from, ◌>>=◌, Core,
}
use short_editor.Workflows.Rows.{workflow_has_id, read}
use short_editor.Workflows.Steps.{Round, again, done}
use short_editor.Workflows.Calls.{step_in, go_on, advance_for, advance}
use short_editor.Workflows.Trail.{Trail, stays, row_at}
use short_editor.Workflows.Moving.{IsOrderly}
use short_editor.Workflows.Rounds.{rounds_in, rounds_left, Drops, done-Drops}
use short_editor.Workflows.Dropping.{
  import_step-Drops, analysis_step-Drops, selection_step-Drops, assembly_step-Drops,
  preflight_step-Drops, render_step-Drops, export_step-Drops,
}

abbrev pub is_importing : WorkflowState → Bool
is_importing WorkflowState.importing = true
is_importing _ = false

module _ {R : Type 0} (core : Core R) (orderly : IsOrderly core) where
  step_in-Drops : (r : Workflow) (s : WorkflowState) → r.state ≡ s → Drops r (step_in core s r)
  unfolding step_in
  step_in-Drops r WorkflowState.importing e = import_step-Drops core orderly r e
  step_in-Drops r WorkflowState.analyzing e = analysis_step-Drops core orderly r e
  step_in-Drops r WorkflowState.selecting_candidate e =
      selection_step-Drops core orderly r r.candidate_id e refl
  step_in-Drops r WorkflowState.assembling_draft e = assembly_step-Drops core orderly r e
  step_in-Drops r WorkflowState.awaiting_review e = done-Drops r
  step_in-Drops r WorkflowState.preflighting e = preflight_step-Drops core orderly r e
  step_in-Drops r WorkflowState.rendering e = render_step-Drops core orderly r e
  step_in-Drops r WorkflowState.exporting e = export_step-Drops core orderly r e
  step_in-Drops r WorkflowState.failed e = done-Drops r
  step_in-Drops r WorkflowState.cancelled e = done-Drops r
  step_in-Drops r WorkflowState.completed e = done-Drops r

  rounds_left_pos : (s : WorkflowState) (r : Workflow) → 0 < rounds_in s r
  rounds_left_pos s r = ground arith

  same_rest :
      (m n id : ℕ) (o : World R × Outcome Round)
      → (o.1 ≡ returned again → advance_for core m id o.0 ≡ advance_for core n id o.0)
      → resume_from o (go_on core (advance_for core m id))
        ≡ resume_from o (go_on core (advance_for core n id))
  same_rest m n id (v, threw e) h = refl
  same_rest m n id (v, returned again) h = h refl
  same_rest m n id (v, returned done) h = refl

  next_round :
      (n id : ℕ) (w : World R) (r : Workflow)
      → row_at id w.workflows ≡ some r
      → advance_for core (suc n) id w
        ≡ resume_from (step_in core r.state r w) (go_on core (advance_for core n id))
  unfolding advance_for read found pure ◌>>=◌
  next_round n id w r there = rw there

  -- With at least the rounds that the row has left, one guard is as good as another.
  advance_for-stable :
      (m n id : ℕ) (w : World R) (r : Workflow)
      → row_at id w.workflows ≡ some r
      → rounds_left r ≤ m
      → rounds_left r ≤ n
      → advance_for core m id w ≡ advance_for core n id w
  advance_for-stable zero n id w r there few more =
      absurd (omega (arith, rounds_left_pos r.state r))
  advance_for-stable (suc m) zero id w r there few more =
      absurd (omega (arith, rounds_left_pos r.state r))
  advance_for-stable (suc m) (suc n) id w r there few more =
      let own : r.id ≡ id = ==→eq _ _ (find-holds (workflow_has_id id) w.workflows r there) in
      let mine : row_at r.id w.workflows ≡ some r = ap (λ k. row_at k w.workflows) own ∙ there in
      let rest = same_rest m n id (step_in core r.state r w) (λ goes.
        let (s, held, fewer) =
          (step_in-Drops r r.state refl).at w (subst (Trail (some r)) (sym mine) stays) goes in
        advance_for-stable m n id (step_in core r.state r w).0 s
          (ap (λ k. row_at k (step_in core r.state r w).0.workflows) (sym own) ∙ held)
          (omega (arith, fewer, few)) (omega (arith, fewer, more))) in
      next_round m id w r there ∙ rest ∙ sym (next_round n id w r there)

  few_rounds : (r : Workflow) (s : WorkflowState) → is_importing s ≡ false → rounds_in s r ≤ 8
  few_rounds r s other = ground (arith, other)

  -- Where the calls that the coordinator awaits leave the workflows to the calls of others, the loop
  -- of `advance` over a workflow that is not importing ends by itself: any guard of eight rounds or
  -- more has the outcome of the guard in the code.
  pub advance-stable :
      (n id : ℕ) (w : World R) (r : Workflow)
      → row_at id w.workflows ≡ some r
      → is_importing r.state ≡ false
      → 8 ≤ n
      → advance_for core n id w ≡ advance core id w
  unfolding advance
  advance-stable n id w r there other enough =
      let few = few_rounds r r.state other in
      advance_for-stable n 8 id w r there (omega (arith, few, enough)) few
