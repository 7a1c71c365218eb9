-- ===== src/Workflows/Keeping.antt =====
-- src/core/short-workflows.ts: every call of the service moves the workflows as the states allow.
use short_editor.Prelude.{
  ℕ, zero, suc, ◌==◌, ◌≡◌, refl, sym, inl, inr, true, List, ◌∷◌, Option, none, some, any, arith,
  Bool-cases,
}
use short_editor.Store.{not_found}
use short_editor.Workflows.{
  WorkflowState, Workflow, World, Fault, Outcome, threw, returned, Run, pure, is_active, Core,
}
use short_editor.Workflows.Rows.{read, update, overwritten}
use short_editor.Workflows.Steps.{Round, again, done}
use short_editor.Workflows.Calls.{
  step_in, go_on, advance_for, advance, with_failure, record_failure, caught, advance_safely,
  checked, hydrate, get,
}
use short_editor.Workflows.Trail.{
  may_follow, refers, state_refers, IsMove, stays, row_at, Advances, Trail-trans,
}
use short_editor.Workflows.Rules.{
  Silent, Keeps, From, Silent-Keeps, Keeps-From, pure-Silent, found-Silent, query-Silent,
  call-Silent, if-From, bind-Silent, bind-Keeps, then-Keeps, bind-From,
}
use short_editor.Workflows.Updates.{read-Keeps, update-From}
use short_editor.Workflows.Moving.{
  IsOrderly, import_step-From, analysis_step-From, selection_step-From,
}
use short_editor.Workflows.Drafting.{assembly_step-From}
use short_editor.Workflows.Ending.{preflight_step-From, render_step-From, export_step-From}

module _ {R : Type 0} (core : Core R) (orderly : IsOrderly core) where
  step_in-From : (r : Workflow) (s : WorkflowState) → r.state ≡ s → From r (step_in core s r)
  unfolding step_in
  step_in-From r WorkflowState.importing e = import_step-From core orderly r e
  step_in-From r WorkflowState.analyzing e = analysis_step-From core orderly r e
  step_in-From r WorkflowState.selecting_candidate e =
      selection_step-From core orderly r r.candidate_id e
  step_in-From r WorkflowState.assembling_draft e = assembly_step-From core r e
  step_in-From r WorkflowState.awaiting_review e = Keeps-From (Silent-Keeps (pure-Silent done))
  step_in-From r WorkflowState.preflighting e = preflight_step-From core orderly r e
  step_in-From r WorkflowState.rendering e = render_step-From core orderly r e
  step_in-From r WorkflowState.exporting e = export_step-From core orderly r e
  step_in-From r WorkflowState.failed e = Keeps-From (Silent-Keeps (pure-Silent done))
  step_in-From r WorkflowState.cancelled e = Keeps-From (Silent-Keeps (pure-Silent done))
  step_in-From r WorkflowState.completed e = Keeps-From (Silent-Keeps (pure-Silent done))

  go_on-Keeps : (m : Run R (Unit {0})) (round : Round) → Keeps m → Keeps (go_on core m round)
  go_on-Keeps m again h = h
  go_on-Keeps m done h = Silent-Keeps (pure-Silent tt)

  advance_for-Keeps : (rounds id : ℕ) → Keeps (advance_for core rounds id)
  unfolding advance_for
  advance_for-Keeps zero id = Silent-Keeps (pure-Silent tt)
  advance_for-Keeps (suc rounds) id = read-Keeps id _ λ r own.
      bind-From r _ _ (step_in-From r r.state refl)
        λ round. Keeps-From (go_on-Keeps _ round (advance_for-Keeps rounds id))

  failure_sound :
      (e : Fault) (r : Workflow) (time : ℕ) (s : WorkflowState)
      → is_active s ≡ true
      → state_refers s r ≡ true
      → refers s (overwritten (with_failure e r) time r) ≡ true
  failure_sound e r time WorkflowState.importing active h = h
  failure_sound e r time WorkflowState.analyzing active h = h
  failure_sound e r time WorkflowState.selecting_candidate active h = h
  failure_sound e r time WorkflowState.assembling_draft active h = h
  failure_sound e r time WorkflowState.awaiting_review active h = h
  failure_sound e r time WorkflowState.preflighting active h = h
  failure_sound e r time WorkflowState.rendering active h = h
  failure_sound e r time WorkflowState.exporting active h = h
  failure_sound e r time WorkflowState.failed active h = cc
  failure_sound e r time WorkflowState.cancelled active h = cc
  failure_sound e r time WorkflowState.completed active h = cc

  may_fail : (s : WorkflowState) → is_active s ≡ true → may_follow s WorkflowState.failed ≡ true
  may_fail WorkflowState.importing active = refl
  may_fail WorkflowState.analyzing active = refl
  may_fail WorkflowState.selecting_candidate active = refl
  may_fail WorkflowState.assembling_draft active = refl
  may_fail WorkflowState.awaiting_review active = refl
  may_fail WorkflowState.preflighting active = refl
  may_fail WorkflowState.rendering active = refl
  may_fail WorkflowState.exporting active = refl
  may_fail WorkflowState.failed active = cc
  may_fail WorkflowState.cancelled active = cc
  may_fail WorkflowState.completed active = cc

  with_failure-IsMove :
      (e : Fault) (r : Workflow) (time : ℕ)
      → is_active r.state ≡ true
      → IsMove r (overwritten (with_failure e r) time r)
  with_failure-IsMove e r time active = record {
    legal = may_fail r.state active;
    revised = refl;
    same_input = refl;
    sound = λ s. ground (arith, active, s, failure_sound e r time r.state active);
  }

  record_failure-Keeps : (id : ℕ) (e : Fault) → Keeps (record_failure core id e)
  unfolding record_failure
  record_failure-Keeps id e = read-Keeps id _ λ r own.
      if-From r (is_active r.state) (update id r.revision (with_failure e)) (pure tt)
        (λ active. rw (sym own) (
          update-From r r.revision (with_failure e) refl
            (λ time. with_failure-IsMove e r time active)))
        (λ ended. Keeps-From (Silent-Keeps (pure-Silent tt)))

  caught-Advances :
      (id : ℕ) (before : List Workflow) (o : World R × Outcome (Unit {0}))
      → Advances before o.0.workflows
      → Advances before (caught core id o).0.workflows
  caught-Advances id before (w, returned nothing) h = h
  caught-Advances id before (w, threw e) h =
      λ other. Trail-trans (h other) ((record_failure-Keeps id e).at w other)

  pub advance_safely-Keeps : (id : ℕ) → Keeps (advance_safely core id)
  unfolding advance_safely advance
  advance_safely-Keeps id = record {
    at = λ w. elim (Bool-cases (any (λ x. x == id) w.advancing)) [
      | inl busy ↦ rw busy (λ other. stays)
      | inr free ↦ rw free (
          caught-Advances id w.workflows _
            ((advance_for-Keeps 8 id).at (record w { advancing = id ∷ w.advancing })))
    ];
  }

  checked-Silent :
      (o : Option ℕ) (f : ℕ → Run R (Unit {0}))
      → ((id : ℕ) → Silent (f id))
      → Silent (checked core o f)
  checked-Silent none f h = pure-Silent tt
  checked-Silent (some id) f h = h id

  pub hydrate-Silent : (r : Workflow) → Silent (hydrate core r)
  unfolding hydrate
  hydrate-Silent r =
      bind-Silent _ _
        (checked-Silent r.candidate_id _ (λ id. bind-Silent _ _ (call-Silent _) λ c. pure-Silent _))
        λ a.
          bind-Silent _ _
            (checked-Silent r.short_id _
              (λ id. bind-Silent _ _ (query-Silent _) λ c. pure-Silent _))
            λ b.
              bind-Silent _ _
                (checked-Silent r.preflight_id _
                  (λ id. bind-Silent _ _ (query-Silent _) λ c. pure-Silent _))
                λ c.
                  bind-Silent _ _
                    (checked-Silent r.render_id _
                      (λ id. bind-Silent _ _ (query-Silent _) λ c. pure-Silent _))
                    λ d. pure-Silent r

  pub read-Silent : (id : ℕ) → Silent (read {R = R} id)
  unfolding read
  read-Silent id = record { at = λ w. (found-Silent (row_at id w.workflows) not_found).at w }

  pub get-Keeps : (id : ℕ) → Keeps (get core id)
  unfolding get
  get-Keeps id =
      bind-Keeps _ _ (advance_safely-Keeps id)
        λ nothing. then-Keeps _ _ (read-Silent id) λ r. Silent-Keeps (hydrate-Silent r)
