-- ===== src/Workflows/Retrying.antt =====
-- src/core/short-workflows.ts: `resume` and `cancel` move a workflow as the states allow.
use short_editor.Prelude.{ℕ, ◌≡◌, refl, sym, true, List, [], ◌∷◌, Option, none, some, arith, ==→eq}
use short_editor.Store.{Job}
use short_editor.Workflows.{WorkflowState, Failure, Workflow, is_active, Core}
use short_editor.Jobs.{is_open}
use short_editor.Renders.{retryable_state}
use short_editor.Workflows.Rows.{overwritten}
use short_editor.Workflows.Calls.{
  Resumption, approve_draft, retry, retry_state, is_rendering, is_analyzing, is_failed,
}
use short_editor.Workflows.Resuming.{
  approve_workflow, retry_render, retry_analysis, retry_stage, retry_other, retry_failed,
  retry_workflow, resume_by, resume, cancel_if_open, cancel_open, cancel_workflow, advance_all,
  reconcile_all,
}
use short_editor.Workflows.Trail.{may_follow, IsMove}
use short_editor.Workflows.Rules.{
  Silent, Keeps, From, Silent-Keeps, Keeps-From, pure-Silent, gets-Silent, query-Silent,
  transact-Silent, if-Silent, if-From, draw-Silent, now-Silent, bind-Silent, bind-Keeps, bind-From,
  then-From, demand-From, found-From,
}
use short_editor.Workflows.Updates.{read-Keeps, update-From}
use short_editor.Workflows.Moving.{IsOrderly}
use short_editor.Workflows.Keeping.{advance_safely-Keeps, hydrate-Silent, read-Silent, get-Keeps}

retry_state_follows :
    (r : Workflow) (stage : WorkflowState)
    → may_follow WorkflowState.failed (retry_state r stage) ≡ true
retry_state_follows r stage = ground arith

may_cancel : (s : WorkflowState) → is_active s ≡ true → may_follow s WorkflowState.cancelled ≡ true
may_cancel WorkflowState.importing active = refl
may_cancel WorkflowState.analyzing active = refl
may_cancel WorkflowState.selecting_candidate active = refl
may_cancel WorkflowState.assembling_draft active = refl
may_cancel WorkflowState.awaiting_review active = refl
may_cancel WorkflowState.preflighting active = refl
may_cancel WorkflowState.rendering active = refl
may_cancel WorkflowState.exporting active = refl
may_cancel WorkflowState.failed active = cc
may_cancel WorkflowState.cancelled active = cc
may_cancel WorkflowState.completed active = cc

module _ {R : Type 0} (core : Core R) (orderly : IsOrderly core) where
  approve_workflow-From :
      (r : Workflow) (expected : ℕ)
      → r.revision ≡ expected
      → From r (approve_workflow core r expected)
  unfolding approve_workflow
  approve_workflow-From r expected e = demand-From r _ _ _ λ awaiting.
      update-From r expected _ e (λ time. record {
        legal = ground (arith, awaiting);
        revised = refl;
        same_input = refl;
        sound = λ s. ground (arith, awaiting);
      })

  module _ (r : Workflow) (expected : ℕ) (e : r.revision ≡ expected) (f : Failure)
      (failed : is_failed r.state ≡ true) (held : r.failure ≡ some f) where
    retry_render-From :
        (source : ℕ) → is_rendering f.stage ≡ true → From r (retry_render core r expected source)
    unfolding retry_render
    retry_render-From source rendering = then-From r _ _ draw-Silent λ render_id.
        then-From r _ _ draw-Silent λ job_id. then-From r _ _ now-Silent λ time.
          then-From r _ _ (transact-Silent _) λ retried. update-From r expected _ e (λ time.
            record {
              legal = ground (arith, failed);
              revised = refl;
              same_input = refl;
              sound = λ s. ground (arith, failed, held, rendering);
            })

    retry_analysis-From :
        (episode : ℕ)
        → is_analyzing f.stage ≡ true
        → From r (retry_analysis core r expected episode)
    unfolding retry_analysis
    retry_analysis-From episode analyzing = then-From r _ _ draw-Silent λ job_id.
        then-From r _ _ now-Silent λ time. then-From r _ _ (transact-Silent _) λ job.
          update-From r expected _ e (λ time. record {
            legal = ground (arith, failed);
            revised = refl;
            same_input = refl;
            sound = λ s. ground (arith, failed, held, analyzing);
          })

    retry_stage-From : From r (retry_stage core r expected f.stage)
    unfolding retry_stage
    retry_stage-From = update-From r expected _ e (λ time. record {
      legal = ground (arith, failed, retry_state_follows r f.stage);
      revised = refl;
      same_input = refl;
      sound = λ s. ground (arith, failed, held);
    })

    retry_other-From : (o : Option ℕ) → From r (retry_other core r expected f.stage o)
    unfolding retry_other
    retry_other-From none = retry_stage-From
    retry_other-From (some episode) =
        if-From r (is_analyzing f.stage) _ _ (λ analyzing. retry_analysis-From episode analyzing)
          (λ other. retry_stage-From)

    retry_failed-From : (o : Option ℕ) → From r (retry_failed core r expected f.stage o)
    unfolding retry_failed
    retry_failed-From none = retry_other-From r.episode_id
    retry_failed-From (some render) =
        if-From r (is_rendering f.stage) _ _
          (λ rendering. then-From r _ _ (query-Silent _) λ source.
            if-From r (retryable_state source.state) _ _
              (λ may. retry_render-From source.id rendering)
              (λ other. retry_other-From r.episode_id))
          (λ other. retry_other-From r.episode_id)

  retry_workflow-From :
      (r : Workflow) (expected : ℕ)
      → r.revision ≡ expected
      → From r (retry_workflow core r expected)
  unfolding retry_workflow
  retry_workflow-From r expected e = demand-From r _ _ _ λ failed.
      found-From r r.failure _ _ λ failure held.
        demand-From r _ _ _ λ may. retry_failed-From r expected e failure failed held r.render_id

  resume_by-From :
      (action : Resumption) (r : Workflow) (expected : ℕ)
      → r.revision ≡ expected
      → From r (resume_by core action r expected)
  unfolding resume_by
  resume_by-From approve_draft r expected e = approve_workflow-From r expected e
  resume_by-From retry r expected e = retry_workflow-From r expected e

  pub resume-Keeps :
      (id expected : ℕ) (action : Resumption) → Keeps (resume core id expected action)
  unfolding resume
  resume-Keeps id expected action = read-Keeps id _ λ r own. demand-From r _ _ _ λ same.
      bind-From r _ _ (resume_by-From action r expected (==→eq _ _ same)) λ resumed. Keeps-From (
        bind-Keeps _ _ (advance_safely-Keeps core orderly id) λ advanced. get-Keeps core orderly id)

  cancel_if_open-Silent : (o : Option Job) → Silent (cancel_if_open core o)
  unfolding cancel_if_open
  cancel_if_open-Silent none = pure-Silent tt
  cancel_if_open-Silent (some j) =
      if-Silent (is_open j.state) _ _ (bind-Silent _ _ now-Silent λ time. transact-Silent _)
        (pure-Silent tt)

  cancel_open-Silent : (o : Option ℕ) → Silent (cancel_open core o)
  unfolding cancel_open
  cancel_open-Silent none = pure-Silent tt
  cancel_open-Silent (some id) = bind-Silent _ _ (gets-Silent _) λ held. cancel_if_open-Silent held

  cancelled-IsMove :
      (r : Workflow) (time : ℕ)
      → is_active r.state ≡ true
      → IsMove r (overwritten (record r { state = WorkflowState.cancelled; failure = none }) time r)
  cancelled-IsMove r time active = record {
    legal = may_cancel r.state active;
    revised = refl;
    same_input = refl;
    sound = λ s. ground (arith, active);
  }

  pub cancel_workflow-Keeps : (id expected : ℕ) → Keeps (cancel_workflow core id expected)
  unfolding cancel_workflow
  cancel_workflow-Keeps id expected = read-Keeps id _ λ r own. demand-From r _ _ _ λ same.
      demand-From r _ _ _ λ active. then-From r _ _ (cancel_open-Silent r.analysis_job_id) λ a.
        then-From r _ _ (cancel_open-Silent r.render_job_id) λ b.
          bind-From r _ _
            (rw (sym own)
              (update-From r expected _ (==→eq _ _ same) (λ time. cancelled-IsMove r time active)))
            λ c.
              then-From r _ _ (read-Silent core orderly id)
                λ s. Keeps-From (Silent-Keeps (hydrate-Silent core orderly s))

  advance_all-Keeps : (rs : List Workflow) → Keeps (advance_all core rs)
  unfolding advance_all
  advance_all-Keeps [] = Silent-Keeps (pure-Silent tt)
  advance_all-Keeps (r ∷ rs) =
      bind-Keeps _ _ (advance_safely-Keeps core orderly r.id) λ advanced. advance_all-Keeps rs

  pub reconcile_all-Keeps : Keeps (reconcile_all core)
  unfolding reconcile_all
  reconcile_all-Keeps = record { at = λ w. (advance_all-Keeps _).at w }
