-- ===== src/Workflows/Ending.antt =====
-- src/core/short-workflows.ts: the preflight, the Render and the export move their row as the states
-- allow.
use short_editor.Workflows.Steps.{Round}
use short_editor.Prelude.{
  List, ℕ, ◌≡◌, refl, Option, none, some, is_some, arith, Bool-cases, inl, inr,
}
use short_editor.Paths.{Text}
use short_editor.Store.{Render, RenderState, Short}
use short_editor.Workflows.{
  World, Run, Outcome, threw, returned, WorkflowState, Workflow, Core, Copying,
}
use short_editor.Workflows.Finishing.{
  rescued, rescue, ExportInput, approve, approved_short, reattach, preflight_of, start_render,
  record_preflight, preflight_round, render_or_reattach, preflight_step, still_rendering,
  render_round, render_step, copied_to, export_render, complete_export, recovered, export_anew,
  export_step,
}
use short_editor.Workflows.Trail.{Trail, row_at, Advances, Trail-trans}
use short_editor.Workflows.Rules.{
  Silent, Keeps, From, Silent-Keeps, Keeps-From, pure-Silent, throw-Silent, found-Silent,
  gets-Silent, query-Silent, transact-Silent, if-Silent, if-From, demand-Silent, draw-Silent,
  now-Silent, bind-Silent, bind-Keeps, then-Keeps, bind-From, then-From,
}
use short_editor.Workflows.Moving.{IsOrderly, again_at-From, done_at-From, throw-From}

module _ {R : Type 0} where
  rescued-Advances :
      (r : Workflow) (before : List Workflow) (o : World R × Outcome Round) (n : Run R Round)
      → Trail (some r) (row_at r.id before)
      → Advances before o.0.workflows
      → From r n
      → Advances before (rescued o n).0.workflows
  rescued-Advances r before (w, returned round) n since t k = t
  rescued-Advances r before (w, threw e) n since t k =
      λ id. Trail-trans (t id) (k.at w (Trail-trans since (t r.id)) id)

  rescue-From : (r : Workflow) (m n : Run R Round) → From r m → From r n → From r (rescue m n)
  unfolding rescue
  rescue-From r m n h k = record {
    at = λ w since. rescued-Advances r w.workflows (m w) n since (h.at w since) k;
  }

module _ {R : Type 0} (core : Core R) (orderly : IsOrderly core) where
  pub approved_short-Silent : (project : Short) → Silent (approved_short core project)
  unfolding approved_short approve
  approved_short-Silent project =
      if-Silent _ _ _ (pure-Silent _) (bind-Silent _ _ now-Silent λ time. transact-Silent _)

  reattach-From :
      (r : Workflow) (render : Render)
      → r.state ≡ WorkflowState.preflighting
      → From r (reattach core r render)
  unfolding reattach
  reattach-From r render e = then-From r _ _ (gets-Silent _) λ held.
      then-From r _ _ (found-Silent held _) λ job. again_at-From r _ (λ time. record {
        legal = rw e refl;
        revised = refl;
        same_input = refl;
        sound = λ s. ground arith;
      })

  start_render-From :
      (r : Workflow) (project : Short) (preflight : ℕ)
      → r.state ≡ WorkflowState.preflighting
      → From r (start_render core r project preflight)
  unfolding start_render
  start_render-From r project preflight e = then-From r _ _ draw-Silent λ render_id.
      then-From r _ _ draw-Silent λ job_id. then-From r _ _ now-Silent λ time.
        then-From r _ _ (transact-Silent _) λ started. done_at-From r _ (λ time. record {
          legal = rw e refl;
          revised = refl;
          same_input = refl;
          sound = λ s. ground arith;
        })

  pub preflight_of-Keeps :
      (r : Workflow) (project : Short) (o : Option ℕ) → Keeps (preflight_of core r project o)
  unfolding preflight_of
  preflight_of-Keeps r project none = orderly.preflights _ _ _
  preflight_of-Keeps r project (some id) =
      Silent-Keeps (bind-Silent _ _ (query-Silent _) λ preflight. pure-Silent _)

  record_preflight-From :
      (r : Workflow) (preflight : ℕ)
      → r.state ≡ WorkflowState.preflighting
      → From r (record_preflight core r preflight)
  unfolding record_preflight
  record_preflight-From r preflight e = again_at-From r _ (λ time. record {
    legal = rw e refl;
    revised = refl;
    same_input = refl;
    sound = λ s. ground arith;
  })

  preflight_round-From :
      (r : Workflow) (project : Short)
      → r.state ≡ WorkflowState.preflighting
      → From r (preflight_round core r project)
  unfolding preflight_round
  preflight_round-From r project e =
      bind-From r _ _ (Keeps-From (preflight_of-Keeps r project r.preflight_id)) λ preflight.
        then-From r _ _ (demand-Silent _ _) λ nothing.
          if-From r _ _ _ (λ old. start_render-From r project preflight.0 e)
            (λ new. record_preflight-From r preflight.0 e)

  render_or_reattach-From :
      (r : Workflow) (project : Short) (o : Option Render)
      → r.state ≡ WorkflowState.preflighting
      → From r (render_or_reattach core r project o)
  unfolding render_or_reattach
  render_or_reattach-From r project none e = preflight_round-From r project e
  render_or_reattach-From r project (some render) e = reattach-From r render e

  pub preflight_step-From :
      (r : Workflow) → r.state ≡ WorkflowState.preflighting → From r (preflight_step core r)
  unfolding preflight_step
  preflight_step-From r e = then-From r _ _ (found-Silent _ _) λ id.
      then-From r _ _ (query-Silent _) λ held.
        then-From r _ _ (approved_short-Silent held) λ project.
          then-From r _ _ (gets-Silent _) λ existing. render_or_reattach-From r project existing e

  still_rendering-From :
      (r : Workflow) → r.state ≡ WorkflowState.rendering → From r (still_rendering core r)
  unfolding still_rendering
  still_rendering-From r e = then-From r _ _ (gets-Silent _) λ job. done_at-From r _ (λ time.
      record { legal = rw e refl; revised = refl; same_input = refl; sound = λ s. ground arith })

  render_round-From :
      (r : Workflow) (state : RenderState)
      → r.state ≡ WorkflowState.rendering
      → From r (render_round core r state)
  unfolding render_round
  render_round-From r RenderState.failed e = throw-From r (throw-Silent _)
  render_round-From r RenderState.stale e = throw-From r (throw-Silent _)
  render_round-From r RenderState.cancelled e = throw-From r (throw-Silent _)
  render_round-From r RenderState.queued e = still_rendering-From r e
  render_round-From r RenderState.running e = still_rendering-From r e
  render_round-From r RenderState.succeeded e =
      elim (Bool-cases (is_some r.input.export_directory)) [
        | inl exports ↦ rw exports (
            again_at-From r _ (λ time. record {
              legal = rw e refl;
              revised = refl;
              same_input = refl;
              sound = λ s. ground arith;
            }))
        | inr ends ↦ rw ends (
            done_at-From r _ (λ time. record {
              legal = rw e refl;
              revised = refl;
              same_input = refl;
              sound = λ s. ground arith;
            }))
      ]

  pub render_step-From :
      (r : Workflow) → r.state ≡ WorkflowState.rendering → From r (render_step core r)
  unfolding render_step
  render_step-From r e =
      then-From r _ _ (found-Silent _ _)
        λ id. then-From r _ _ (query-Silent _) λ render. render_round-From r render.state e

  copied_to-Silent : (to : Text × Text) (c : Copying) → Silent (copied_to core to c)
  unfolding copied_to
  copied_to-Silent to Copying.copied = pure-Silent _
  copied_to-Silent to Copying.exists = throw-Silent _
  copied_to-Silent to Copying.broken = throw-Silent _

  pub export_render-Keeps : (input : ExportInput) → Keeps (export_render core input)
  unfolding export_render
  export_render-Keeps input = then-Keeps _ _ (demand-Silent _ _) λ available.
      then-Keeps _ _ (query-Silent _) λ render. then-Keeps _ _ (demand-Silent _ _) λ exportable.
        then-Keeps _ _ (demand-Silent _ _) λ plain. bind-Keeps _ _ (orderly.directories _) λ held.
          then-Keeps _ _ (found-Silent held _) λ directory.
            then-Keeps _ _ (demand-Silent _ _) λ named. then-Keeps _ _ (found-Silent _ _) λ output.
              bind-Keeps _ _ (orderly.copies _ _) λ result. Silent-Keeps (copied_to-Silent _ result)

  pub complete_export-From :
      (r : Workflow) (path : Text × Text)
      → r.state ≡ WorkflowState.exporting
      → From r (complete_export core r path)
  complete_export-From r path e = done_at-From r _ (λ time. record {
    legal = rw e refl;
    revised = refl;
    same_input = refl;
    sound = λ s. ground arith;
  })

  export_anew-From :
      (r : Workflow) (id : ℕ) (target : Text)
      → r.state ≡ WorkflowState.exporting
      → From r (export_anew core r id target)
  unfolding export_anew
  export_anew-From r id target e =
      bind-From r _ _
        (Keeps-From
          (export_render-Keeps (record { render_id = id; directory = target; filename = none })))
        λ path. complete_export-From r path e

  pub export_step-From :
      (r : Workflow) → r.state ≡ WorkflowState.exporting → From r (export_step core r)
  unfolding export_step recovered
  export_step-From r e = then-From r _ _ (found-Silent _ _) λ id.
      then-From r _ _ (query-Silent _) λ render. then-From r _ _ (found-Silent _ _) λ target.
        bind-From r _ _ (Keeps-From (orderly.directories target)) λ held.
          then-From r _ _ (found-Silent held _) λ directory.
            bind-From r _ _
              (Keeps-From (bind-Keeps _ _ (orderly.hashes _) λ hash. Silent-Keeps (pure-Silent _)))
              λ exported.
                if-From r exported _ _
                  (λ there.
                    rescue-From r _ _ (complete_export-From r _ e) (export_anew-From r id target e))
                  (λ missing. export_anew-From r id target e)
