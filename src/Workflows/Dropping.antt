-- ===== src/Workflows/Dropping.antt =====
-- src/core/short-workflows.ts: each step of `advance` that goes on leaves fewer rounds to do.
use short_editor.Prelude.{
  ℕ, ◌≡◌, ◌<◌, inl, inr, Bool, true, false, List, Option, none, some, is_some, arith, Bool-cases,
}
use short_editor.Paths.{Text}
use short_editor.Store.{Job, JobState, Render, RenderState, Short}
use short_editor.Workflows.{
  Run, WorkflowState, MotionGraphicLayer, Workflow, World, Outcome, threw, returned, Core,
}
use short_editor.Workflows.Rows.{overwritten}
use short_editor.Workflows.Steps.{
  Round, again, with_import, import_step, analysis_round, analysis_step, choose_candidate,
  accept_candidate, selection_step, after_draft, assembly_step,
}
use short_editor.Workflows.Finishing.{
  rescued, rescue, reattach, start_render, record_preflight, preflight_round, render_or_reattach,
  preflight_step, still_rendering, render_round, render_step, export_anew, recovered, export_step,
}
use short_editor.Workflows.Trail.{Advances, Trail-trans, Trail, row_at}
use short_editor.Workflows.Rules.{
  From, Silent-Keeps, Keeps-From, pure-Silent, found-Silent, gets-Silent, query-Silent,
  transact-Silent, call-Silent, demand-Silent, draw-Silent, now-Silent, bind-Keeps,
}
use short_editor.Workflows.Moving.{IsOrderly, unless-Silent, analysis_of-Silent}
use short_editor.Workflows.Drafting.{drafted-Silent, shortened-Silent, captioned-Silent}
use short_editor.Workflows.Ending.{
  complete_export-From, approved_short-Silent, preflight_of-Keeps, export_render-Keeps,
}
use short_editor.Workflows.Rounds.{
  rounds_left, Drops, throw-Drops, if-Drops, bind-Drops, then-Drops, done_at-Drops, again_at-Drops,
}

module _ {R : Type 0} where
  rescued-Drops :
      (r : Workflow) (before : List Workflow) (o : World R × Outcome Round) (n : Run R Round)
      → Trail (some r) (row_at r.id before)
      → Advances before o.0.workflows
      → (o.1 ≡ returned again
          → (s : Workflow) × (row_at r.id o.0.workflows ≡ some s) × (rounds_left s < rounds_left r))
      → Drops r n
      → (rescued o n).1 ≡ returned again
      → (s : Workflow) × (row_at r.id (rescued o n).0.workflows ≡ some s)
        × (rounds_left s < rounds_left r)
  rescued-Drops r before (w, returned round) n since t h k goes = h goes
  rescued-Drops r before (w, threw e) n since t h k goes = k.at w (Trail-trans since (t r.id)) goes

  rescue-Drops :
      (r : Workflow) (m n : Run R Round) → From r m → Drops r m → Drops r n → Drops r (rescue m n)
  unfolding rescue
  rescue-Drops r m n f h k = record {
    at = λ w since goes.
        rescued-Drops r w.workflows (m w) n since (f.at w since) (h.at w since) k goes;
  }

module _ {R : Type 0} (core : Core R) (orderly : IsOrderly core) where
  with_import-lt :
      (r : Workflow) (episode : ℕ) (job : Option ℕ) (time : ℕ)
      → r.state ≡ WorkflowState.importing
      → rounds_left (overwritten (with_import core episode job r) time r) < rounds_left r
  with_import-lt r episode none time e = ground (arith, e)
  with_import-lt r episode (some j) time e = ground (arith, e)

  pub import_step-Drops :
      (r : Workflow) → r.state ≡ WorkflowState.importing → Drops r (import_step core r)
  unfolding import_step
  import_step-Drops r e =
      bind-Drops r _ _ (Keeps-From (orderly.imports r.input.source_path)) λ imports.
        then-Drops r _ _ (found-Silent _ _) λ episode.
          then-Drops r _ _ (demand-Silent _ _) λ nothing.
            then-Drops r _ _ (analysis_of-Silent core orderly episode.id) λ job.
              again_at-Drops r (with_import core episode.id job)
                (λ time. with_import-lt r episode.id job time e)

  analysis_round-Drops :
      (r : Workflow) (job : Job) (state : JobState)
      → r.state ≡ WorkflowState.analyzing
      → Drops r (analysis_round core r job state)
  unfolding analysis_round
  analysis_round-Drops r job JobState.failed e = throw-Drops r _
  analysis_round-Drops r job JobState.cancelled e = throw-Drops r _
  analysis_round-Drops r job JobState.succeeded e = again_at-Drops r _ (λ time. ground (arith, e))
  analysis_round-Drops r job JobState.queued e = done_at-Drops r _
  analysis_round-Drops r job JobState.running e = done_at-Drops r _

  pub analysis_step-Drops :
      (r : Workflow) → r.state ≡ WorkflowState.analyzing → Drops r (analysis_step core r)
  unfolding analysis_step
  analysis_step-Drops r e =
      then-Drops r _ _ (gets-Silent _)
        λ held. then-Drops r _ _ (found-Silent held _) λ job. analysis_round-Drops r job job.state e

  pub selection_step-Drops :
      (r : Workflow) (o : Option ℕ)
      → r.state ≡ WorkflowState.selecting_candidate
      → r.candidate_id ≡ o
      → Drops r (selection_step core r o)
  unfolding selection_step choose_candidate accept_candidate
  selection_step-Drops r none e h = then-Drops r _ _ (found-Silent _ _) λ episode.
      then-Drops r _ _ (call-Silent _) λ candidates.
        then-Drops r _ _ (found-Silent _ _)
          λ chosen. again_at-Drops r _ (λ time. ground (arith, e, h))
  selection_step-Drops r (some id) e h = then-Drops r _ _ (call-Silent _) λ candidate.
      then-Drops r _ _ (call-Silent _) λ pack.
        then-Drops r _ _ (unless-Silent pack.accepted _ (call-Silent _)) λ accepted.
          then-Drops r _ _ (call-Silent _) λ fresh.
            then-Drops r _ _ (unless-Silent fresh.approved _ (call-Silent _))
              λ reviewed. again_at-Drops r _ (λ time. ground (arith, e, h))

  drafted-lt :
      (r : Workflow) (b : Bool) (n short : ℕ) (layers : List MotionGraphicLayer) (time : ℕ)
      → r.state ≡ WorkflowState.assembling_draft
      → rounds_left (
          overwritten
            (record r {
              state = after_draft core b;
              progress = n;
              short_id = some short;
              graphics_proposal = layers;
            })
            time
            r)
        < rounds_left r
  drafted-lt r true n short layers time e = ground (arith, e)
  drafted-lt r false n short layers time e = ground (arith, e)

  pub assembly_step-Drops :
      (r : Workflow) → r.state ≡ WorkflowState.assembling_draft → Drops r (assembly_step core r)
  unfolding assembly_step
  assembly_step-Drops r e = then-Drops r _ _ (found-Silent _ _) λ episode.
      then-Drops r _ _ (found-Silent _ _) λ candidate.
        then-Drops r _ _ (drafted-Silent core r episode candidate) λ project.
          then-Drops r _ _ (shortened-Silent core r project) λ short.
            then-Drops r _ _ (captioned-Silent core r short) λ final.
              again_at-Drops r _ (λ time. drafted-lt r r.input.auto_approve _ final.id _ time e)

  reattach-Drops :
      (r : Workflow) (render : Render)
      → r.state ≡ WorkflowState.preflighting
      → Drops r (reattach core r render)
  unfolding reattach
  reattach-Drops r render e = then-Drops r _ _ (gets-Silent _) λ held.
      then-Drops r _ _ (found-Silent held _) λ job. again_at-Drops r _ (λ time. ground (arith, e))

  start_render-Drops :
      (r : Workflow) (project : Short) (preflight : ℕ)
      → Drops r (start_render core r project preflight)
  unfolding start_render
  start_render-Drops r project preflight = then-Drops r _ _ draw-Silent λ render_id.
      then-Drops r _ _ draw-Silent λ job_id.
        then-Drops r _ _ now-Silent
          λ time. then-Drops r _ _ (transact-Silent _) λ started. done_at-Drops r _

  record_preflight-Drops :
      (r : Workflow) (preflight : ℕ)
      → r.state ≡ WorkflowState.preflighting
      → is_some r.preflight_id ≡ false
      → Drops r (record_preflight core r preflight)
  unfolding record_preflight
  record_preflight-Drops r preflight e new = again_at-Drops r _ (λ time. ground (arith, e, new))

  preflight_round-Drops :
      (r : Workflow) (project : Short)
      → r.state ≡ WorkflowState.preflighting
      → Drops r (preflight_round core r project)
  unfolding preflight_round
  preflight_round-Drops r project e =
      bind-Drops r _ _ (Keeps-From (preflight_of-Keeps core orderly r project r.preflight_id))
        λ preflight. then-Drops r _ _ (demand-Silent _ _) λ nothing.
          if-Drops r (is_some r.preflight_id) _ _ (λ old. start_render-Drops r project preflight.0)
            (λ new. record_preflight-Drops r preflight.0 e new)

  render_or_reattach-Drops :
      (r : Workflow) (project : Short) (o : Option Render)
      → r.state ≡ WorkflowState.preflighting
      → Drops r (render_or_reattach core r project o)
  unfolding render_or_reattach
  render_or_reattach-Drops r project none e = preflight_round-Drops r project e
  render_or_reattach-Drops r project (some render) e = reattach-Drops r render e

  pub preflight_step-Drops :
      (r : Workflow) → r.state ≡ WorkflowState.preflighting → Drops r (preflight_step core r)
  unfolding preflight_step
  preflight_step-Drops r e = then-Drops r _ _ (found-Silent _ _) λ id.
      then-Drops r _ _ (query-Silent _) λ held.
        then-Drops r _ _ (approved_short-Silent core orderly held) λ project.
          then-Drops r _ _ (gets-Silent _) λ existing. render_or_reattach-Drops r project existing e

  still_rendering-Drops : (r : Workflow) → Drops r (still_rendering core r)
  unfolding still_rendering
  still_rendering-Drops r = then-Drops r _ _ (gets-Silent _) λ job. done_at-Drops r _

  render_round-Drops :
      (r : Workflow) (state : RenderState)
      → r.state ≡ WorkflowState.rendering
      → Drops r (render_round core r state)
  unfolding render_round
  render_round-Drops r RenderState.failed e = throw-Drops r _
  render_round-Drops r RenderState.stale e = throw-Drops r _
  render_round-Drops r RenderState.cancelled e = throw-Drops r _
  render_round-Drops r RenderState.queued e = still_rendering-Drops r
  render_round-Drops r RenderState.running e = still_rendering-Drops r
  render_round-Drops r RenderState.succeeded e =
      elim (Bool-cases (is_some r.input.export_directory)) [
        | inl exports ↦ rw exports (again_at-Drops r _ (λ time. ground (arith, e)))
        | inr ends ↦ rw ends (done_at-Drops r _)
      ]

  pub render_step-Drops :
      (r : Workflow) → r.state ≡ WorkflowState.rendering → Drops r (render_step core r)
  unfolding render_step
  render_step-Drops r e =
      then-Drops r _ _ (found-Silent _ _)
        λ id. then-Drops r _ _ (query-Silent _) λ render. render_round-Drops r render.state e

  export_anew-Drops :
      (r : Workflow) (id : ℕ) (target : Text) → Drops r (export_anew core r id target)
  unfolding export_anew
  export_anew-Drops r id target =
      bind-Drops r _ _
        (Keeps-From (
          export_render-Keeps core orderly
            (record { render_id = id; directory = target; filename = none })))
        λ path. done_at-Drops r _

  pub export_step-Drops :
      (r : Workflow) → r.state ≡ WorkflowState.exporting → Drops r (export_step core r)
  unfolding export_step recovered
  export_step-Drops r e = then-Drops r _ _ (found-Silent _ _) λ id.
      then-Drops r _ _ (query-Silent _) λ render. then-Drops r _ _ (found-Silent _ _) λ target.
        bind-Drops r _ _ (Keeps-From (orderly.directories target)) λ held.
          then-Drops r _ _ (found-Silent held _) λ directory.
            bind-Drops r _ _
              (Keeps-From (bind-Keeps _ _ (orderly.hashes _) λ hash. Silent-Keeps (pure-Silent _)))
              λ exported.
                if-Drops r exported _ _
                  (λ there.
                    rescue-Drops r _ _ (complete_export-From core orderly r _ e) (done_at-Drops r _)
                      (export_anew-Drops r id target))
                  (λ missing. export_anew-Drops r id target)
