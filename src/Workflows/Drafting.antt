-- ===== src/Workflows/Drafting.antt =====
-- src/core/short-workflows.ts: the draft, the preflight, the Render and the export move their row as the
-- states allow.
use short_editor.Prelude.{ℕ, ◌≡◌, refl, Bool, true, false, List, Option, none, some, arith}
use short_editor.Store.{Short}
use short_editor.Workflows.{WorkflowState, MotionGraphicLayer, Workflow, Core}
use short_editor.Workflows.Rows.{overwritten}
use short_editor.Workflows.Steps.{
  draft_or_make, drafted, cut, shortened, without_captions, captioned, assembly_step, after_draft,
}
use short_editor.Workflows.Trail.{IsMove}
use short_editor.Workflows.Rules.{
  Silent, From, pure-Silent, found-Silent, gets-Silent, query-Silent, transact-Silent, call-Silent,
  if-Silent, now-Silent, bind-Silent, then-From,
}
use short_editor.Workflows.Moving.{again_at-From}

module _ {R : Type 0} (core : Core R) where
  draft_or_make-Silent :
      (r : Workflow) (candidate : ℕ) (o : Option Short) → Silent (draft_or_make core r candidate o)
  unfolding draft_or_make
  draft_or_make-Silent r candidate none = bind-Silent _ _ (call-Silent _) λ id. query-Silent _
  draft_or_make-Silent r candidate (some project) = pure-Silent _

  pub drafted-Silent :
      (r : Workflow) (episode candidate : ℕ) → Silent (drafted core r episode candidate)
  unfolding drafted
  drafted-Silent r episode candidate =
      bind-Silent _ _ (gets-Silent _) λ held. draft_or_make-Silent r candidate held

  pub shortened-Silent : (r : Workflow) (project : Short) → Silent (shortened core r project)
  unfolding shortened cut
  shortened-Silent r project =
      if-Silent _ _ _ (bind-Silent _ _ now-Silent λ time. transact-Silent _) (pure-Silent _)

  pub captioned-Silent : (r : Workflow) (project : Short) → Silent (captioned core r project)
  unfolding captioned without_captions
  captioned-Silent r project =
      if-Silent _ _ _ (bind-Silent _ _ now-Silent λ time. transact-Silent _) (pure-Silent _)

  drafted-IsMove :
      (r : Workflow) (b : Bool) (n : ℕ) (short : ℕ) (layers : List MotionGraphicLayer) (time : ℕ)
      → r.state ≡ WorkflowState.assembling_draft
      → IsMove r (
          overwritten
            (record r {
              state = after_draft core b;
              progress = n;
              short_id = some short;
              graphics_proposal = layers;
            })
            time
            r)
  drafted-IsMove r true n short layers time e = record {
    legal = rw e refl;
    revised = refl;
    same_input = refl;
    sound = λ s. ground arith;
  }
  drafted-IsMove r false n short layers time e = record {
    legal = rw e refl;
    revised = refl;
    same_input = refl;
    sound = λ s. ground arith;
  }

  pub assembly_step-From :
      (r : Workflow) → r.state ≡ WorkflowState.assembling_draft → From r (assembly_step core r)
  unfolding assembly_step
  assembly_step-From r e = then-From r _ _ (found-Silent _ _) λ episode.
      then-From r _ _ (found-Silent _ _) λ candidate.
        then-From r _ _ (drafted-Silent r episode candidate) λ project.
          then-From r _ _ (shortened-Silent r project) λ short.
            then-From r _ _ (captioned-Silent r short) λ final.
              again_at-From r _ (λ time. drafted-IsMove r r.input.auto_approve _ final.id _ time e)
