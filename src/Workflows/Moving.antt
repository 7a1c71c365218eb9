-- ===== src/Workflows/Moving.antt =====
-- src/core/short-workflows.ts: each step of `advance` moves its row as the states allow.
use short_editor.Prelude.{ℕ, ◌≡◌, refl, Bool, true, false, List, Option, none, some, arith}
use short_editor.Paths.{Text}
use short_editor.Store.{Job, JobState}
use short_editor.Workflows.{MotionGraphicLayer, WorkflowState, Workflow, Run, Core}
use short_editor.Workflows.Rows.{overwritten, update}
use short_editor.Workflows.Steps.{
  again, done, again_at, done_at, unless, join_or_start, analysis_unless, analysis_of, with_import,
  import_step, analysis_round, analysis_step, choose_candidate, accept_candidate, selection_step,
}
use short_editor.Workflows.Trail.{IsMove}
use short_editor.Workflows.Rules.{
  Silent, Keeps, From, Silent-Keeps, Keeps-From, pure-Silent, throw-Silent, found-Silent,
  gets-Silent, transact-Silent, call-Silent, demand-Silent, draw-Silent, now-Silent, bind-Silent,
  bind-From, then-From,
}
use short_editor.Workflows.Updates.{update-From}

module _ {R : Type 0} where
  pub again_at-From :
      (r : Workflow) (patch : Workflow → Workflow)
      → ((time : ℕ) → IsMove r (overwritten (patch r) time r))
      → From r (again_at (update {R = R} r.id r.revision patch))
  again_at-From r patch move =
      bind-From r _ _ (update-From r r.revision patch refl move)
        (λ nothing. Keeps-From (Silent-Keeps (pure-Silent again)))

  pub done_at-From :
      (r : Workflow) (patch : Workflow → Workflow)
      → ((time : ℕ) → IsMove r (overwritten (patch r) time r))
      → From r (done_at (update {R = R} r.id r.revision patch))
  done_at-From r patch move =
      bind-From r _ _ (update-From r r.revision patch refl move)
        (λ nothing. Keeps-From (Silent-Keeps (pure-Silent done)))

  pub throw-From : {A : Type 0} (r : Workflow) {m : Run R A} → Silent m → From r m
  throw-From r h = Keeps-From (Silent-Keeps h)

module _ {R : Type 0} where
  pub unless-Silent : (b : Bool) (m : Run R (Unit {0})) → Silent m → Silent (unless b m)
  unless-Silent true m h = pure-Silent tt
  unless-Silent false m h = h

-- While the coordinator awaits a call, others may move the workflows, as the states allow.
pub record IsOrderly {R : Type 0} (core : Core R) : Type 0 where
  pub imports : (path : Text) → Keeps (core.import_paths path)
  pub preflights :
      (short_id revision : ℕ) (layers : List MotionGraphicLayer)
      → Keeps (core.preflight_workflow_render short_id revision layers)
  pub directories : (path : Text) → Keeps (core.find_directory path)
  pub copies : (from : Text) (to : Text × Text) → Keeps (core.copy_file from to)
  pub hashes : (path : Text × Text) → Keeps (core.file_hash path)

module _ {R : Type 0} (core : Core R) (orderly : IsOrderly core) where
  join_or_start-Silent : (episode : ℕ) (o : Option Job) → Silent (join_or_start core episode o)
  unfolding join_or_start
  join_or_start-Silent episode (some j) = pure-Silent _
  join_or_start-Silent episode none = bind-Silent _ _ draw-Silent λ id.
      bind-Silent _ _ now-Silent λ time. bind-Silent _ _ (transact-Silent _) λ job. pure-Silent _

  analysis_unless-Silent : (b : Bool) (episode : ℕ) → Silent (analysis_unless core b episode)
  unfolding analysis_unless
  analysis_unless-Silent true episode = pure-Silent _
  analysis_unless-Silent false episode =
      bind-Silent _ _ (gets-Silent _) λ o. join_or_start-Silent episode o

  pub analysis_of-Silent : (episode : ℕ) → Silent (analysis_of core episode)
  unfolding analysis_of
  analysis_of-Silent episode =
      bind-Silent _ _ (gets-Silent _) λ accepted. analysis_unless-Silent accepted episode

  with_import-IsMove :
      (r : Workflow) (episode : ℕ) (job : Option ℕ) (time : ℕ)
      → r.state ≡ WorkflowState.importing
      → IsMove r (overwritten (with_import core episode job r) time r)
  with_import-IsMove r episode none time e = record {
    legal = rw e refl;
    revised = refl;
    same_input = refl;
    sound = λ s. ground arith;
  }
  with_import-IsMove r episode (some j) time e = record {
    legal = rw e refl;
    revised = refl;
    same_input = refl;
    sound = λ s. ground arith;
  }

  pub import_step-From :
      (r : Workflow) → r.state ≡ WorkflowState.importing → From r (import_step core r)
  unfolding import_step
  import_step-From r e =
      bind-From r _ _ (Keeps-From (orderly.imports r.input.source_path)) λ imports.
        then-From r _ _ (found-Silent _ _) λ episode. then-From r _ _ (demand-Silent _ _) λ nothing.
          then-From r _ _ (analysis_of-Silent episode.id) λ job.
            again_at-From r (with_import core episode.id job)
              (λ time. with_import-IsMove r episode.id job time e)

  analysis_round-From :
      (r : Workflow) (job : Job) (state : JobState)
      → r.state ≡ WorkflowState.analyzing
      → From r (analysis_round core r job state)
  unfolding analysis_round
  analysis_round-From r job JobState.failed e = throw-From r (throw-Silent _)
  analysis_round-From r job JobState.cancelled e = throw-From r (throw-Silent _)
  analysis_round-From r job JobState.succeeded e = again_at-From r _ (λ time. record {
    legal = rw e refl;
    revised = refl;
    same_input = refl;
    sound = λ s. ground arith;
  })
  analysis_round-From r job JobState.queued e = done_at-From r _ (λ time. record {
    legal = rw e refl;
    revised = refl;
    same_input = refl;
    sound = λ s. ground arith;
  })
  analysis_round-From r job JobState.running e = done_at-From r _ (λ time. record {
    legal = rw e refl;
    revised = refl;
    same_input = refl;
    sound = λ s. ground arith;
  })

  pub analysis_step-From :
      (r : Workflow) → r.state ≡ WorkflowState.analyzing → From r (analysis_step core r)
  unfolding analysis_step
  analysis_step-From r e =
      then-From r _ _ (gets-Silent _)
        λ held. then-From r _ _ (found-Silent held _) λ job. analysis_round-From r job job.state e

  pub selection_step-From :
      (r : Workflow) (o : Option ℕ)
      → r.state ≡ WorkflowState.selecting_candidate
      → From r (selection_step core r o)
  unfolding selection_step choose_candidate accept_candidate
  selection_step-From r none e = then-From r _ _ (found-Silent _ _) λ episode.
      then-From r _ _ (call-Silent _) λ candidates. then-From r _ _ (found-Silent _ _) λ chosen.
        again_at-From r _ (λ time. record {
          legal = rw e refl;
          revised = refl;
          same_input = refl;
          sound = λ s. ground arith;
        })
  selection_step-From r (some id) e = then-From r _ _ (call-Silent _) λ candidate.
      then-From r _ _ (call-Silent _) λ pack.
        then-From r _ _ (unless-Silent pack.accepted _ (call-Silent _)) λ accepted.
          then-From r _ _ (call-Silent _) λ fresh.
            then-From r _ _ (unless-Silent fresh.approved _ (call-Silent _)) λ reviewed.
              again_at-From r _ (λ time. record {
                legal = rw e refl;
                revised = refl;
                same_input = refl;
                sound = λ s. ground arith;
              })
