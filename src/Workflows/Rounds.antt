-- ===== src/Workflows/Rounds.antt =====
-- src/core/short-workflows.ts: a round of `advance` that goes on leaves fewer rounds to do.
use short_editor.Prelude.{
  ℕ, ◌==◌, ◌≡◌, ◌≢◌, ◌<◌, refl, sym, ap, ◌∙◌, inl, inr, if◌then◌else◌, Bool, true, false, List,
  Option, none, some, find-update_where, update_where, is_some, arith, Bool-cases, ==_self,
}
use short_editor.Store.{not_found}
use short_editor.Workflows.{
  WorkflowState, Workflow, World, Fault, Outcome, threw, returned, Run, found, pure, throw, demand,
  now, resume_from, ◌>>=◌, ◌>>◌,
}
use short_editor.Workflows.Rows.{
  workflow_has_id, is_at, overwritten, read, assert_revision, write_rows, update,
}
use short_editor.Workflows.Steps.{Round, again, done, again_at, done_at}
use short_editor.Workflows.Trail.{Trail, row_at, Advances, Trail-trans, later_or_same}
use short_editor.Workflows.Rules.{Silent, From, Silent-Keeps, Keeps-From}

-- The rounds that the row of a workflow takes at most, each going on to the next.
abbrev pub rounds_in : WorkflowState → Workflow → ℕ
rounds_in WorkflowState.importing r = 9
rounds_in WorkflowState.analyzing r = 8
rounds_in WorkflowState.selecting_candidate r = if is_some r.candidate_id then 6 else 7
rounds_in WorkflowState.assembling_draft r = 5
rounds_in WorkflowState.preflighting r = if is_some r.preflight_id then 3 else 4
rounds_in WorkflowState.rendering r = 2
rounds_in _ r = 1

abbrev pub rounds_left : Workflow → ℕ
rounds_left r = rounds_in r.state r

module _ {R : Type 0} where
  -- A call that goes on has left the row with fewer rounds.
  pub record Drops (r : Workflow) (m : Run R Round) : Type 0 where
    pub at :
        (w : World R)
        → Trail (some r) (row_at r.id w.workflows)
        → (m w).1 ≡ returned again
        → (s : Workflow) × (row_at r.id (m w).0.workflows ≡ some s)
          × (rounds_left s < rounds_left r)

  pub throw-Drops : (r : Workflow) (e : Fault) → Drops r (throw e)
  unfolding throw
  throw-Drops r e = record { at = λ w since goes. cc }

  pub done-Drops : (r : Workflow) → Drops r (pure done)
  unfolding pure
  done-Drops r = record { at = λ w since goes. cc }

  pub if-Drops :
      (r : Workflow) (b : Bool) (m n : Run R Round)
      → (b ≡ true → Drops r m)
      → (b ≡ false → Drops r n)
      → Drops r (if b then m else n)
  if-Drops r true m n h k = h refl
  if-Drops r false m n h k = k refl

module _ {R A : Type 0} where
  resume-Drops :
      (r : Workflow) (before : List Workflow) (o : World R × Outcome A) (f : A → Run R Round)
      → Trail (some r) (row_at r.id before)
      → Advances before o.0.workflows
      → ((a : A) → Drops r (f a))
      → (resume_from o f).1 ≡ returned again
      → (s : Workflow) × (row_at r.id (resume_from o f).0.workflows ≡ some s)
        × (rounds_left s < rounds_left r)
  resume-Drops r before (v, threw e) f since t k goes = cc
  resume-Drops r before (v, returned a) f since t k goes =
      (k a).at v (Trail-trans since (t r.id)) goes

  pub bind-Drops :
      (r : Workflow) (m : Run R A) (f : A → Run R Round)
      → From r m
      → ((a : A) → Drops r (f a))
      → Drops r (m >>= f)
  unfolding ◌>>=◌
  bind-Drops r m f h k = record {
    at = λ w since goes. resume-Drops r w.workflows (m w) f since (h.at w since) k goes;
  }

  pub then-Drops :
      (r : Workflow) (m : Run R A) (f : A → Run R Round)
      → Silent m
      → ((a : A) → Drops r (f a))
      → Drops r (m >>= f)
  then-Drops r m f h k = bind-Drops r m f (Keeps-From (Silent-Keeps h)) k

updated_row :
    (rows : List Workflow) (r : Workflow) (f : Workflow → Workflow)
    → row_at r.id rows ≡ some r
    → ((x : Workflow) → (f x).id ≡ x.id)
    → row_at r.id (update_where (is_at r.id r.revision) f rows) ≡ some (f r)
updated_row rows r f held same =
    let there =
      find-update_where (workflow_has_id r.id) (is_at r.id r.revision) f rows
        (λ x hit. ap (λ n. n == r.id) (same x)) in
    rw (there, held, ==_self r.id, ==_self r.revision)

module _ {R : Type 0} where
  returned_at :
      (r c : Workflow) (revision : ℕ) (patch : Workflow → Workflow) (w : World R)
      → r.revision ≡ revision
      → row_at r.id w.workflows ≡ some c
      → Trail (some r) (some c)
      → ((assert_revision c revision
            >> (now >>= λ time. write_rows (is_at r.id revision) (overwritten (patch c) time)))
          w).1
        ≡ returned tt
      → row_at r.id
          ((assert_revision c revision
              >> (now >>= λ time. write_rows (is_at r.id revision) (overwritten (patch c) time)))
            w).0.workflows
        ≡ some (overwritten (patch r) w.clock r)
  unfolding demand pure throw now ◌>>=◌
  returned_at r c revision patch w e held since goes = elim (Bool-cases (c.revision == revision)) [
    | inl same ↦ elim (later_or_same r since c refl) [
      | inr later ↦ absurd (ground (arith, same, e, later))
      | inl mine ↦
          rw (same, mine, sym e)
            (updated_row w.workflows r (overwritten (patch r) w.clock)
              (held ∙ ap (λ x. some x) mine) (λ x. refl))
    ]
    | inr other ↦ cc (rw other at goes)
  ]

  returned_read :
      (r : Workflow) (revision : ℕ) (patch : Workflow → Workflow) (w : World R)
      (o : Option Workflow)
      → r.revision ≡ revision
      → row_at r.id w.workflows ≡ o
      → Trail (some r) o
      → (resume_from (found o not_found w) (λ (c : Workflow).
          assert_revision c revision
          >> (now >>= λ time. write_rows (is_at r.id revision) (overwritten (patch c) time)))).1
        ≡ returned tt
      → row_at r.id
          (resume_from (found o not_found w) (λ (c : Workflow).
            assert_revision c revision
            >> (now >>= λ time.
                write_rows (is_at r.id revision) (overwritten (patch c) time)))).0.workflows
        ≡ some (overwritten (patch r) w.clock r)
  unfolding found pure throw
  returned_read r revision patch w none e held since goes = cc
  returned_read r revision patch w (some c) e held since goes =
      returned_at r c revision patch w e held since goes

  -- An update that has gone through has written its patch.
  update-returned :
      (r : Workflow) (patch : Workflow → Workflow) (w : World R)
      → Trail (some r) (row_at r.id w.workflows)
      → (update {R = R} r.id r.revision patch w).1 ≡ returned tt
      → row_at r.id (update {R = R} r.id r.revision patch w).0.workflows
        ≡ some (overwritten (patch r) w.clock r)
  unfolding update read ◌>>=◌
  update-returned r patch w since goes =
      returned_read r r.revision patch w (row_at r.id w.workflows) refl refl since goes

  ends_again :
      (o : World R × Outcome (Unit {0}))
      → (resume_from o (λ (x : Unit {0}). pure again)).1 ≡ returned again
      → (o.1 ≡ returned tt)
        × ((resume_from o (λ (x : Unit {0}). pure again)).0.workflows ≡ o.0.workflows)
  unfolding pure
  ends_again (v, threw e) goes = cc
  ends_again (v, returned x) goes = (refl, refl)

  ends_done :
      (o : World R × Outcome (Unit {0}))
      → (resume_from o (λ (x : Unit {0}). pure done)).1 ≢ returned again
  unfolding pure
  ends_done (v, threw e) goes = cc
  ends_done (v, returned x) goes = cc

  -- A round that ends with an update is over.
  pub done_at-Drops : (r : Workflow) (m : Run R (Unit {0})) → Drops r (done_at m)
  unfolding ◌>>=◌
  done_at-Drops r m = record { at = λ w since goes. absurd (ends_done (m w) goes) }

  pub again_at-Drops :
      (r : Workflow) (patch : Workflow → Workflow)
      → ((time : ℕ) → rounds_left (overwritten (patch r) time r) < rounds_left r)
      → Drops r (again_at (update {R = R} r.id r.revision patch))
  unfolding ◌>>=◌
  again_at-Drops r patch fewer = record {
    at = λ w since goes.
        let (went, rows) = ends_again (update r.id r.revision patch w) goes in
        (
          overwritten (patch r) w.clock r,
          ap (λ ws. row_at r.id ws) rows ∙ update-returned r patch w since went,
          fewer w.clock,
        );
  }
