-- ===== src/Workflows/Rules.antt =====
-- src/core/short-workflows.ts: rules for calls that leave the workflows alone, and for calls that
-- move them from a row that has been read.
use short_editor.Prelude.{
  ◌≡◌, refl, sym, subst, ◌∙◌, if◌then◌else◌, Bool, true, false, List, Option, none, some,
}
use short_editor.Store.{Db, ErrorCode, Result}
use short_editor.Workflows.{
  Workflow, World, Fault, Outcome, threw, returned, Run, CoreCall, written_as, pure, throw, found,
  gets, query, transact, call, resume_from, ◌>>=◌, demand, draw, now,
}
use short_editor.Workflows.Trail.{Trail, stays, row_at, Advances, Trail-trans}

module _ {R A : Type 0} where
  -- The rows of the workflows are as before.
  pub record Silent (m : Run R A) : Type 0 where
    pub at : (w : World R) → (m w).0.workflows ≡ w.workflows

  -- Every row stays, or goes on by updates that are allowed.
  pub record Keeps (m : Run R A) : Type 0 where
    pub at : (w : World R) → Advances w.workflows (m w).0.workflows

  -- The same, of a call that goes on from the row `r`, read at some time before.
  pub record From (r : Workflow) (m : Run R A) : Type 0 where
    pub at :
        (w : World R)
        → Trail (some r) (row_at r.id w.workflows)
        → Advances w.workflows (m w).0.workflows

  pub Silent-Keeps : {m : Run R A} → Silent m → Keeps m
  Silent-Keeps {m} h = record {
    at =
        λ w id. subst (λ rows. Trail (row_at id w.workflows) (row_at id rows)) (sym (h.at w)) stays;
  }

  pub Keeps-From : {r : Workflow} {m : Run R A} → Keeps m → From r m
  Keeps-From h = record { at = λ w t. h.at w }

  pub pure-Silent : (a : A) → Silent (pure {R = R} a)
  unfolding pure
  pure-Silent a = record { at = λ w. refl }

  pub throw-Silent : (e : Fault) → Silent (throw {R = R} {A = A} e)
  unfolding throw
  throw-Silent e = record { at = λ w. refl }

  pub found-Silent : (o : Option A) (code : ErrorCode) → Silent (found {R = R} o code)
  unfolding found
  found-Silent none code = throw-Silent _
  found-Silent (some a) code = pure-Silent a

  pub gets-Silent : (f : World R → A) → Silent (gets f)
  unfolding gets
  gets-Silent f = record { at = λ w. refl }

  pub query-Silent : (f : Db → Result A) → Silent (query {R = R} f)
  unfolding query
  query-Silent f = record { at = λ w. refl }

  written_rows : (r : Result (Db × A)) (w : World R) → (written_as r w).0.workflows ≡ w.workflows
  written_rows (Result.fail code) w = refl
  written_rows (Result.ok (next, a)) w = refl

  pub transact-Silent : (f : Db → Result (Db × A)) → Silent (transact {R = R} f)
  unfolding transact
  transact-Silent f = record { at = λ w. written_rows (f w.db) w }

  pub call-Silent : (f : CoreCall R A) → Silent (call f)
  unfolding call
  call-Silent f = record { at = λ w. refl }

  pub if-Silent : (b : Bool) (m n : Run R A) → Silent m → Silent n → Silent (if b then m else n)
  if-Silent true m n h k = h
  if-Silent false m n h k = k

  pub if-From :
      (r : Workflow) (b : Bool) (m n : Run R A)
      → (b ≡ true → From r m)
      → (b ≡ false → From r n)
      → From r (if b then m else n)
  if-From r true m n h k = h refl
  if-From r false m n h k = k refl

module _ {R : Type 0} where
  pub demand-Silent : (b : Bool) (code : ErrorCode) → Silent (demand {R = R} b code)
  unfolding demand
  demand-Silent true code = pure-Silent tt
  demand-Silent false code = throw-Silent _

  pub draw-Silent : Silent (draw {R = R})
  unfolding draw
  draw-Silent = record { at = λ w. refl }

  pub now-Silent : Silent (now {R = R})
  unfolding now
  now-Silent = record { at = λ w. refl }

module _ {R A B : Type 0} where
  Silent-resume :
      (o : World R × Outcome A) (f : A → Run R B)
      → ((a : A) → Silent (f a))
      → (resume_from o f).0.workflows ≡ o.0.workflows
  Silent-resume (v, threw e) f k = refl
  Silent-resume (v, returned a) f k = (k a).at v

  pub bind-Silent :
      (m : Run R A) (f : A → Run R B) → Silent m → ((a : A) → Silent (f a)) → Silent (m >>= f)
  unfolding ◌>>=◌
  bind-Silent m f h k = record { at = λ w. Silent-resume (m w) f k ∙ h.at w }

  Keeps-resume :
      (before : List Workflow) (o : World R × Outcome A) (f : A → Run R B)
      → Advances before o.0.workflows
      → ((a : A) → Keeps (f a))
      → Advances before (resume_from o f).0.workflows
  Keeps-resume before (v, threw e) f t k = t
  Keeps-resume before (v, returned a) f t k = λ id. Trail-trans (t id) ((k a).at v id)

  pub bind-Keeps :
      (m : Run R A) (f : A → Run R B) → Keeps m → ((a : A) → Keeps (f a)) → Keeps (m >>= f)
  unfolding ◌>>=◌
  bind-Keeps m f h k = record { at = λ w. Keeps-resume w.workflows (m w) f (h.at w) k }

  From-resume :
      (r : Workflow) (before : List Workflow) (o : World R × Outcome A) (f : A → Run R B)
      → Trail (some r) (row_at r.id before)
      → Advances before o.0.workflows
      → ((a : A) → From r (f a))
      → Advances before (resume_from o f).0.workflows
  From-resume r before (v, threw e) f since t k = t
  From-resume r before (v, returned a) f since t k =
      λ id. Trail-trans (t id) ((k a).at v (Trail-trans since (t r.id)) id)

  pub bind-From :
      (r : Workflow) (m : Run R A) (f : A → Run R B)
      → From r m
      → ((a : A) → From r (f a))
      → From r (m >>= f)
  unfolding ◌>>=◌
  bind-From r m f h k = record {
    at = λ w since. From-resume r w.workflows (m w) f since (h.at w since) k;
  }

  -- A call that first leaves the rows alone.
  pub then-From :
      (r : Workflow) (m : Run R A) (f : A → Run R B)
      → Silent m
      → ((a : A) → From r (f a))
      → From r (m >>= f)
  then-From r m f h k = bind-From r m f (Keeps-From (Silent-Keeps h)) k

  pub then-Keeps :
      (m : Run R A) (f : A → Run R B) → Silent m → ((a : A) → Keeps (f a)) → Keeps (m >>= f)
  then-Keeps m f h k = bind-Keeps m f (Silent-Keeps h) k

module _ {R A B : Type 0} where
  -- What follows a value that is there knows where it comes from.
  pub found-From :
      (r : Workflow) (o : Option A) (code : ErrorCode) (f : A → Run R B)
      → ((a : A) → o ≡ some a → From r (f a))
      → From r (found o code >>= f)
  unfolding found pure throw ◌>>=◌
  found-From r none code f k = record { at = λ w since id. stays }
  found-From r (some a) code f k = record { at = (k a refl).at }

module _ {R B : Type 0} where
  -- What follows a test knows that it has been met.
  pub demand-From :
      (r : Workflow) (b : Bool) (code : ErrorCode) (f : Unit {0} → Run R B)
      → (b ≡ true → From r (f tt))
      → From r (demand b code >>= f)
  unfolding demand pure throw ◌>>=◌
  demand-From r true code f k = record { at = (k refl).at }
  demand-From r false code f k = record { at = λ w since id. stays }
