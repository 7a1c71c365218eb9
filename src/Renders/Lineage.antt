-- ===== src/Renders/Lineage.antt =====
-- src/core/repository.ts, `startRenderAttempt` and `retryRenderAttempt`: the numbers of the attempts
-- in a lineage.
use short_editor.Prelude.{
  ℕ, ◌+◌, ◌≤◌, ◌≡◌, sym, ◌∙◌, ap, subst, inl, inr, max, List, [], ◌∷◌, ◌++◌, arith, count_where,
  if◌then◌else◌, Bool-cases, ==→eq,
}
use short_editor.Store.{Db, Render, ok}
use short_editor.Renders.Granted.{Written}
use short_editor.Renders.Granting.{start_render_attempt-Started, retry_render_attempt-Retried}
use short_editor.Renders.{
  Attempt, RenderStart, start_render_attempt, retry_render_attempt, in_lineage, max_attempt,
}

-- The attempts of each lineage are numbered from 1 without a gap, and there are at most three.
abbrev pub AreNumbered : List Render → Type 0
-- In each lineage the highest number of an attempt is the number of the attempts, three at most.
AreNumbered renders =
    (lineage : ℕ)
    → (max_attempt lineage renders ≡ count_where (in_lineage lineage) renders)
      × (count_where (in_lineage lineage) renders ≤ 3)

max_attempt-snoc :
    (lineage : ℕ) (renders : List Render) (r : Render)
    → max_attempt lineage (renders ++ r ∷ []) ≡ (
        if in_lineage lineage r
        then max (max_attempt lineage renders) r.attempt
        else max_attempt lineage renders)
max_attempt-snoc lineage [] r = ground arith
max_attempt-snoc lineage (x ∷ xs) r = ground (arith, max_attempt-snoc lineage xs r)

count-snoc :
    (lineage : ℕ) (renders : List Render) (r : Render)
    → count_where (in_lineage lineage) (renders ++ r ∷ []) ≡ (
        if in_lineage lineage r
        then count_where (in_lineage lineage) renders + 1
        else count_where (in_lineage lineage) renders)
count-snoc lineage [] r = ground arith
count-snoc lineage (x ∷ xs) r = ground (arith, count-snoc lineage xs r)

-- The next attempt of a lineage, with number three at most, may be added.
pub snoc-AreNumbered :
    (renders : List Render) (r : Render)
    → AreNumbered renders
    → r.attempt ≡ max_attempt r.lineage_id renders + 1
    → r.attempt ≤ 3
    → AreNumbered (renders ++ r ∷ [])
snoc-AreNumbered renders r h next small lineage =
    rw (max_attempt-snoc lineage renders r, count-snoc lineage renders r)
      (elim (Bool-cases (in_lineage lineage r)) [
        | inl own ↦ rw own (
            let n : r.attempt ≡ max_attempt lineage renders + 1 =
              subst (λ l. r.attempt ≡ max_attempt l renders + 1) (==→eq _ _ own) next in
            let old = h lineage in ground arith)
        | inr other ↦ rw other (h lineage)
      ])

Written-AreNumbered :
    (db next : Db) (a : Attempt)
    → AreNumbered db.renders
    → Written db next a
    → a.render.attempt ≡ max_attempt a.render.lineage_id db.renders + 1
    → a.render.attempt ≤ 3
    → AreNumbered next.renders
Written-AreNumbered db next a old w number small =
    subst AreNumbered (sym w.renders) (snoc-AreNumbered db.renders a.render old number small)

-- A retry keeps this of every lineage: the highest number of an attempt is the number of the
-- attempts, and that is at most three.
pub retry_render_attempt-AreNumbered :
    (db next : Db) (source_id render_id job_id now : ℕ) (a : Attempt)
    → AreNumbered db.renders
    → retry_render_attempt db source_id render_id job_id now ≡ ok (next, a)
    → AreNumbered next.renders
retry_render_attempt-AreNumbered db next source_id render_id job_id now a old h =
    let t = retry_render_attempt-Retried db next source_id render_id job_id now a h in
    let few = t.few in
    let number = t.number in
    Written-AreNumbered db next a old t.written
      (t.number
        ∙ ap (λ n. n + 1) (sym t.last)
        ∙ ap (λ l. max_attempt l db.renders + 1) (sym t.lineage))
      (omega arith)

-- A start under an id that no lineage has yet keeps this of every lineage: the highest number of
-- an attempt is the number of the attempts, and that is at most three.
start_render_attempt-AreNumbered :
    (db next : Db) (input : RenderStart) (render_id job_id now : ℕ) (a : Attempt)
    → count_where (in_lineage render_id) db.renders ≡ 0
    → AreNumbered db.renders
    → start_render_attempt db input render_id job_id now ≡ ok (next, a)
    → AreNumbered next.renders
start_render_attempt-AreNumbered db next input render_id job_id now a unused old h =
    let t = start_render_attempt-Started db next input render_id job_id now a h in
    let number = t.number in
    Written-AreNumbered db next a old t.written
      (t.number
        ∙ ap (λ n. n + 1) (sym ((old render_id).0 ∙ unused))
        ∙ ap (λ l. max_attempt l db.renders + 1) (sym t.lineage))
      (omega arith)
