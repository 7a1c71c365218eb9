-- ===== src/Renders/Completion.antt =====
-- src/core/repository.ts, `completeRenderAttempt`: how an attempt ends, and what its row shows.
use short_editor.Prelude.{
  ℕ, ◌≡◌, refl, sym, ◌∙◌, ap, subst, inl, inr, Bool, true, false, Option, some, find, update_where,
  if◌then◌else◌, Bool-cases,
}
use short_editor.Store.{
  Db, Short, Render, RenderState, ok, ◌>>=◌, ◌>>◌, require, found_or, >>=-eq-ok, >>-eq-ok,
  found_or-eq-ok, not_found, invalid_state, validation_error,
}
use short_editor.Jobs.{render_has_id, render_is_running}
use short_editor.Shorts.{get_short}
use short_editor.Renders.{get_render}
use short_editor.Renders.Moves.{transition_render-Moved, Moved-held}
use short_editor.Renders.Transition.{
  transition_render, complete_render_attempt, conclude, check_job, Completion, PathPatch, keeps,
  clears, puts, path_patch, is_approved_at, matches, compared, first_reference, in_state,
  settle_cancelled, settle_stale, settle_mismatch, settle_succeeded,
}

-- How the attempt of the row `source` ends, by what the database and the completion say.
pub data Ending (db : Db) (source : Render) (id expected : ℕ) (c : Completion) (job_id : Option ℕ)
    : RenderState → Type 0 where
  by_request :
      check_job db id job_id ≡ ok true → Ending db source id expected c job_id RenderState.cancelled
  by_edit :
      (s : Short)
      → check_job db id job_id ≡ ok false
      → get_short db source.short_id ≡ ok s
      → is_approved_at s expected ≡ false
      → Ending db source id expected c job_id RenderState.stale
  by_mismatch :
      (s : Short)
      → check_job db id job_id ≡ ok false
      → get_short db source.short_id ≡ ok s
      → is_approved_at s expected ≡ true
      → c.valid ≡ true
      → matches (first_reference id c.evidence.identity_hash db.renders) c.evidence ≡ false
      → Ending db source id expected c job_id RenderState.failed
  by_success :
      (s : Short)
      → check_job db id job_id ≡ ok false
      → get_short db source.short_id ≡ ok s
      → is_approved_at s expected ≡ true
      → c.valid ≡ true
      → matches (first_reference id c.evidence.identity_hash db.renders) c.evidence ≡ true
      → Ending db source id expected c job_id RenderState.succeeded

running-eq : (s : RenderState) → render_is_running s ≡ true → s ≡ RenderState.running
running-eq RenderState.running h = refl
running-eq RenderState.queued h = cc
running-eq RenderState.succeeded h = cc
running-eq RenderState.failed h = cc
running-eq RenderState.cancelled h = cc
running-eq RenderState.stale h = cc

-- What `determinism_json` of a finished attempt holds.
abbrev pub Proves : Db → ℕ → Completion → Render → Type 0
Proves db id c r =
    r.state ≡ RenderState.succeeded
    → r.determinism
      ≡ some (compared (first_reference id c.evidence.identity_hash db.renders) c.evidence)

-- The row before the call, how it ended, and the row after.
pub record Ended (db : Db) (id expected : ℕ) (c : Completion) (job_id : Option ℕ) (next : Db)
    (r : Render) : Type 0 where
  pub source : Render
  pub held : find (render_has_id id) db.renders ≡ some source
  pub was : source.state ≡ RenderState.running
  pub ending : Ending db source id expected c job_id r.state
  pub found : find (render_has_id id) next.renders ≡ some r
  pub written :
      next ≡ record db { renders = update_where (in_state id source.state) (λ _. r) db.renders }
  pub proved : Proves db id c r

module _ (db next : Db) (id expected : ℕ) (c : Completion) (job_id : Option ℕ) (now : ℕ)
    (r source : Render) (held : find (render_has_id id) db.renders ≡ some source)
    (was : render_is_running source.state ≡ true) where
  -- An ending that a transition to the state of `set` has written.
  from_transition :
      (output sidecar : PathPatch) (set : Render → Render)
      → ((x : Render) → (set x).id ≡ x.id)
      → ((x : Render) → Ending db source id expected c job_id (set x).state)
      → ((x : Render) → Proves db id c (set x))
      → transition_render db id render_is_running output sidecar set now ≡ ok (next, r)
      → Ended db id expected c job_id next r
  from_transition output sidecar set same ending proves h =
      let m = transition_render-Moved db next id render_is_running output sidecar set now r h in
      let same_row : m.source ≡ source = cc (m.held, held) in
      record {
        source = source;
        held = held;
        was = running-eq source.state was;
        ending = subst (Ending db source id expected c job_id) (sym m.state) (ending m.source);
        found = Moved-held m same;
        written =
            m.written
            ∙ ap
                (λ (q : Render). record db {
                  renders = update_where (in_state id q.state) (λ _. r) db.renders;
                })
                same_row;
        proved = λ e. m.determinism ∙ proves m.source (sym m.state ∙ e);
      }

  concluded :
      (s : Short)
      → check_job db id job_id ≡ ok false
      → get_short db source.short_id ≡ ok s
      → is_approved_at s expected ≡ true
      → c.valid ≡ true
      → conclude db id c now ≡ ok (next, r)
      → Ended db id expected c job_id next r
  unfolding conclude
  concluded s unasked short current valid h =
      let reference = first_reference id c.evidence.identity_hash db.renders in
      elim (Bool-cases (matches reference c.evidence)) [
        | inl fits ↦
            from_transition (puts c.output_path) (path_patch c.sidecar_path)
              (settle_succeeded c (compared reference c.evidence)) (λ x. refl)
              (λ x. by_success s unasked short current valid fits) (λ x e. refl) (rw fits at h)
        | inr differs ↦
            from_transition clears clears (settle_mismatch (compared reference c.evidence))
              (λ x. refl) (λ x. by_mismatch s unasked short current valid differs) (λ x e. cc)
              (rw differs at h)
      ]

  judged :
      (cancelled : Bool)
      → check_job db id job_id ≡ ok cancelled
      → (if cancelled
          then transition_render db id render_is_running keeps keeps settle_cancelled now
          else (do
            project ← get_short db source.short_id
            if is_approved_at project expected
                then require c.valid validation_error >> conclude db id c now
                else transition_render db id render_is_running keeps keeps
                    (settle_stale c.valid)
                    now))
        ≡ ok (next, r)
      → Ended db id expected c job_id next r
  judged true asked h =
      from_transition keeps keeps settle_cancelled (λ x. refl) (λ x. by_request asked) (λ x e. cc) h
  judged false unasked h =
      let (s, short, h₁) = >>=-eq-ok (get_short db source.short_id) _ h in
      elim (Bool-cases (is_approved_at s expected)) [
        | inl current ↦
            let (valid, h₂) =
              >>-eq-ok c.valid validation_error (conclude db id c now) (rw current at h₁) in
            concluded s unasked short current valid h₂
        | inr edited ↦
            from_transition keeps keeps (settle_stale c.valid) (λ x. refl)
              (λ x. by_edit s unasked short edited) (λ x e. cc) (rw edited at h₁)
      ]

-- A completion that goes through found its attempt running, and the row that it gives back, which
-- the table then holds, has ended as cancelled where its job was asked to stop; else as stale
-- where the Short is no longer approved at the expected revision; else, with a validation that
-- passed, as failed where the streams differ from those of the reference and as succeeded where
-- they do not.
pub complete_render_attempt-Ending :
    (db next : Db) (id expected : ℕ) (c : Completion) (job_id : Option ℕ) (now : ℕ) (r : Render)
    → complete_render_attempt db id expected c job_id now ≡ ok (next, r)
    → Ended db id expected c job_id next r
unfolding complete_render_attempt get_render
complete_render_attempt-Ending db next id expected c job_id now r h =
    let (source, found, h₁) =
      >>=-eq-ok (found_or (find (render_has_id id) db.renders) not_found) _ h in
    let held = found_or-eq-ok (find (render_has_id id) db.renders) not_found found in
    let (was, h₂) = >>-eq-ok (render_is_running source.state) invalid_state _ h₁ in
    let (cancelled, asked, h₃) = >>=-eq-ok (check_job db id job_id) _ h₂ in
    judged db next id expected c job_id now r source held was cancelled asked h₃
