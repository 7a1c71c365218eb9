-- ===== src/Renders/Moves.antt =====
-- src/core/repository.ts, `transitionRender`: the row before and after.
use short_editor.Prelude.{
  ℕ, ◌==◌, ◌≡◌, sym, ◌∙◌, ap, Bool, true, some, arith, find, find-holds, find-update_where,
  update_where, ==_self,
}
use short_editor.Store.{
  Db, Render, RenderState, ok, found_or, >>=-eq-ok, >>-eq-ok, found_or-eq-ok, ok-injective,
  not_found, invalid_state, validation_error,
}
use short_editor.Jobs.{render_has_id}
use short_editor.Renders.{get_render}
use short_editor.Renders.Transition.{
  transition_render, PathPatch, patched_path, in_state, state_code,
}

-- What a transition does: the row is replaced where it stands, and stays elsewhere as it was.
pub record Moved (db : Db) (id : ℕ) (allowed : RenderState → Bool) (set : Render → Render)
    (next : Db) (r : Render) : Type 0 where
  pub source : Render
  pub held : find (render_has_id id) db.renders ≡ some source
  pub was : allowed source.state ≡ true
  pub state : r.state ≡ (set source).state
  pub id_kept : r.id ≡ (set source).id
  pub determinism : r.determinism ≡ (set source).determinism
  pub written :
      next ≡ record db { renders = update_where (in_state id source.state) (λ _. r) db.renders }

pub transition_render-Moved :
    (db next : Db) (id : ℕ) (allowed : RenderState → Bool) (output sidecar : PathPatch)
    (set : Render → Render) (now : ℕ) (r : Render)
    → transition_render db id allowed output sidecar set now ≡ ok (next, r)
    → Moved db id allowed set next r
unfolding transition_render get_render
transition_render-Moved db next id allowed output sidecar set now r h =
    let (source, held, h₁) =
      >>=-eq-ok (found_or (find (render_has_id id) db.renders) not_found) _ h in
    let (was, h₂) = >>-eq-ok (allowed source.state) invalid_state _ h₁ in
    let (out, e₁, h₃) = >>=-eq-ok (patched_path output source.output_path) _ h₂ in
    let (side, e₂, h₄) = >>=-eq-ok (patched_path sidecar source.sidecar_path) _ h₃ in
    let (good, h₅) = >>-eq-ok _ validation_error _ h₄ in
    let (hit, h₆) = >>-eq-ok _ invalid_state _ h₅ in
    let e = ok-injective h₆ in
    record {
      source = source;
      held = found_or-eq-ok _ not_found held;
      was = was;
      state = sym (ap (λ p. p.1.state) e);
      id_kept = sym (ap (λ p. p.1.id) e);
      determinism = sym (ap (λ p. p.1.determinism) e);
      written =
          sym (ap (λ p. p.0) e)
          ∙ ap
              (λ (q : Render). record db {
                renders = update_where (in_state id source.state) (λ _. q) db.renders;
              })
              (ap (λ p. p.1) e);
    }

module _ {db next : Db} {id : ℕ} {allowed : RenderState → Bool} {set : Render → Render} {r : Render}
    (m : Moved db id allowed set next r) (same : (x : Render) → (set x).id ≡ x.id) where
  own : r.id ≡ m.source.id
  own = m.id_kept ∙ same m.source

  source-id : render_has_id id m.source ≡ true
  source-id = find-holds (render_has_id id) db.renders m.source m.held

  result-id : render_has_id id r ≡ true
  result-id = ap (λ n. n == id) own ∙ source-id

  -- The row that is returned is the row that the table holds.
  pub Moved-held : find (render_has_id id) next.renders ≡ some r
  Moved-held =
      ap (λ (d : Db). find (render_has_id id) d.renders) m.written
      ∙ find-update_where (render_has_id id) (in_state id m.source.state) (λ _. r) db.renders kept
      ∙ rw (m.held, source-id, ==_self (state_code m.source.state))
    where
      kept :
          (x : Render)
          → in_state id m.source.state x ≡ true
          → render_has_id id r ≡ render_has_id id x
      kept x hit = ground (arith, result-id)
