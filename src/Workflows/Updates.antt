-- ===== src/Workflows/Updates.antt =====
-- src/core/short-workflows.ts: `read` and `update` by the rows that they meet.
use short_editor.Prelude.{
  ℕ, ◌==◌, ◌≡◌, refl, sym, ap, subst, ◌∙◌, inl, inr, if◌then◌else◌, true, List, Option, none, some,
  find-holds, find-update_where, update_where, Bool-cases, Option-cases, &&_both, ==→eq, arith,
}
use short_editor.Store.{not_found}
use short_editor.Workflows.{
  Workflow, World, Run, pure, found, throw, ◌>>=◌, ◌>>◌, demand, now, resume_from,
}
use short_editor.Workflows.Rows.{
  workflow_has_id, is_at, overwritten, read, write_rows, assert_revision, update,
}
use short_editor.Workflows.Trail.{IsMove, Trail, stays, moves, row_at, Advances, later_or_same}
use short_editor.Workflows.Rules.{Keeps, From}

module _ {R B : Type 0} where
  read_then :
      (id : ℕ) (f : Workflow → Run R B) (w : World R) (o : Option Workflow)
      → row_at id w.workflows ≡ o
      → ((r : Workflow) → r.id ≡ id → From r (f r))
      → Advances w.workflows (resume_from (found o not_found w) f).0.workflows
  unfolding found pure throw
  read_then id f w none e k = λ other. stays
  read_then id f w (some r) e k =
      let own : r.id ≡ id = ==→eq _ _ (find-holds (workflow_has_id id) w.workflows r e) in
      (k r own).at w
        (subst (λ o. Trail (some r) o) (sym e ∙ ap (λ n. row_at n w.workflows) (sym own)) stays)

  -- What goes on from the row that it has just read.
  pub read-Keeps :
      (id : ℕ) (f : Workflow → Run R B)
      → ((r : Workflow) → r.id ≡ id → From r (f r))
      → Keeps (read id >>= f)
  unfolding read ◌>>=◌
  read-Keeps id f k = record { at = λ w. read_then id f w (row_at id w.workflows) refl k }

moved :
    (r x : Workflow) (f : Workflow → Workflow)
    → (is_at r.id r.revision x ≡ true → x ≡ r)
    → IsMove r (f r)
    → Trail (some x) (some (if is_at r.id r.revision x then f x else x))
moved r x f own move = elim (Bool-cases (is_at r.id r.revision x)) [
  | inl hit ↦ rw (hit, own hit) (moves stays move)
  | inr miss ↦ rw miss stays
]

-- An update of the row under an id at its revision.
row_moves :
    (rows : List Workflow) (r : Workflow) (f : Workflow → Workflow)
    → row_at r.id rows ≡ some r
    → ((x : Workflow) → (f x).id ≡ x.id)
    → IsMove r (f r)
    → Advances rows (update_where (is_at r.id r.revision) f rows)
row_moves rows r f held same move id =
    let there =
      find-update_where (workflow_has_id id) (is_at r.id r.revision) f rows
        (λ x hit. ap (λ n. n == id) (same x)) in
    elim (Option-cases (row_at id rows)) [
      | inl absent ↦ rw (there, absent) stays
      | inr (x, present) ↦
          let own : is_at r.id r.revision x ≡ true → x ≡ r = λ hit.
            let mine : x.id ≡ r.id = ==→eq _ _ (&&_both _ _ hit).0 in
            let asked : x.id ≡ id = ==→eq _ _ (find-holds (workflow_has_id id) rows x present) in
            cc (held, present, mine, asked) in
          rw (there, present) (moved r x f own move)
    ]

module _ {R : Type 0} where
  update_at :
      (r c : Workflow) (revision : ℕ) (patch : Workflow → Workflow) (w : World R)
      → r.revision ≡ revision
      → ((time : ℕ) → IsMove r (overwritten (patch r) time r))
      → row_at r.id w.workflows ≡ some c
      → Trail (some r) (some c)
      → Advances w.workflows
          ((assert_revision c revision
              >> (now >>= λ time. write_rows (is_at r.id revision) (overwritten (patch c) time)))
            w).0.workflows
  unfolding demand pure throw now ◌>>=◌
  update_at r c revision patch w e move held since = elim (Bool-cases (c.revision == revision)) [
    | inr other ↦ rw other (λ id. stays)
    | inl same ↦ elim (later_or_same r since c refl) [
      | inr later ↦ absurd (ground (arith, same, e, later))
      | inl mine ↦
          rw (same, mine, sym e)
            (row_moves w.workflows r (overwritten (patch r) w.clock) (held ∙ ap (λ x. some x) mine)
              (λ x. refl) (move w.clock))
    ]
  ]

  update_read :
      (r : Workflow) (revision : ℕ) (patch : Workflow → Workflow) (w : World R)
      (o : Option Workflow)
      → r.revision ≡ revision
      → ((time : ℕ) → IsMove r (overwritten (patch r) time r))
      → row_at r.id w.workflows ≡ o
      → Trail (some r) o
      → Advances w.workflows
          (resume_from (found o not_found w) (λ (c : Workflow).
            assert_revision c revision
            >> (now >>= λ time.
                write_rows (is_at r.id revision) (overwritten (patch c) time)))).0.workflows
  unfolding found pure throw
  update_read r revision patch w none e move held since = λ id. stays
  update_read r revision patch w (some c) e move held since =
      update_at r c revision patch w e move held since

  -- An update from the row that was read at the revision.
  pub update-From :
      (r : Workflow) (revision : ℕ) (patch : Workflow → Workflow)
      → r.revision ≡ revision
      → ((time : ℕ) → IsMove r (overwritten (patch r) time r))
      → From r (update {R = R} r.id revision patch)
  unfolding update read ◌>>=◌
  update-From r revision patch e move = record {
    at = λ w since. update_read r revision patch w (row_at r.id w.workflows) e move refl since;
  }
