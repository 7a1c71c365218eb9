-- ===== src/Workflows/Rows.antt =====
-- src/core/short-workflows.ts: reading and updating the row of a workflow.
use short_editor.Prelude.{ℕ, ◌+◌, ◌==◌, Bool, ◌&&◌, find, update_where}
use short_editor.Store.{not_found, revision_conflict}
use short_editor.Workflows.{Workflow, Run, returned, found, demand, now, ◌>>=◌, ◌>>◌}

abbrev pub workflow_has_id : ℕ → Workflow → Bool
workflow_has_id id r = r.id == id

-- `WHERE id=? AND revision=?`
abbrev pub is_at : ℕ → ℕ → Workflow → Bool
is_at id revision r = workflow_has_id id r && r.revision == revision

-- The columns that the UPDATE writes from `next`.
abbrev pub overwritten : Workflow → ℕ → Workflow → Workflow
overwritten next time r = record r {
  state = next.state;
  revision = r.revision + 1;
  progress = next.progress;
  graphics_proposal = next.graphics_proposal;
  episode_id = next.episode_id;
  analysis_job_id = next.analysis_job_id;
  candidate_id = next.candidate_id;
  short_id = next.short_id;
  preflight_id = next.preflight_id;
  render_id = next.render_id;
  render_job_id = next.render_job_id;
  export_path = next.export_path;
  failure = next.failure;
  updated_at = time;
}

module _ {R : Type 0} where
  unfoldable pub read : ℕ → Run R Workflow
  read id w = found (find (workflow_has_id id) w.workflows) not_found w

  abbrev pub assert_revision : Workflow → ℕ → Run R (Unit {0})
  assert_revision r expected = demand (r.revision == expected) revision_conflict

  abbrev pub write_rows : (Workflow → Bool) → (Workflow → Workflow) → Run R (Unit {0})
  write_rows p f w = (record w { workflows = update_where p f w.workflows }, returned tt)

  -- `patch` is the spread of the patch over the row. A row that has just been read at the revision is
  -- still there for the UPDATE.
  unfoldable pub update : ℕ → ℕ → (Workflow → Workflow) → Run R (Unit {0})
  unfolding read
  update id revision patch = do
    current ← read id
    assert_revision current revision
    time ← now
    write_rows (is_at id revision) (overwritten (patch current) time)
