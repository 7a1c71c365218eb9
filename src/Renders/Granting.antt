-- ===== src/Renders/Granting.antt =====
-- src/core/repository.ts, `startRenderAttempt` and `retryRenderAttempt`: what they grant a new attempt
-- on, and what it leaves in the tables.
use short_editor.Prelude.{
  ℕ, ◌==◌, ◌≡◌, ◌⊎◌, refl, subst, inl, inr, true, not, ◌&&◌, ltb, some, count_where, option_eq,
  option_eq→eq, ==→eq, &&_both, ltb→lt,
}
use short_editor.Store.{
  Db, Short, Render, RenderState, RenderSnapshot, Preflight, ok, found_or, found_or-eq-ok,
  >>=-eq-ok, >>-eq-ok, ok-injective, invalid_state, revision_conflict,
}
use short_editor.Jobs.{insert_job}
use short_editor.Shorts.{get_short}
use short_editor.Renders.{
  Attempt, RenderStart, start_render_attempt, retry_render_attempt, get_render, get_preflight,
  in_lineage, max_attempt, retry_from, retryable_state, is_stale, newest, renders_job, snapshot_of,
  write_attempt, insert_render, first_attempt, next_attempt, preflight_ok,
}
use short_editor.Renders.Granted.{IsPassed, Granted, Written, Started, Retried}

IsPassed-of :
    (db : Db) (preflight_id short_id revision : ℕ) (p : Preflight)
    → get_preflight db preflight_id ≡ ok p
    → preflight_ok p short_id revision ≡ true
    → IsPassed db preflight_id short_id revision p
IsPassed-of db preflight_id short_id revision p checked passed =
    let (flags, same_revision) = &&_both _ _ passed in
    let (flag, same_short) = &&_both _ _ flags in
    record {
      on_record = checked;
      passed = flag;
      of_short = ==→eq _ _ same_short;
      of_revision = ==→eq _ _ same_revision;
    }

write_attempt-Written : (db : Db) (a : Attempt) → Written db (write_attempt db a) a
unfolding insert_job insert_render
write_attempt-Written db a = record {
  renders = refl;
  jobs = refl;
  shorts = refl;
  episodes = refl;
  entries = refl;
  authorizations = refl;
  preflights = refl;
}

first_attempt-Started :
    (db : Db) (input : RenderStart) (render_id job_id now : ℕ)
    → (g : Granted db input.short_id input.expected_revision input.preflight_id)
    → let a = first_attempt input g.preflight render_id job_id now in
      Started db (write_attempt db a) input render_id job_id a
first_attempt-Started db input render_id job_id now g = record {
  granted = g;
  queued = record {
    id = refl;
    of_short = refl;
    of_revision = refl;
    on_preflight = refl;
    state = refl;
    no_output = refl;
    of_job = refl;
    job_type = refl;
    job_state = refl;
    job_reference = refl;
  };
  number = refl;
  lineage = refl;
  previous = refl;
  decision = refl;
  written = write_attempt-Written db (first_attempt input g.preflight render_id job_id now);
}

-- A start is granted on the Short as it is approved at the expected revision and on a preflight of
-- that revision that has passed. It adds attempt 1 of a new lineage, queued for the Short at the
-- revision and decided by the snapshot of the preflight, and a queued job that renders it; nothing
-- else in the tables changes.
pub start_render_attempt-Started :
    (db next : Db) (input : RenderStart) (render_id job_id now : ℕ) (a : Attempt)
    → start_render_attempt db input render_id job_id now ≡ ok (next, a)
    → Started db next input render_id job_id a
unfolding start_render_attempt
start_render_attempt-Started db next input render_id job_id now a h =
    let (s, held, h₁) = >>=-eq-ok (get_short db input.short_id) _ h in
    let (current, h₂) = >>-eq-ok _ revision_conflict _ h₁ in
    let (approved, h₃) = >>-eq-ok s.approved invalid_state _ h₂ in
    let (p, checked, h₄) = >>=-eq-ok (get_preflight db input.preflight_id) _ h₃ in
    let (passed, h₅) = >>-eq-ok _ invalid_state _ h₄ in
    subst (λ (x : Db × Attempt). Started db x.0 input render_id job_id x.1) (ok-injective h₅)
      (first_attempt-Started db input render_id job_id now (record {
        short = s;
        preflight = p;
        held = held;
        current = ==→eq _ _ current;
        approved = approved;
        checked = IsPassed-of db input.preflight_id _ _ p checked passed;
      }))

record Rechecked (db : Db) (source : Render) (preflight_id render_id job_id now : ℕ) (next : Db)
    (a : Attempt) : Type 0 where
  preflight : Preflight
  checked : IsPassed db preflight_id source.short_id source.project_revision preflight
  decided : source.decision_hash ≡ some preflight.snapshot_hash
  sidecars : RenderSnapshot
  result :
      ◌≡◌ {A = Db × Attempt}
        (
          write_attempt db (next_attempt source preflight_id sidecars render_id job_id now),
          next_attempt source preflight_id sidecars render_id job_id now,
        )
        (next, a)

retry_from-Rechecked :
    (db next : Db) (source : Render) (p render_id job_id now : ℕ) (a : Attempt)
    → retry_from db source p render_id job_id now ≡ ok (next, a)
    → Rechecked db source p render_id job_id now next a
unfolding retry_from
retry_from-Rechecked db next source p render_id job_id now a h =
    let (j, posted, h₁) =
      >>=-eq-ok (found_or (newest (renders_job source.id) db.jobs) invalid_state) _ h in
    let (snap, taken, h₂) = >>=-eq-ok (found_or (snapshot_of j.payload) invalid_state) _ h₁ in
    let (agrees, h₃) = >>-eq-ok _ invalid_state _ h₂ in
    let (preflight, checked, h₄) = >>=-eq-ok (get_preflight db p) _ h₃ in
    let (passed, h₅) = >>-eq-ok _ invalid_state _ h₄ in
    let (allowed, same_hash) =
      &&_both (preflight_ok preflight source.short_id source.project_revision)
        (option_eq source.decision_hash (some preflight.snapshot_hash)) passed in
    record {
      preflight = preflight;
      checked = IsPassed-of db p _ _ preflight checked allowed;
      decided = option_eq→eq _ _ same_hash;
      sidecars = snap;
      result = ok-injective h₅;
    }

retryable_state-over :
    (s : RenderState)
    → retryable_state s ≡ true
    → (s ≡ RenderState.failed) ⊎ (s ≡ RenderState.cancelled)
retryable_state-over RenderState.queued h = cc
retryable_state-over RenderState.running h = cc
retryable_state-over RenderState.succeeded h = cc
retryable_state-over RenderState.failed h = inl refl
retryable_state-over RenderState.cancelled h = inr refl
retryable_state-over RenderState.stale h = cc

module _ (db next : Db) (source_id render_id job_id now : ℕ) (a : Attempt) where
  granted_retry :
      (source : Render) (s : Short) (p : ℕ)
      → get_render db source_id ≡ ok source
      → get_short db source.short_id ≡ ok s
      → retryable_state source.state ≡ true
      → source.preflight_id ≡ some p
      → s.revision == source.project_revision ≡ true
      → s.approved ≡ true
      → max_attempt source.lineage_id db.renders == source.attempt ≡ true
      → ltb (count_where (in_lineage source.lineage_id) db.renders) 3 && ltb source.attempt 3 ≡ true
      → retry_from db source p render_id job_id now ≡ ok (next, a)
      → Retried db source_id render_id job_id next a
  granted_retry source s p found held over same_preflight current approved last few h =
      let t = retry_from-Rechecked db next source p render_id job_id now a h in
      let counted =
        &&_both (ltb (count_where (in_lineage source.lineage_id) db.renders) 3)
          (ltb source.attempt 3) few in
      subst (λ (x : Db × Attempt). Retried db source_id render_id job_id x.0 x.1) t.result
        (record {
          source = source;
          found = found;
          over = retryable_state-over source.state over;
          last = ==→eq _ _ last;
          few = ltb→lt source.attempt 3 counted.1;
          preflight_id = p;
          same_preflight = same_preflight;
          granted = record {
            short = s;
            preflight = t.preflight;
            held = held;
            current = ==→eq _ _ current;
            approved = approved;
            checked = t.checked;
          };
          decided = t.decided;
          queued = record {
            id = refl;
            of_short = refl;
            of_revision = refl;
            on_preflight = refl;
            state = refl;
            no_output = refl;
            of_job = refl;
            job_type = refl;
            job_state = refl;
            job_reference = refl;
          };
          number = refl;
          lineage = refl;
          previous = refl;
          decision = refl;
          written =
              write_attempt-Written db (next_attempt source p t.sidecars render_id job_id now);
        })

  -- A retry is granted on an attempt that has failed or was cancelled, has a number below three and
  -- is the last of its lineage, on the Short as it is approved at the revision of that attempt, and
  -- on the preflight of that attempt, which has passed for that revision with the snapshot that the
  -- attempt was decided by. It adds the attempt with the next number in the lineage, queued for the
  -- same Short, revision and decision, and a queued job that renders it; nothing else in the tables
  -- changes.
  pub retry_render_attempt-Retried :
      retry_render_attempt db source_id render_id job_id now ≡ ok (next, a)
      → Retried db source_id render_id job_id next a
  unfolding retry_render_attempt
  retry_render_attempt-Retried h =
      let (source, found, h₁) = >>=-eq-ok (get_render db source_id) _ h in
      let (s, held, h₂) = >>=-eq-ok (get_short db source.short_id) _ h₁ in
      let (fresh, h₃) = >>-eq-ok (not (is_stale source.state)) revision_conflict _ h₂ in
      let (over, h₄) = >>-eq-ok (retryable_state source.state) invalid_state _ h₃ in
      let (p, same, h₅) = >>=-eq-ok (found_or source.preflight_id invalid_state) _ h₄ in
      let (current, h₆) = >>-eq-ok (s.revision == source.project_revision) revision_conflict _ h₅ in
      let (approved, h₇) = >>-eq-ok s.approved revision_conflict _ h₆ in
      let (last, h₈) =
        >>-eq-ok (max_attempt source.lineage_id db.renders == source.attempt) invalid_state _ h₇ in
      let (few, h₉) =
        >>-eq-ok
          (ltb (count_where (in_lineage source.lineage_id) db.renders) 3 && ltb source.attempt 3)
          invalid_state (retry_from db source p render_id job_id now) h₈ in
      granted_retry source s p found held over
        (found_or-eq-ok source.preflight_id invalid_state same) current approved last few h₉
