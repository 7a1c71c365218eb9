-- ===== src/Jobs/Recovered.antt =====
-- src/core/repository.ts, `recoverJobs`: what the jobs are like after a restart.
use short_editor.Prelude.{
  ℕ, ◌≤◌, ◌≡◌, ◌≢◌, refl, sym, ◌∙◌, inl, inr, Bool, true, false, ◌&&◌, ◌||◌, ltb, List, [], ◌∷◌,
  Option, none, some, arith, any, update_where, All, All-mono, All-update_where_from, Bool-cases,
  ==→eq,
}
use Prim.Native.String.{String}
use short_editor.Store.{ErrorCode, Job, JobState, Render, RenderState}
use short_editor.Jobs.{has_id, whole, is_running, is_open}
use short_editor.Jobs.Rows.{HasDistinctIds, update_where-HasDistinctIds}
use short_editor.Jobs.Recovery.{
  Pair, Tally, is_render, recover_settled, recover_pair, recover_pairs, opens_id, runs_id,
  recovery_required, recovered_success, requeued, ended_as, is_cancelled,
}

-- The snapshot that the loop reads of a row is still true of it.
abbrev pub IsRead : Job → Pair → Type 0
IsRead x p =
    p.0.id ≡ x.id → (p.0.attempts ≡ x.attempts) × (p.0.cancel_requested ≡ x.cancel_requested)

abbrev pub is_ahead : Job → Pair → Bool
is_ahead x p = has_id x.id p.0 && is_running p.0.state

-- A row while the pairs `rest` are still to come.
pub record IsPending (rest : List Pair) (x : Job) : Type 0 where
  pub three_attempts : x.attempts ≤ 3
  pub fewer_when_queued : x.state ≡ JobState.queued → x.attempts ≤ 2
  pub queued_uncancelled : x.state ≡ JobState.queued → x.cancel_requested ≡ false
  pub progress_in_range : x.progress ≤ whole
  pub succeeded_whole : x.state ≡ JobState.succeeded → x.progress ≡ whole
  pub ahead : is_render x && is_running x.state ≡ true → any (is_ahead x) rest ≡ true
  pub read : All (IsRead x) rest

abbrev pub ArePending : List Pair → List Job → Type 0
ArePending rest jobs = HasDistinctIds jobs × All (IsPending rest) jobs

module _ (p : Pair) (rest : List Pair) (now : ℕ) (test : Job → Bool) where
  -- A row that the update for `p` misses does not run under the id of `p`, or `p` did not.
  missed :
      ((x : Job) → test x ≡ false → is_ahead x p && is_running x.state ≡ false)
      → (x : Job) → test x ≡ false
      → IsPending (p ∷ rest) x
      → IsPending rest x
  missed misses x miss s =
      let m = misses x miss in
      let a = s.ahead in
      record {
        three_attempts = s.three_attempts;
        fewer_when_queued = s.fewer_when_queued;
        queued_uncancelled = s.queued_uncancelled;
        progress_in_range = s.progress_in_range;
        succeeded_whole = s.succeeded_whole;
        ahead = λ h. let b = a h in ground arith;
        read = s.read.1;
      }

-- What the updates make of a row.
module _ (p : Pair) (rest : List Pair) (now : ℕ) (x : Job) (s : IsPending (p ∷ rest) x) where
  ended_as-IsPending :
      (state : JobState) (stage : String) (error : Option ErrorCode)
      → is_open state ≡ false
      → state ≢ JobState.succeeded
      → IsPending rest (ended_as state stage error now x)
  ended_as-IsPending state stage error closed unsuccessful = record {
    three_attempts = s.three_attempts;
    fewer_when_queued = λ e. ground (arith, closed, e);
    queued_uncancelled = λ e. ground (arith, closed, e);
    progress_in_range = s.progress_in_range;
    succeeded_whole = λ e. absurd (unsuccessful e);
    ahead = λ h. ground (arith, closed, h);
    read = s.read.1;
  }

  recovered_success-IsPending : IsPending rest (recovered_success now x)
  recovered_success-IsPending = record {
    three_attempts = s.three_attempts;
    fewer_when_queued = λ e. cc;
    queued_uncancelled = λ e. cc;
    progress_in_range = omega arith;
    succeeded_whole = λ e. refl;
    ahead = λ h. ground arith;
    read = s.read.1;
  }

  requeued-IsPending : x.attempts ≤ 2 → x.cancel_requested ≡ false → IsPending rest (requeued now x)
  requeued-IsPending few uncancelled = record {
    three_attempts = s.three_attempts;
    fewer_when_queued = λ e. few;
    queued_uncancelled = λ e. uncancelled;
    progress_in_range = s.progress_in_range;
    succeeded_whole = λ e. cc;
    ahead = λ h. ground arith;
    read = s.read.1;
  }

module _ (p : Pair) (rest : List Pair) (now : ℕ) (jobs : List Job)
    (before : ArePending (p ∷ rest) jobs) where
  updated :
      (test : Job → Bool) (f : Job → Job)
      → ((x : Job) → (f x).id ≡ x.id)
      → ((x : Job) → test x ≡ false → is_ahead x p && is_running x.state ≡ false)
      → ((x : Job) → test x ≡ true → IsPending (p ∷ rest) x → IsPending rest (f x))
      → ArePending rest (update_where test f jobs)
  updated test f same misses hits = (
    update_where-HasDistinctIds test f same jobs before.0,
    All-update_where_from (IsPending (p ∷ rest)) (IsPending rest) test f jobs hits
        (missed p rest now test misses) before.1,
  )

  opened :
      (state : JobState) (stage : String) (error : Option ErrorCode)
      → is_open state ≡ false
      → state ≢ JobState.succeeded
      → ArePending rest (update_where (opens_id p.0.id) (ended_as state stage error now) jobs)
  opened state stage error closed unsuccessful =
      updated (opens_id p.0.id) (ended_as state stage error now) (λ x. refl)
        (λ x miss. ground arith)
        (λ x hit s. ended_as-IsPending p rest now x s state stage error closed unsuccessful)

-- One step of the loop.
module _ (now : ℕ) (rest : List Pair) (j : Job) (t : Tally) where
  read_of :
      {r : Render} (x : Job)
      → runs_id j.id x ≡ true
      → IsPending ((j, some r) ∷ rest) x
      → (j.attempts ≡ x.attempts) × (j.cancel_requested ≡ x.cancel_requested)
  read_of x hit s = s.read.0 (sym (==→eq x.id j.id (ground arith)))

  settled-ArePending :
      (r : Render) (state : RenderState)
      → j.cancel_requested ≡ false
      → ArePending ((j, some r) ∷ rest) t.0.jobs
      → ArePending rest (recover_settled now j r state t).0.jobs
  unfolding recover_settled
  settled-ArePending r RenderState.succeeded asked h =
      updated (j, some r) rest now t.0.jobs h (opens_id j.id) (recovered_success now) (λ x. refl)
        (λ x miss. ground arith) (λ x hit s. recovered_success-IsPending (j, some r) rest now x s)
  settled-ArePending r RenderState.cancelled asked h =
      opened (j, some r) rest now t.0.jobs h JobState.cancelled "cancelled" _ refl (λ e. cc)
  settled-ArePending r RenderState.stale asked h =
      opened (j, some r) rest now t.0.jobs h JobState.failed "failed" _ refl (λ e. cc)
  settled-ArePending r RenderState.failed asked h =
      opened (j, some r) rest now t.0.jobs h JobState.failed "failed" _ refl (λ e. cc)
  settled-ArePending r RenderState.running asked h =
      opened (j, some r) rest now t.0.jobs h JobState.failed "recovery_required" _ refl (λ e. cc)
  settled-ArePending r RenderState.queued asked h = elim (Bool-cases (is_running j.state)) [
    | inl running ↦ rw running (elim (Bool-cases (ltb j.attempts 3)) [
      | inl few ↦ rw few (
          updated (j, some r) rest now t.0.jobs h (runs_id j.id) (requeued now) (λ x. refl)
            (λ x miss. ground arith)
            (λ x hit s.
              requeued-IsPending (j, some r) rest now x s
                (let a = (read_of x hit s).0 in ground arith) (sym (read_of x hit s).1 ∙ asked)))
      | inr many ↦ rw many (
          updated (j, some r) rest now t.0.jobs h (runs_id j.id) (recovery_required now) (λ x. refl)
            (λ x miss. ground arith)
            (λ x hit s.
              ended_as-IsPending (j, some r) rest now x s JobState.failed "recovery_required" _ refl
                (λ e. cc)))
    ])
    | inr waiting ↦ rw waiting (
      h.0,
      All-mono (IsPending ((j, some r) ∷ rest)) (IsPending rest) t.0.jobs
          (λ x s. missed (j, some r) rest now (λ y. false) (λ y miss. ground arith) x refl s) h.1,
    )
  ]

  recover_pair-ArePending :
      (o : Option Render)
      → ArePending ((j, o) ∷ rest) t.0.jobs
      → ArePending rest (recover_pair now (j, o) t).0.jobs
  unfolding recover_pair
  recover_pair-ArePending none h =
      updated (j, none) rest now t.0.jobs h (has_id j.id) (recovery_required now) (λ x. refl)
        (λ x miss. ground arith)
        (λ x hit s.
          ended_as-IsPending (j, none) rest now x s JobState.failed "recovery_required" _ refl
            (λ e. cc))
  recover_pair-ArePending (some r) h =
      elim (Bool-cases (j.cancel_requested || is_cancelled j.state)) [
        | inl asked ↦
            rw asked (
              opened (j, some r) rest now t.0.jobs h JobState.cancelled "cancelled" _ refl
                (λ e. cc))
        | inr unasked ↦ rw unasked (settled-ArePending r r.state (ground arith) h)
      ]

pub recover_pairs-ArePending :
    (now : ℕ) (ps : List Pair) (t : Tally)
    → ArePending ps t.0.jobs
    → ArePending [] (recover_pairs now ps t).0.jobs
unfolding recover_pairs
recover_pairs-ArePending now [] t h = h
recover_pairs-ArePending now ((j, o) ∷ ps) t h =
    recover_pairs-ArePending now ps (recover_pair now (j, o) t)
      (recover_pair-ArePending now ps j t o h)
