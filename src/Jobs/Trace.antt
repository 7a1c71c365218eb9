-- ===== src/Jobs/Trace.antt =====
-- src/core/jobs.ts: the queue and its runner as interleaved calls, and what every history keeps.
use short_editor.Prelude.{
  ℕ, ◌≡◌, sym, ◌⊎◌, inl, inr, Bool, false, [], ◌∷◌, Option, none, some, arith, All-append, All-find,
  find, ℤ, Option-cases, subst,
}
use Prim.Native.String.{String}
use short_editor.Store.{Db, Job, JobType, JobState, after}
use short_editor.Jobs
use short_editor.Jobs.{JobRequest, is_open, has_id, claimable, oldest, opens, runs, cancelled_job}
use short_editor.Jobs.Rows.{IsFresh, append-HasDistinctIds}
use short_editor.Jobs.Runner.{Runner, Outcome, begin_tick, settle, handled, end_tick, start, stop}
use short_editor.Jobs.Recovery.{recover_jobs}
use short_editor.Jobs.Restart.{recover_jobs-Inv}
use short_editor.Jobs.Invariant.{
  IsSound, Inv, id_of, progress-Inv, settle-Inv, cancel-Inv, claim_next-Inv, enqueue-Inv,
}

-- A row as `insertJob` writes it.
pub record IsNew (j : Job) : Type 0 where
  pub queued : j.state ≡ JobState.queued
  pub unattempted : j.attempts ≡ 0
  pub uncancelled : j.cancel_requested ≡ false
  pub unprogressed : j.progress ≡ 0

module _ (available : ℕ → Bool) (installed : JobType → Bool) where
  -- One call. `works` is a write of a handler or of another service to the other tables, and
  -- `inserts` the job that a service writes beside its own rows; `restarts` is an end of the process
  -- and the next start, whose runner has no job in its hands.
  pub data Step (r : Runner) : Runner → Type 0 where
    enqueues :
        (request : JobRequest) (id now : ℕ)
        → IsFresh id r.db.jobs
        → Step r (record r { db = after r.db (Jobs.enqueue available r.db request id now) })
    enqueues_unique :
        (request : JobRequest) (id now : ℕ)
        → IsFresh id r.db.jobs
        → Step r (record r { db = after r.db (Jobs.enqueue_unique available r.db request id now) })
    inserts :
        (j : Job)
        → IsFresh j.id r.db.jobs
        → IsNew j
        → Step r (record r { db = Jobs.insert_job r.db j })
    cancels : (id now : ℕ) → Step r (record r { db = after r.db (Jobs.cancel r.db id now) })
    progresses :
        (id : ℕ) (amount : ℤ) (stage : String) (now : ℕ)
        → Step r (record r { db = Jobs.progress r.db id amount stage now })
    works : (db : Db) → db.jobs ≡ r.db.jobs → Step r (record r { db = db })
    begins : (now : ℕ) → Step r (begin_tick available r now)
    ends : (outcome : Outcome) (now : ℕ) → Step r (end_tick installed r outcome now)
    starts : Step r (start r)
    stops : Step r (stop r)
    restarts :
        (now : ℕ)
        → Step r (record {
          db = (recover_jobs r.db now).0;
          claimed = none;
          stopping = false;
          ticking = false;
        })

  pub data Reach (r : Runner) : Runner → Type 0 where
    here : Reach r r
    next : {s t : Runner} → Reach r s → Step s t → Reach r t

  abbrev pub RunnerInv : Runner → Type 0
  RunnerInv r = Inv (id_of r.claimed) r.db.jobs

  insert-Inv :
      (w : Option ℕ) (db : Db) (j : Job)
      → IsFresh j.id db.jobs
      → IsNew j
      → Inv w db.jobs
      → Inv w (Jobs.insert_job db j).jobs
  unfolding Jobs.insert_job
  insert-Inv w db j fresh new v = record {
    distinct = append-HasDistinctIds db.jobs j fresh v.distinct;
    sound = All-append (IsSound w) db.jobs (j ∷ []) v.sound (ground arith, tt);
  }

  enqueue_unique-Inv :
      (w : Option ℕ) (db : Db) (request : JobRequest) (id now : ℕ)
      → IsFresh id db.jobs
      → Inv w db.jobs
      → Inv w (after db (Jobs.enqueue_unique available db request id now)).jobs
  unfolding Jobs.enqueue_unique
  enqueue_unique-Inv w db request id now fresh v =
      elim (Option-cases (oldest (Jobs.pending_like request) db.jobs)) [
        | inl absent ↦
            rw (absent, Jobs.enqueue_unique) (enqueue-Inv available w db request id now fresh v)
        | inr (j, e) ↦ rw (e, Jobs.enqueue_unique) v
      ]

  pub begin_tick-cases :
      (r : Runner) (now : ℕ)
      → (begin_tick available r now ≡ r)
        ⊎ ((r.claimed ≡ none)
            × (begin_tick available r now ≡ record r {
              db = (Jobs.claim_next available r.db now).0;
              claimed = (Jobs.claim_next available r.db now).1;
            }))
  unfolding begin_tick
  begin_tick-cases r now = ground arith

  begin_tick-Inv : (r : Runner) (now : ℕ) → RunnerInv r → RunnerInv (begin_tick available r now)
  begin_tick-Inv r now v = elim (begin_tick-cases r now) [
    | inl same ↦ subst RunnerInv (sym same) v
    | inr (idle, e) ↦
        subst RunnerInv (sym e)
          (claim_next-Inv available r.db now (subst (λ c. Inv (id_of c) r.db.jobs) idle v))
  ]

  pub end_tick-cases :
      (r : Runner) (o : Outcome) (now : ℕ)
      → (end_tick installed r o now ≡ r)
        ⊎ ((j : Job) × (r.claimed ≡ some j)
            × (end_tick installed r o now
                ≡ record r { db = settle r.db j (handled installed j o) now; claimed = none }))
  unfolding end_tick
  end_tick-cases r o now = ground arith

  end_tick-Inv :
      (r : Runner) (o : Outcome) (now : ℕ) → RunnerInv r → RunnerInv (end_tick installed r o now)
  end_tick-Inv r o now v = elim (end_tick-cases r o now) [
    | inl same ↦ subst RunnerInv (sym same) v
    | inr (j, busy, e) ↦ subst RunnerInv (sym e) (
        settle-Inv r.db j (handled installed j o) now (subst (λ c. Inv (id_of c) r.db.jobs) busy v))
  ]

  pub start-cases : (r : Runner) → ((start r).db ≡ r.db) × ((start r).claimed ≡ r.claimed)
  unfolding start
  start-cases r = ground arith

  Step-RunnerInv : {r s : Runner} → Step r s → RunnerInv r → RunnerInv s
  unfolding start stop
  Step-RunnerInv {r} (enqueues request id now fresh) v =
      enqueue-Inv available (id_of r.claimed) r.db request id now fresh v
  Step-RunnerInv {r} (enqueues_unique request id now fresh) v =
      enqueue_unique-Inv (id_of r.claimed) r.db request id now fresh v
  Step-RunnerInv {r} (inserts j fresh new) v = insert-Inv (id_of r.claimed) r.db j fresh new v
  Step-RunnerInv {r} (cancels id now) v = cancel-Inv (id_of r.claimed) r.db id now v
  Step-RunnerInv {r} (progresses id amount stage now) v =
      progress-Inv (id_of r.claimed) r.db id amount stage now v
  Step-RunnerInv {r} (works db same) v = rw same v
  Step-RunnerInv {r} (begins now) v = begin_tick-Inv r now v
  Step-RunnerInv {r} (ends o now) v = end_tick-Inv r o now v
  Step-RunnerInv {r} starts v = let (db, claimed) = start-cases r in rw (db, claimed) v
  Step-RunnerInv {r} stops v = v
  Step-RunnerInv {r} (restarts now) v = recover_jobs-Inv (id_of r.claimed) r.db now v

  -- From a runner over a sound table, every history of calls and restarts reaches only such runners. In a sound
  -- table ids are distinct; a job runs only if it is the one in the runner's hands; no job has had
  -- more than three attempts, nor a queued one more than two; a queued job is not asked to stop;
  -- progress is at most whole, and whole where a job has succeeded.
  pub Reach-RunnerInv : {r s : Runner} → RunnerInv r → Reach r s → RunnerInv s
  Reach-RunnerInv v here = v
  Reach-RunnerInv v (next before step) = Step-RunnerInv step (Reach-RunnerInv v before)

  -- Two rows that run are one job.
  pub one_running :
      (w : Option ℕ) (db : Db) (p q : Job → Bool) (j k : Job)
      → Inv w db.jobs
      → find p db.jobs ≡ some j
      → find q db.jobs ≡ some k
      → j.state ≡ JobState.running
      → k.state ≡ JobState.running
      → j.id ≡ k.id
  one_running w db p q j k v e f running_j running_k =
      let at_j = (All-find (IsSound w) p db.jobs j v.sound e).one_running running_j in
      let at_k = (All-find (IsSound w) q db.jobs k v.sound f).one_running running_k in cc
