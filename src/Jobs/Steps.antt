-- ===== src/Jobs/Steps.antt =====
-- The statements that sessions commit on the job table of packages/asas-jobs, one at a time: every
-- interleaving of enqueuers, workers and reclaimers is a run of these steps.
use asas.Base.{
  ℕ, ◌+◌, ◌≡◌, String, Bool, false, Option, some, ◌==◌, update_where, count_where, All, true,
}
use asas.Jobs.Model.{BackgroundJob}
use asas.Jobs.Queue.{
  Jobs, Request, new_job, insert_unique, claim_values, claimable, has_id, mark_succeeded,
  mark_failed,
}
use asas.Jobs.Reclaim.{reclaim_expired}

-- The counts that `mark_failed` read are those of the row it settles.
abbrev pub IsFresh : Jobs → BackgroundJob → Type 0
IsFresh t job =
    All
      (λ j.
        has_id job.id j ≡ true → (job.attempts ≡ j.attempts) × (job.max_attempts ≡ j.max_attempts))
      t

-- The number beside a step is how many claims it makes.
pub data Step : Jobs → ℕ → Jobs → Type 0 where
  insert :
      {t u : Jobs} (r : Request) (id now : ℕ)
      → (r.max_attempts == 0) ≡ false
      → count_where (has_id id) t ≡ 0
      → insert_unique t (new_job r id now) ≡ some u
      → Step t 0 u
  claim :
      (t : Jobs) (id : ℕ) (worker : String) (lease now : ℕ)
      → Step t
          (count_where (claimable id) t)
          (update_where (claimable id) (claim_values worker lease now) t)
  succeed :
      (t : Jobs) (job : BackgroundJob) (claimed_by : Option String) (now : ℕ)
      → Step t 0 (mark_succeeded t job claimed_by now).0
  fail :
      (t : Jobs) (job : BackgroundJob) (error : String) (claimed_by : Option String) (dead : Bool)
      (now : ℕ)
      → IsFresh t job
      → Step t 0 (mark_failed t job error claimed_by dead now).0
  reclaim : (t : Jobs) (now : ℕ) → Step t 0 (reclaim_expired t now).0

pub data Run (t : Jobs) : ℕ → Jobs → Type 0 where
  here : Run t 0 t
  next : {n m : ℕ} {u v : Jobs} → Run t n u → Step u m v → Run t (n + m) v

-- An invariant of the steps is one of the runs.
pub Run-induction {ℓ} :
    (P : Jobs → Type ℓ)
    → ((t u : Jobs) (n : ℕ) → Step t n u → P t → P u)
    → {t u : Jobs} {n : ℕ} → Run t n u
    → P t
    → P u
Run-induction P step here h = h
Run-induction P step (next {u = u} {v = v} r s) h = step u v _ s (Run-induction P step r h)
