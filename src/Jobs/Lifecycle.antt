-- ===== src/Jobs/Lifecycle.antt =====
-- The life of one row under every statement of packages/asas-jobs/src/asas_jobs that writes it.
use asas.Base.{ℕ, ◌≤◌, ◌<◌, ◌≡◌, String, Bool, true, false, none, arith, ◌==◌, is_some}
use asas.Jobs.Model.{queued, running, is_queued, is_running, is_active, BackgroundJob, JobSchedule}
use asas.Jobs.Queue.{Request, new_job, claim_values, succeed, fail_values}
use asas.Jobs.Reclaim.{expired, exhausted, bury, requeue}
use asas.Jobs.Scheduler.{materialize}

-- A row is leased exactly while it runs, is finished exactly when it is settled for good, and has
-- an attempt left exactly as long as it may be claimed.
pub record IsConsistent (j : BackgroundJob) : Type 0 where
  pub running_claimed : j.status ≡ running → is_some j.claimed_by ≡ true
  pub running_leased : j.status ≡ running → is_some j.lease_expires_at ≡ true
  pub idle_unclaimed : is_running j.status ≡ false → j.claimed_by ≡ none
  pub idle_unleased : is_running j.status ≡ false → j.lease_expires_at ≡ none
  pub active_unfinished : is_active j.status ≡ true → j.finished_at ≡ none
  pub settled_finished : is_active j.status ≡ false → is_some j.finished_at ≡ true
  pub capped : j.attempts ≤ j.max_attempts
  pub queued_room : j.status ≡ queued → j.attempts < j.max_attempts
  pub started : 0 < j.attempts → is_some j.started_at ≡ true
  pub running_counted : j.status ≡ running → 0 < j.attempts

pub new_job-IsConsistent :
    (r : Request) (id now : ℕ) → (r.max_attempts == 0) ≡ false → IsConsistent (new_job r id now)
unfolding new_job
new_job-IsConsistent r id now h = ground arith

pub claim_values-IsConsistent :
    (w : String) (lease now : ℕ) (j : BackgroundJob)
    → IsConsistent j
    → is_queued j.status ≡ true
    → IsConsistent (claim_values w lease now j)
unfolding claim_values
claim_values-IsConsistent w lease now j h q = ground arith

pub succeed-IsConsistent :
    (now : ℕ) (j : BackgroundJob)
    → IsConsistent j
    → is_running j.status ≡ true
    → IsConsistent (succeed now j)
unfolding succeed
succeed-IsConsistent now j h q = ground arith

-- The snapshot that decides between a retry and the dead letter has the row's own counts.
pub fail_values-IsConsistent :
    (job : BackgroundJob) (dead : Bool) (error : String) (now : ℕ) (j : BackgroundJob)
    → job.attempts ≡ j.attempts
    → job.max_attempts ≡ j.max_attempts
    → IsConsistent j
    → is_running j.status ≡ true
    → IsConsistent (fail_values job dead error now j)
unfolding fail_values
fail_values-IsConsistent job dead error now j a m h q = ground arith

pub bury-IsConsistent :
    (now : ℕ) (j : BackgroundJob)
    → IsConsistent j
    → exhausted now j ≡ true
    → IsConsistent (bury now j)
unfolding bury
bury-IsConsistent now j h q = ground arith

pub requeue-IsConsistent :
    (now : ℕ) (j : BackgroundJob)
    → IsConsistent j
    → expired now j ≡ true
    → exhausted now j ≡ false
    → IsConsistent (requeue now j)
unfolding requeue
requeue-IsConsistent now j h q r = ground arith

pub materialize-IsConsistent : (s : JobSchedule) (id now : ℕ) → IsConsistent (materialize s id now)
unfolding materialize new_job
materialize-IsConsistent s id now = ground arith
