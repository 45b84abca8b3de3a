-- ===== src/Jobs/Examples.antt =====
-- The theorems on the queue of packages/asas-jobs at concrete tables, and tests.
use asas.Base.{
  ℕ, ◌+◌, ◌≤◌, ◌≡◌, ◌⊎◌, refl, true, false, none, some, [], ◌∷◌, arith, update_where, count_where,
  first_where, All, end,
}
use asas.Jobs.Model.{BackgroundJob, JobSchedule}
use asas.Jobs.Queue.{
  Jobs, Request, new_job, insert_unique, active_duplicate, claim_values, claimable, alone,
  claim_next, mark_succeeded, mark_failed, has_id, is_due,
}
use asas.Jobs.Reclaim.{expired, active_of, has_active}
use asas.Jobs.Scheduler.{Store, tick_one, tick_schedules}
use asas.Jobs.Steps.{Step, Run, here, next}
use asas.Jobs.Lifecycle.{IsConsistent}
use asas.Jobs.Invariant.{Run-IsConsistent}
use asas.Jobs.Dedupe.{HasUniqueKeys, Run-HasUniqueKeys, HasUniqueIds}
use asas.Jobs.Claims.{claim_next-won, WonFrom}
use asas.Jobs.Oldest.{claim_next-IsOldest, IsOldest}
use asas.Jobs.Attempts.{claims-le-max, total_max}
use asas.Jobs.Fencing.{SettlesNothing, settle_once}
use asas.Jobs.Ticks.{tick_once, tick_one-no_overlap}
use asas.Jobs.Runner.{Host, drain, run_once}
use asas.Jobs.Pass.{IsEnded, IsAhead, run_once_lem}
use asas.Jobs.Reclaim.{reclaim_expired}

abbrev mail : Request
mail = record {
  kind = "mail";
  payload = end;
  org_id = some 7;
  run_at = none;
  schedule_id = none;
  max_attempts = 2;
  dedupe_key = some "welcome";
}

abbrev one : Jobs
one = new_job mail 1 100 ∷ []

abbrev running_row : BackgroundJob
running_row = claim_values "w" 60 200 (new_job mail 1 100)

abbrev taken : Jobs
taken = update_where (claimable 1) (claim_values "w" 60 200) one

inserted : insert_unique [] (new_job mail 1 100) ≡ some one
unfolding insert_unique active_duplicate new_job first_where
inserted = refl

Run-taken : Run [] (0 + 0 + count_where (claimable 1) one) taken
unfolding count_where
Run-taken =
    next (next here (Step.insert mail 1 100 refl refl inserted)) (Step.claim one 1 "w" 60 200)

Run-IsConsistent_example : All IsConsistent taken
Run-IsConsistent_example =
    Run-IsConsistent [] taken (0 + 0 + count_where (claimable 1) one) Run-taken tt

no_keys : HasUniqueKeys []
unfolding count_where
no_keys kind key org = omega arith

Run-HasUniqueKeys_example : HasUniqueKeys taken
Run-HasUniqueKeys_example =
    Run-HasUniqueKeys [] taken (0 + 0 + count_where (claimable 1) one) Run-taken no_keys

one_id : HasUniqueIds one
unfolding count_where new_job
one_id id = ground arith

wins : (claim_next alone alone alone alone alone one "w" 60 200).1 ≡ some running_row
unfolding claim_next new_job first_where claim_values count_where update_where
wins = refl

claim_next-won_example :
    ((n : ℕ) × Run one n (claim_next alone alone alone alone alone one "w" 60 200).0)
    × WonFrom one (claim_next alone alone alone alone alone one "w" 60 200).0 "w" 60 200 running_row
claim_next-won_example =
    claim_next-won alone alone alone alone alone one "w" 60 200 running_row one_id
      (quiet, (quiet, (quiet, (quiet, (quiet, tt))))) wins
  where
    quiet : ((t : Jobs) → (n : ℕ) × Run t n t) × ((t : Jobs) → (n : ℕ) × Run t n t)
    quiet = ((λ t. (0, here)), (λ t. (0, here)))

claim_next-IsOldest_example :
    ((claim_next alone alone alone alone alone one "w" 60 200 ≡ (one, none))
      × All (λ k. is_due (λ j. false) 200 k ≡ false) one)
    ⊎ ((old : BackgroundJob) × (first_where (has_id old.id) one ≡ some old)
        × IsOldest (λ j. false) 200 one old
        × (claim_next alone alone alone alone alone one "w" 60 200 ≡ (
          update_where (claimable old.id) (claim_values "w" 60 200) one,
          some (claim_values "w" 60 200 old),
        )))
claim_next-IsOldest_example = claim_next-IsOldest one "w" 60 200 one_id

claims-le-max_example : 0 + 0 + count_where (claimable 1) one ≤ total_max taken
claims-le-max_example = claims-le-max taken (0 + 0 + count_where (claimable 1) one) Run-taken

running_id : HasUniqueIds (running_row ∷ [])
unfolding count_where claim_values new_job
running_id id = ground arith

settle_once_example :
    (((mark_succeeded (running_row ∷ []) running_row none 300).1 ≡ false)
      ⊎ SettlesNothing
          (mark_succeeded (running_row ∷ []) running_row none 300).0
          running_row
          (some "v")
          "late"
          true
          400)
    × (((mark_failed (running_row ∷ []) running_row "boom" none false 300).1 ≡ false)
        ⊎ SettlesNothing
            (mark_failed (running_row ∷ []) running_row "boom" none false 300).0
            running_row
            (some "v")
            "late"
            true
            400)
settle_once_example =
    settle_once (running_row ∷ []) running_row none "boom" false 300 running_row (some "v") "late"
      true 400 running_id refl

-- The settles of the example return True.
settles : (mark_succeeded (running_row ∷ []) running_row none 300).1 ≡ true
unfolding mark_succeeded count_where claim_values new_job
settles = refl

lapsed_once : count_where (expired 90_000_000) (running_row ∷ []) ≡ 1
unfolding count_where claim_values new_job
lapsed_once = refl

abbrev scan : JobSchedule
scan = record {
  id = 1;
  org_id = none;
  kind = "scan";
  payload = end;
  every_seconds = 3600;
  enabled = true;
  no_overlap = true;
  next_run_at = 500;
  last_enqueued_at = none;
  created_at = 0;
}

abbrev store : Store
store = record { jobs = []; schedules = scan ∷ []; next_id = 1 }

tick_once_example :
    tick_one (tick_one store scan 600).0 scan 700 ≡ ((tick_one store scan 600).0, false)
tick_once_example =
    tick_once store scan 600 700 (unfold count_where in refl) (omega arith) (omega arith)

tick_one-no_overlap_example : count_where (active_of 1) (tick_one store scan 600).0.jobs ≤ 1
tick_one-no_overlap_example =
    tick_one-no_overlap store scan 600 refl (λ id. unfold count_where in omega arith) 1

-- The tick of the example fires once.
tick_fires : (tick_schedules (λ n s. s) store 600).1 ≡ 1
unfolding tick_schedules count_where has_active
tick_fires = refl

abbrev waiting : Store
waiting = record { jobs = one; schedules = scan ∷ []; next_id = 2 }

abbrev host : Host
host = record {
  handler = λ kind. some (λ job. some "ValueError: boom");
  during = λ job t. t;
  settled_at = λ job. 300;
  rivals = λ n k. alone;
  stopped = λ n. false;
}

waiting-IsAhead : IsAhead waiting
unfolding count_where new_job
waiting-IsAhead id h = ground (arith, h)

run_once_lem_example :
    ((run_once host (λ n s. s) waiting "w" 60 200).1 ≤ 50)
    × ((k : ℕ) × Run
          (reclaim_expired one 200).0
          k
          (run_once host (λ n s. s) waiting "w" 60 200).0.jobs)
    × (((run_once host (λ n s. s) waiting "w" 60 200).1 ≡ 50)
        ⊎ IsEnded host "w" 60 200 (run_once host (λ n s. s) waiting "w" 60 200).0.jobs)
run_once_lem_example =
    run_once_lem host (λ n s. s) waiting "w" 60 200
      ((λ job t. (0, here)), (λ n k. ((λ t. (0, here)), (λ t. (0, here)))))
      (λ n s ahead. (ahead, (0, here))) one_id waiting-IsAhead

-- One job is due, fails, and waits for its retry.
drain_runs_one : (drain host 2 one "w" 60 200).1 ≡ 1
unfolding drain claim_next new_job mark_failed count_where first_where update_where
drain_runs_one = refl
