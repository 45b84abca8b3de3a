-- ===== src/Jobs/Runner.antt =====
-- packages/asas-jobs/src/asas_jobs/runner.py: one pass of a worker. The handlers, what the other
-- sessions commit, the clock of the settles and the stop flag are parameters.
use asas.Base.{
  ℕ, zero, suc, ◌≤◌, ◌≡◌, String, Bool, true, false, Option, none, some, [], ◌∷◌, arith,
  if◌then◌else◌, first_where, count_where, inl, inr, Option-cases, Bool-cases, All, All-map, ap,
  subst, first_where-count, first_where-holds,
}
use Prim.Native.String.{◌++◌}
use asas.Jobs.Model.{BackgroundJob}
use asas.Jobs.Queue.{Jobs, mark_failed, mark_succeeded, has_id, Rivals, claim_next}
use asas.Jobs.Reclaim.{reclaim_expired}
use asas.Jobs.Scheduler.{Store, tick_schedules}
use asas.Jobs.Steps.{Step, Run, here, next, IsFresh}
use asas.Jobs.Dedupe.{HasUniqueIds, Run-HasUniqueIds}
use asas.Jobs.Claims.{RivalsRun, Run-trans, claim_next-Run}

abbrev pub max_jobs_per_pass : ℕ
max_jobs_per_pass = 50

pub record Host : Type 0 where
  -- `get_handler(kind)`; the handler returns, or raises with the text that is recorded.
  pub handler : String → Option (BackgroundJob → Option String)
  -- What other sessions commit while the handler runs.
  pub during : BackgroundJob → Jobs → Jobs
  pub settled_at : BackgroundJob → ℕ
  -- The other sessions in each round of the claim with `n` jobs still allowed.
  pub rivals : ℕ → ℕ → Rivals
  -- `_stop_event`, read with `n` jobs still allowed.
  pub stopped : ℕ → Bool

-- After a commit or a rollback the session reads the row anew.
unfoldable pub reread : Jobs → BackgroundJob → BackgroundJob
reread t job = elim (first_where (has_id job.id) t) [ none ↦ job | some row ↦ row ]

settle : Host → Jobs → BackgroundJob → String → Option String → Jobs × Bool
settle host t job claimant none = mark_succeeded t job (some claimant) (host.settled_at job)
settle host t job claimant (some error) =
    mark_failed t (reread t job) error (some claimant) false (host.settled_at job)

abbrev pub unregistered : String → String
unregistered kind = "no handler registered for kind '" ++ kind ++ "'"

-- `_execute`: a kind with no handler is dead-lettered.
unfoldable pub execute : Host → Jobs → BackgroundJob → String → Jobs × Bool
unfolding settle reread
execute host t job claimant = elim (host.handler job.kind) [
  | none ↦
      mark_failed t (reread t job) (unregistered job.kind) (some claimant) true
        (host.settled_at job)
  | some h ↦ settle host (host.during job t) job claimant (h job)
]

-- The claim with `n` more jobs allowed after it.
abbrev pub claims : Host → ℕ → Jobs → String → ℕ → ℕ → Jobs × Option BackgroundJob
claims host n t w lease now = claim_next (r 1) (r 2) (r 3) (r 4) (r 5) t w lease now
  where
    r : ℕ → Rivals
    r = host.rivals n

-- The drain loop: the table and the number of jobs run.
unfoldable pub drain : Host → ℕ → Jobs → String → ℕ → ℕ → Jobs × ℕ
unfolding execute
drain host zero t w lease now = (t, 0)
drain host (suc n) t w lease now =
    if host.stopped n
    then (t, 0)
    else (let (t', picked) = claims host n t w lease now in
        elim picked [
          | none ↦ (t', 0)
          | some job ↦
              let (u, ran) = drain host n (execute host t' job w).0 w lease now in (u, suc ran)
        ])

unfoldable pub run_once : Host → (ℕ → Store → Store) → Store → String → ℕ → ℕ → Store × ℕ
unfolding drain
run_once host rival st w lease now =
    let (reclaimed, n) = reclaim_expired st.jobs now in
    let (ticked, m) = tick_schedules rival (record st { jobs = reclaimed }) now in
    let (drained, ran) = drain host max_jobs_per_pass ticked.jobs w lease now in
    (record ticked { jobs = drained }, ran)

-- A pass runs at most fifty jobs.
drain-le :
    (host : Host) (n : ℕ) (t : Jobs) (w : String) (lease now : ℕ)
    → (drain host n t w lease now).1 ≤ n
unfolding drain
drain-le host zero t w lease now = omega arith
drain-le host (suc n) t w lease now =
    let (t', picked) = claims host n t w lease now in
    elim (Option-cases picked) [
      | inl e ↦ ground (arith, e)
      | inr (job, e) ↦ ground (arith, e, drain-le host n (execute host t' job w).0 w lease now)
    ]

abbrev pub HostRuns : Host → Type 0
HostRuns host =
    ((job : BackgroundJob) (t : Jobs) → (n : ℕ) × Run t n (host.during job t))
    × ((n k : ℕ) → RivalsRun (host.rivals n k))

no_id :
    (id : ℕ) (t : Jobs)
    → count_where (has_id id) t ≡ 0
    → All (λ (j : BackgroundJob). has_id id j ≡ false) t
unfolding count_where
no_id id [] h = tt
no_id id (j ∷ js) h = (ground (arith, h), no_id id js (ground (arith, h)))

only_row :
    (id : ℕ) (t : Jobs) (row : BackgroundJob)
    → count_where (has_id id) t ≤ 1
    → first_where (has_id id) t ≡ some row
    → All (λ j. has_id id j ≡ true → row ≡ j) t
unfolding count_where first_where
only_row id [] row one e = tt
only_row id (j ∷ js) row one e = elim (Bool-cases (has_id id j)) [
  | inl hit ↦ (
    (λ k. ground (arith, hit, e)),
    All-map (λ x. has_id id x ≡ false) _ js (λ x a b. absurd (ground (arith, a, b)))
        (no_id id js (ground (arith, hit))),
  )
  | inr miss ↦ (
    (λ k. absurd (ground (arith, miss, k))),
    only_row id js row (ground (arith, miss)) (ground (arith, miss, e)),
  )
]

claims-Run :
    (host : Host) (n : ℕ) (t : Jobs) (w : String) (lease now : ℕ)
    → HostRuns host
    → HasUniqueIds t
    → (k : ℕ) × Run t k (claims host n t w lease now).0
claims-Run host n t w lease now runs ids =
    claim_next-Run _ _ _ _ _ t w lease now
      (runs.1 n 1, (runs.1 n 2, (runs.1 n 3, (runs.1 n 4, (runs.1 n 5, tt)))))

-- With one row to an id, what a session rereads has the counts of every row with the id.
reread-IsFresh : (t : Jobs) (job : BackgroundJob) → HasUniqueIds t → IsFresh t (reread t job)
unfolding reread
reread-IsFresh t job ids = elim (Option-cases (first_where (has_id job.id) t)) [
  | inl e ↦
      let same : job ≡ reread t job = rw (e, reread) in
      subst (IsFresh t) same (
        All-map (λ x. has_id job.id x ≡ false) _ t (λ x a b. absurd (ground (arith, a, b)))
          (no_id job.id t (first_where-count (has_id job.id) t e)))
  | inr (row, e) ↦
      let same : row ≡ reread t job = rw (e, reread) in
      let named : row.id ≡ job.id = ground (arith, first_where-holds (has_id job.id) t row e) in
      subst (IsFresh t) same (
        All-map (λ j. has_id job.id j ≡ true → row ≡ j) _ t
          (λ x a b.
            let p = a (ground (arith, b, named)) in
            (ap (λ k. k.attempts) p, ap (λ k. k.max_attempts) p))
          (only_row job.id t row (ids job.id) e))
]

settle-Run :
    (host : Host) (t : Jobs) (job : BackgroundJob) (w : String) (r : Option String)
    → HasUniqueIds t
    → (n : ℕ) × Run t n (settle host t job w r).0
unfolding settle
settle-Run host t job w none ids =
    (_, next here (Step.succeed t job (some w) (host.settled_at job)))
settle-Run host t job w (some error) ids = (
  _,
  next here (
      Step.fail t (reread t job) error (some w) false (host.settled_at job)
        (reread-IsFresh t job ids)),
)

execute-Run :
    (host : Host) (t : Jobs) (job : BackgroundJob) (w : String)
    → HostRuns host
    → HasUniqueIds t
    → (n : ℕ) × Run t n (execute host t job w).0
unfolding execute
execute-Run host t job w runs ids = elim (Option-cases (host.handler job.kind)) [
  | inl e ↦
      rw (e, execute)
        (
          _,
          next here (
              Step.fail t (reread t job) (unregistered job.kind) (some w) true (host.settled_at job)
                (reread-IsFresh t job ids)),
        )
  | inr (h, e) ↦
      let (n, before) = runs.0 job t in
      let (m, after) =
        settle-Run host (host.during job t) job w (h job) (Run-HasUniqueIds t _ n before ids) in
      rw (e, execute) (Run-trans before after)
]

drain-Run :
    (host : Host) (n : ℕ) (t : Jobs) (w : String) (lease now : ℕ)
    → HostRuns host
    → HasUniqueIds t
    → (k : ℕ) × Run t k (drain host n t w lease now).0
unfolding drain
drain-Run host zero t w lease now runs ids = (0, here)
drain-Run host (suc n) t w lease now runs ids =
    let c = claims host n t w lease now in
    let (k, claimed) = (claims-Run host n t w lease now runs ids) in
    elim (Bool-cases (host.stopped n)) [
      | inl stop ↦ rw stop (0, here)
      | inr go ↦ elim (Option-cases c.1) [
        | inl e ↦ rw (go, e) (k, claimed)
        | inr (job, e) ↦
            let ids' = Run-HasUniqueIds t _ k claimed ids in
            let (m, ran) = execute-Run host c.0 job w runs ids' in
            let ids'' = Run-HasUniqueIds c.0 _ m ran ids' in
            let (i, rest) = drain-Run host n (execute host c.0 job w).0 w lease now runs ids'' in
            let (a, both) = Run-trans claimed ran in rw (go, e) (Run-trans both rest)
      ]
    ]

-- A drain runs at most as many jobs as it is told, and is nothing but the queue's own statements
-- between those of the other sessions, whatever the handlers do.
pub drain_lem :
    (host : Host) (n : ℕ) (t : Jobs) (w : String) (lease now : ℕ)
    → HostRuns host
    → HasUniqueIds t
    → ((drain host n t w lease now).1 ≤ n) × ((k : ℕ) × Run t k (drain host n t w lease now).0)
drain_lem host n t w lease now runs ids =
    (drain-le host n t w lease now, drain-Run host n t w lease now runs ids)
