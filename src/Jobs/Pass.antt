-- ===== src/Jobs/Pass.antt =====
-- One pass of a worker, `run_once` of packages/asas-jobs/src/asas_jobs/runner.py: the reclaim, the tick
-- and the drain.
use asas.Base.{
  ℕ, suc, ◌≤◌, ◌≡◌, refl, ◌∙◌, update_where, String, none, some, List, [], ◌∷◌, ◌++◌, arith, ◌==◌,
  ◌&&◌, count_where, Bool-cases, inl, inr, count_where-append, length, zero, ap, ◌⊎◌, Option,
  Option-cases, true,
}
use asas.Jobs.Model.{JobSchedule, BackgroundJob}
use asas.Jobs.Queue.{Jobs, Request, has_id, new_job, insert_unique}
use asas.Jobs.Reclaim.{reclaim_expired, has_active}
use asas.Jobs.Scheduler.{
  Store, unmoved, advance, stamp, has_schedule_id, materialize, tick_one, tick_each, tick_schedules,
  due_schedules, bump,
}
use asas.Jobs.Steps.{Step, Run, here, next}
use asas.Jobs.Dedupe.{HasUniqueIds, Run-HasUniqueIds, count-id-reclaim}
use asas.Jobs.Invariant.{reclaim_expired-eq-map}
use asas.Jobs.Claims.{Run-trans}
use asas.Jobs.Runner.{Host, HostRuns, claims, execute, drain, drain_lem, run_once}

-- The sequence is ahead of the ids in use.
abbrev pub IsAhead : Store → Type 0
IsAhead st = (id : ℕ) → st.next_id ≤ id → count_where (has_id id) st.jobs ≡ 0

-- Another session leaves a store whose jobs its statements reach.
abbrev pub Reached : Store → Store → Type 0
Reached st st' = IsAhead st' × ((n : ℕ) × Run st.jobs n st'.jobs)

abbrev request_of : JobSchedule → ℕ → Request
request_of snap now = record {
  kind = snap.kind;
  payload = snap.payload;
  org_id = snap.org_id;
  run_at = some now;
  schedule_id = some snap.id;
  max_attempts = 5;
  dedupe_key = none;
}

materialize-Step :
    (t : Jobs) (snap : JobSchedule) (id now : ℕ)
    → count_where (has_id id) t ≡ 0
    → Step t 0 (t ++ materialize snap id now ∷ [])
unfolding materialize insert_unique new_job
materialize-Step t snap id now free =
    Step.insert {u = t ++ materialize snap id now ∷ []} (request_of snap now) id now refl free refl

module _ (st : Store) (snap : JobSchedule) (now : ℕ) (ahead : IsAhead st) where
  fired-Reached :
      (schedules : List JobSchedule)
      → Reached st (record {
        jobs = st.jobs ++ materialize snap st.next_id now ∷ [];
        schedules = schedules;
        next_id = suc st.next_id;
      })
  unfolding count_where materialize new_job
  fired-Reached schedules = (
    (λ id h.
        rw (count_where-append (has_id id) st.jobs (materialize snap st.next_id now ∷ []))
          (ground (arith, h, ahead id (omega (arith, h))))),
    (_, next here (materialize-Step st.jobs snap st.next_id now (ahead st.next_id (omega arith)))),
  )

  tick_one-Reached : Reached st (tick_one st snap now).0
  unfolding tick_one
  tick_one-Reached = elim (Bool-cases (count_where (unmoved snap) st.schedules == 1)) [
    | inr lost ↦ rw lost (ahead, (0, here))
    | inl won ↦ elim (Bool-cases (snap.no_overlap && has_active st.jobs snap.id)) [
      | inl busy ↦ rw (won, busy) (ahead, (0, here))
      | inr idle ↦
          rw (won, idle)
            (fired-Reached (
              update_where (has_schedule_id snap.id) (stamp now)
                (update_where (unmoved snap) (advance snap now) st.schedules)))
    ]
  ]

Reached-trans : (s t u : Store) → Reached s t → Reached t u → Reached s u
Reached-trans s t u a b = (b.0, Run-trans a.1.1 b.1.1)

tick_each-Reached :
    (rival : ℕ → Store → Store) (st : Store) (snaps : List JobSchedule) (now enqueued : ℕ)
    → ((n : ℕ) (s : Store) → IsAhead s → Reached s (rival n s))
    → IsAhead st
    → Reached st (tick_each rival st snaps now enqueued).0
unfolding tick_each
tick_each-Reached rival st [] now enqueued others ahead = (ahead, (0, here))
tick_each-Reached rival st (snap ∷ snaps) now enqueued others ahead =
    let seen = rival (length snaps) st in
    let before = others (length snaps) st ahead in
    let turn = tick_one-Reached seen snap now before.0 in
    let (st', fired) = tick_one seen snap now in
    let last = (tick_each rival st' snaps now (bump fired enqueued)).0 in
    Reached-trans st seen last before (
      Reached-trans seen st' last turn
        (tick_each-Reached rival st' snaps now (bump fired enqueued) others turn.0))

-- Why a drain stops short: it was asked to, or its claim found nothing to do.
abbrev pub IsEnded : Host → String → ℕ → ℕ → Jobs → Type 0
IsEnded host w lease now last =
    (m : ℕ) × ((host.stopped m ≡ true)
      ⊎ ((seen : Jobs) × (claims host m seen w lease now ≡ (last, none))))

drain_ends :
    (host : Host) (n : ℕ) (t : Jobs) (w : String) (lease now : ℕ)
    → ((drain host n t w lease now).1 ≡ n) ⊎ IsEnded host w lease now (drain host n t w lease now).0
unfolding drain
drain_ends host zero t w lease now = inl refl
drain_ends host (suc n) t w lease now =
    let c = claims host n t w lease now in
    elim (Bool-cases (host.stopped n)) [
      | inl stop ↦ inr (n, inl stop)
      | inr go ↦ elim (Option-cases c.1) [
        | inl e ↦ rw (go, e) (inr (n, inr (t, ap (λ (o : Option BackgroundJob). (c.0, o)) e)))
        | inr (job, e) ↦
            rw (go, e)
              (elim (drain_ends host n (execute host c.0 job w).0 w lease now) [
                | inl full ↦ inl (ap suc full)
                | inr short ↦ inr short
              ])
      ]
    ]

-- A pass runs at most fifty jobs, however many are due, and fewer only where it is asked to stop or its
-- last claim, which leaves the table as the pass does, found nothing to do. From the table that its
-- reclaim leaves it reaches its last one by nothing but the queue's own statements between those of the
-- other sessions: the inserts of the tick, the claims and the settles. What the others commit, also while
-- a handler runs, are such statements, the ids of the table are different and lower than the next, and
-- the others keep that.
pub run_once_lem :
    (host : Host) (rival : ℕ → Store → Store) (st : Store) (w : String) (lease now : ℕ)
    → HostRuns host
    → ((n : ℕ) (s : Store) → IsAhead s → Reached s (rival n s))
    → HasUniqueIds st.jobs
    → IsAhead st
    → ((run_once host rival st w lease now).1 ≤ 50)
      × ((k : ℕ) × Run
            (reclaim_expired st.jobs now).0
            k
            (run_once host rival st w lease now).0.jobs)
      × (((run_once host rival st w lease now).1 ≡ 50)
          ⊎ IsEnded host w lease now (run_once host rival st w lease now).0.jobs)
unfolding run_once tick_schedules
run_once_lem host rival st w lease now runs others ids ahead =
    let reclaimed = (reclaim_expired st.jobs now).0 in
    let start : Store = record st { jobs = reclaimed } in
    let unique = Run-HasUniqueIds st.jobs reclaimed _ (next here (Step.reclaim st.jobs now)) ids in
    let tick = tick_each-Reached rival start (due_schedules now st.schedules) now 0 others (λ id h.
      rw (reclaim_expired-eq-map st.jobs now) (count-id-reclaim now id st.jobs ∙ ahead id h)) in
    let ticked = (tick_each rival start (due_schedules now st.schedules) now 0).0.jobs in
    let unique' = Run-HasUniqueIds reclaimed ticked _ tick.1.1 unique in
    let (few, (m, drained)) = drain_lem host 50 ticked w lease now runs unique' in
    (few, Run-trans tick.1.1 drained, drain_ends host 50 ticked w lease now)
