-- ===== src/Jobs/Invariant.antt =====
-- What holds of the job table of packages/asas-jobs in every run.
use asas.Base.{
  ℕ, ◌+◌, ◌≡◌, refl, String, Bool, Option, none, some, [], ◌∷◌, ◌++◌, arith, if◌then◌else◌,
  update_where, count_where, first_where, All, All-append, All-update_where, Bool-cases,
  Option-cases, inl, inr, map, first_where-count, subst, sym,
}
use asas.Jobs.Model.{BackgroundJob}
use asas.Jobs.Queue.{
  Jobs, new_job, insert_unique, claim_values, claimable, owned, succeed, mark_succeeded,
  fail_values, mark_failed,
}
use asas.Jobs.Reclaim.{expired, exhausted, bury, requeue, reclaim_expired}
use asas.Jobs.Lifecycle.{
  IsConsistent, new_job-IsConsistent, claim_values-IsConsistent, succeed-IsConsistent,
  fail_values-IsConsistent,
}
use asas.Jobs.Steps.{IsFresh, Step, Run, Run-induction}

-- What one pass of the reclaimer does to one row.
unfoldable pub reclaim_row : ℕ → BackgroundJob → BackgroundJob
reclaim_row now j =
    if exhausted now j then bury now j else if expired now j then requeue now j else j

two_updates :
    (now : ℕ) (t : Jobs)
    → update_where (expired now) (requeue now) (update_where (exhausted now) (bury now) t)
      ≡ map (reclaim_row now) t
unfolding update_where reclaim_row bury
two_updates now [] = refl
two_updates now (j ∷ js) = ground (arith, two_updates now js)

none-expired :
    (now : ℕ) (t : Jobs) → first_where (expired now) t ≡ none → t ≡ map (reclaim_row now) t
unfolding first_where reclaim_row
none-expired now [] h = refl
none-expired now (j ∷ js) h = ground (arith, none-expired now js)

two_counts :
    (now : ℕ) (t : Jobs)
    → count_where (exhausted now) t
        + count_where (expired now) (update_where (exhausted now) (bury now) t)
      ≡ count_where (expired now) t
unfolding update_where count_where bury
two_counts now [] = refl
two_counts now (j ∷ js) = ground (arith, two_counts now js)

-- The probe and the two UPDATEs of the reclaimer are one pass over the table that buries each
-- lapsed row with no attempt left and re-queues each other lapsed row; the count that it returns is
-- the number of lapsed rows.
pub reclaim_expired-eq-map :
    (t : Jobs) (now : ℕ)
    → reclaim_expired t now ≡ (map (reclaim_row now) t, count_where (expired now) t)
unfolding reclaim_expired
reclaim_expired-eq-map t now = elim (Option-cases (first_where (expired now) t)) [
  | inl e ↦ ground (arith, e, none-expired now t, first_where-count (expired now) t)
  | inr (j, e) ↦ ground (arith, e, two_updates now t, two_counts now t)
]

reclaim_row-IsConsistent :
    (now : ℕ) (j : BackgroundJob) → IsConsistent j → IsConsistent (reclaim_row now j)
unfolding reclaim_row bury requeue
reclaim_row-IsConsistent now j h = ground arith

All-reclaim : (now : ℕ) (t : Jobs) → All IsConsistent t → All IsConsistent (map (reclaim_row now) t)
All-reclaim now [] h = tt
All-reclaim now (j ∷ js) h = (reclaim_row-IsConsistent now j h.0, All-reclaim now js h.1)

-- A successful insert appends the row.
pub insert_unique-append :
    (t u : Jobs) (j : BackgroundJob) → insert_unique t j ≡ some u → u ≡ t ++ j ∷ []
unfolding insert_unique
insert_unique-append t u j h = ground arith

All-fail :
    (job : BackgroundJob) (error : String) (c : Option String) (dead : Bool) (now : ℕ) (t : Jobs)
    → IsFresh t job
    → All IsConsistent t
    → All IsConsistent (update_where (owned job.id c) (fail_values job dead error now) t)
unfolding update_where
All-fail job error c dead now [] f h = tt
All-fail job error c dead now (j ∷ js) f h = elim (Bool-cases (owned job.id c j)) [
  | inl e ↦ (
    rw e (
        fail_values-IsConsistent job dead error now j (f.0 (ground arith)).0 (f.0 (ground arith)).1
          h.0 (ground arith)),
    All-fail job error c dead now js f.1 h.1,
  )
  | inr e ↦ (rw e h.0, All-fail job error c dead now js f.1 h.1)
]

pub Step-IsConsistent : (t u : Jobs) (n : ℕ) → Step t n u → All IsConsistent t → All IsConsistent u
Step-IsConsistent t u _ (Step.insert r id now pos fresh e) h =
    subst (All IsConsistent) (sym (insert_unique-append t u (new_job r id now) e))
      (All-append IsConsistent t _ h (new_job-IsConsistent r id now pos, tt))
Step-IsConsistent t _ _ (Step.claim _ id w lease now) h =
    All-update_where IsConsistent (claimable id) (claim_values w lease now) t
      (λ j k e. claim_values-IsConsistent w lease now j k (ground arith)) h
Step-IsConsistent t _ _ (Step.succeed _ job c now) h =
    unfold mark_succeeded in
    All-update_where IsConsistent _ (succeed now) t
      (λ j k e. succeed-IsConsistent now j k (ground arith)) h
Step-IsConsistent t _ _ (Step.fail _ job error c dead now f) h =
    unfold mark_failed in All-fail job error _ dead now t f h
Step-IsConsistent t _ _ (Step.reclaim _ now) h =
    rw (reclaim_expired-eq-map t now) (All-reclaim now t h)

-- Whatever enqueuers, workers and reclaimers commit, in any order, a table of consistent rows, such
-- as the empty one, stays one: each row is leased exactly while it runs, finished exactly when it is
-- settled, never past its attempts, and queued only with an attempt left.
pub Run-IsConsistent : (t u : Jobs) (n : ℕ) → Run t n u → All IsConsistent t → All IsConsistent u
Run-IsConsistent t u n r h = Run-induction (All IsConsistent) Step-IsConsistent r h
