-- ===== src/Jobs/Attempts.antt =====
-- How often the jobs of packages/asas-jobs are claimed: "a poison job can never loop forever".
use asas.Base.{
  ℕ, ◌+◌, ◌≤◌, ◌≡◌, refl, sym, subst, String, Bool, [], ◌∷◌, ◌++◌, map, arith, update_where,
  count_where, All,
}
use asas.Jobs.Model.{BackgroundJob}
use asas.Jobs.Queue.{
  Jobs, Request, new_job, claim_values, claimable, owned, succeed, mark_succeeded, fail_values,
  mark_failed, claimant_of,
}
use asas.Jobs.Reclaim.{bury, requeue}
use asas.Jobs.Steps.{Step, Run, here, next}
use asas.Jobs.Lifecycle.{IsConsistent}
use asas.Jobs.Invariant.{
  reclaim_row, reclaim_expired-eq-map, insert_unique-append, Run-IsConsistent,
}

-- The attempts made, and the attempts allowed, over all rows.
pub total_attempts : Jobs → ℕ
total_attempts [] = 0
total_attempts (j ∷ js) = j.attempts + total_attempts js

pub total_max : Jobs → ℕ
total_max [] = 0
total_max (j ∷ js) = j.max_attempts + total_max js

total_attempts-append : (t u : Jobs) → total_attempts (t ++ u) ≡ total_attempts t + total_attempts u
unfolding total_attempts
total_attempts-append [] u = omega arith
total_attempts-append (j ∷ js) u = omega (arith, total_attempts-append js u)

total-new :
    (t : Jobs) (r : Request) (id now : ℕ)
    → total_attempts (t ++ new_job r id now ∷ []) ≡ total_attempts t
unfolding total_attempts new_job
total-new t r id now = omega (arith, total_attempts-append t (new_job r id now ∷ []))

total-claim :
    (id : ℕ) (w : String) (lease now : ℕ) (t : Jobs)
    → total_attempts (update_where (claimable id) (claim_values w lease now) t)
      ≡ total_attempts t + count_where (claimable id) t
unfolding total_attempts claim_values update_where count_where
total-claim id w lease now [] = refl
total-claim id w lease now (j ∷ js) = ground (arith, total-claim id w lease now js)

total-settle :
    (p : BackgroundJob → Bool) (f : BackgroundJob → BackgroundJob) (t : Jobs)
    → ((j : BackgroundJob) → (f j).attempts ≡ j.attempts)
    → total_attempts (update_where p f t) ≡ total_attempts t
unfolding total_attempts update_where
total-settle p f [] h = refl
total-settle p f (j ∷ js) h = ground (arith, h j, total-settle p f js h)

total-reclaim : (now : ℕ) (t : Jobs) → total_attempts (map (reclaim_row now) t) ≡ total_attempts t
unfolding total_attempts reclaim_row bury requeue
total-reclaim now [] = refl
total-reclaim now (j ∷ js) = ground (arith, total-reclaim now js)

Step-total : (t u : Jobs) (n : ℕ) → Step t n u → total_attempts u ≡ total_attempts t + n
Step-total t u _ (Step.insert r id now pos fresh e) =
    subst (λ (w : Jobs). total_attempts w ≡ total_attempts t + 0)
      (sym (insert_unique-append t u (new_job r id now) e)) (omega (arith, total-new t r id now))
Step-total t _ _ (Step.claim _ id w lease now) = total-claim id w lease now t
Step-total t _ _ (Step.succeed _ job c now) =
    unfold mark_succeeded succeed in
    omega (arith, total-settle (owned job.id (claimant_of job c)) (succeed now) t (λ j. refl))
Step-total t _ _ (Step.fail _ job error c dead now f) =
    unfold mark_failed fail_values in
    omega (
      arith,
      total-settle (owned job.id (claimant_of job c)) (fail_values job dead error now) t
          (λ j. ground arith),
    )
Step-total t _ _ (Step.reclaim _ now) =
    rw (reclaim_expired-eq-map t now) (omega (arith, total-reclaim now t))

-- The attempt count of a run's table is exactly the number of claims: no settle and no reclaim ever
-- falsifies it.
pub Run-total : {t u : Jobs} {n : ℕ} → Run t n u → total_attempts u ≡ total_attempts t + n
Run-total here = omega arith
Run-total {t} (next {n = n} {m = m} {u = u} {v = v} r s) =
    omega (arith, Run-total r, Step-total u v m s)

total-le-max : (t : Jobs) → All IsConsistent t → total_attempts t ≤ total_max t
unfolding total_attempts total_max
total-le-max [] h = omega arith
total-le-max (j ∷ js) h = omega (arith, h.0.capped, total-le-max js h.1)

-- From an empty table, the workers together make at most as many claims as the attempts that the
-- enqueued jobs allow: no job, however often it fails or kills its worker, runs forever.
pub claims-le-max : (u : Jobs) (n : ℕ) → Run [] n u → n ≤ total_max u
claims-le-max u n r =
    let none_made : total_attempts [] ≡ 0 = unfold total_attempts in refl in
    omega (arith, Run-total r, none_made, total-le-max u (Run-IsConsistent [] u n r tt))
