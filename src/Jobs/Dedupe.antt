-- ===== src/Jobs/Dedupe.antt =====
-- Idempotency keys of packages/asas-jobs: the partial unique indexes and the fast path of `enqueue`.
use asas.Base.{
  ℕ, ◌≤◌, ◌≡◌, refl, sym, subst, String, Bool, true, Option, none, some, [], ◌∷◌, ◌++◌, arith, ◌==◌,
  count_where, Bool-cases, inl, inr, map, count_where-append, count_where-update, first_where-count,
  count_where-update-le, eq_iff, same_num_iff, same_text_iff,
}
use asas.Jobs.Model.{BackgroundJob, is_active}
use asas.Jobs.Queue.{
  Jobs, Request, new_job, insert_unique, claim_values, claimable, owned, succeed, mark_succeeded,
  fail_values, mark_failed, holds_key, has_id, active_duplicate, claimant_of,
}
use asas.Jobs.Reclaim.{bury, requeue}
use asas.Jobs.Steps.{Step, Run, Run-induction}
use asas.Jobs.Invariant.{reclaim_row, reclaim_expired-eq-map, insert_unique-append}

-- At most one active row holds a key.
abbrev pub HasUniqueKeys : Jobs → Type 0
HasUniqueKeys t = (kind key : String) (org : Option ℕ) → count_where (holds_key kind key org) t ≤ 1

-- At most one row has an id.
abbrev pub HasUniqueIds : Jobs → Type 0
HasUniqueIds t = (id : ℕ) → count_where (has_id id) t ≤ 1

-- An insert that the indexes let through finds its key free.
key_free :
    (t u : Jobs) (j : BackgroundJob) (key : String)
    → insert_unique t j ≡ some u
    → j.dedupe_key ≡ some key
    → is_active j.status ≡ true
    → count_where (holds_key j.kind key j.org_id) t ≡ 0
unfolding insert_unique active_duplicate
key_free t u j key e d a = first_where-count _ t (ground arith)

holds_parts :
    (kind key : String) (org : Option ℕ) (j : BackgroundJob)
    → holds_key kind key org j ≡ true
    → (j.kind ≡ kind) × (j.dedupe_key ≡ some key) × (j.org_id ≡ org) × (is_active j.status ≡ true)
holds_parts kind key org j h =
    ground
      (arith, eq_iff j.kind kind, same_num_iff j.org_id org, same_text_iff j.dedupe_key (some key))

count-new_key :
    (t u : Jobs) (j : BackgroundJob) (kind key : String) (org : Option ℕ)
    → insert_unique t j ≡ some u
    → count_where (holds_key kind key org) t ≤ 1
    → count_where (holds_key kind key org) (t ++ j ∷ []) ≤ 1
unfolding count_where
count-new_key t u j kind key org e h = elim (Bool-cases (holds_key kind key org j)) [
  | inl held ↦
      let (k, d, o, a) = holds_parts kind key org j held in
      let free : count_where (holds_key kind key org) t ≡ 0 =
        subst (λ x. count_where (holds_key kind key x) t ≡ 0) o
          (subst (λ x. count_where (holds_key x key j.org_id) t ≡ 0) k
            (key_free t u j key e d a)) in
      ground (arith, free, count_where-append (holds_key kind key org) t (j ∷ []))
  | inr other ↦ ground (arith, count_where-append (holds_key kind key org) t (j ∷ []))
]

count-reclaim :
    (now : ℕ) (kind key : String) (org : Option ℕ) (t : Jobs)
    → count_where (holds_key kind key org) (map (reclaim_row now) t)
      ≤ count_where (holds_key kind key org) t
unfolding count_where reclaim_row bury requeue
count-reclaim now kind key org [] = omega arith
count-reclaim now kind key org (j ∷ js) = ground (arith, count-reclaim now kind key org js)

-- A settled attempt is active afterwards only as the same key's row.
fail_values-holds :
    (job : BackgroundJob) (dead : Bool) (error : String) (now : ℕ) (kind key : String)
    (org id : Option ℕ) (c : Option String) (j : BackgroundJob)
    → owned job.id c j ≡ true
    → holds_key kind key org (fail_values job dead error now j) ≡ true
    → holds_key kind key org j ≡ true
unfolding fail_values
fail_values-holds job dead error now kind key org id c j o h = ground arith

Step-HasUniqueKeys : (t u : Jobs) (n : ℕ) → Step t n u → HasUniqueKeys t → HasUniqueKeys u
Step-HasUniqueKeys t u _ (Step.insert r id now pos fresh e) h = λ kind key org.
    subst (λ (w : Jobs). count_where (holds_key kind key org) w ≤ 1)
      (sym (insert_unique-append t u (new_job r id now) e))
      (count-new_key t u (new_job r id now) kind key org e (h kind key org))
Step-HasUniqueKeys t _ _ (Step.claim _ id w lease now) h = λ kind key org. omega (
  arith,
  h kind key org,
  count_where-update (holds_key kind key org) (claimable id) (claim_values w lease now) t
      (λ j k. unfold claim_values in ground arith),
)
Step-HasUniqueKeys t _ _ (Step.succeed _ job c now) h = λ kind key org.
    unfold mark_succeeded succeed in
    omega (
      arith,
      h kind key org,
      count_where-update-le (holds_key kind key org) (owned job.id (claimant_of job c))
          (succeed now) t (λ j o k. ground arith),
    )
Step-HasUniqueKeys t _ _ (Step.fail _ job error c dead now f) h = λ kind key org.
    unfold mark_failed in
    omega (
      arith,
      h kind key org,
      count_where-update-le (holds_key kind key org) (owned job.id (claimant_of job c))
          (fail_values job dead error now) t
          (λ j o k. fail_values-holds job dead error now kind key org none _ j o k),
    )
Step-HasUniqueKeys t _ _ (Step.reclaim _ now) h = λ kind key org.
    rw (reclaim_expired-eq-map t now)
      (omega (arith, h kind key org, count-reclaim now kind key org t))

-- Whatever is committed, in any order, to a table in which no two active jobs share an (organisation,
-- kind, key), such as the empty one, no two ever do.
pub Run-HasUniqueKeys : (t u : Jobs) (n : ℕ) → Run t n u → HasUniqueKeys t → HasUniqueKeys u
Run-HasUniqueKeys t u n r h = Run-induction HasUniqueKeys Step-HasUniqueKeys r h

pub count-id-reclaim :
    (now id : ℕ) (t : Jobs)
    → count_where (has_id id) (map (reclaim_row now) t) ≡ count_where (has_id id) t
unfolding count_where reclaim_row bury requeue
count-id-reclaim now id [] = refl
count-id-reclaim now id (j ∷ js) = ground (arith, count-id-reclaim now id js)

fail_values-id :
    (job : BackgroundJob) (dead : Bool) (error : String) (now : ℕ) (j : BackgroundJob)
    → (fail_values job dead error now j).id ≡ j.id
unfolding fail_values
fail_values-id job dead error now j = ground arith

count-new_id :
    (t : Jobs) (r : Request) (id now k : ℕ)
    → count_where (has_id id) t ≡ 0
    → count_where (has_id k) t ≤ 1
    → count_where (has_id k) (t ++ new_job r id now ∷ []) ≤ 1
unfolding count_where new_job
count-new_id t r id now k fresh h = elim (Bool-cases (id == k)) [
  | inl same ↦
      let free : count_where (has_id k) t ≡ 0 =
        subst (λ x. count_where (has_id x) t ≡ 0) (ground arith) fresh in
      ground (arith, free, count_where-append (has_id k) t (new_job r id now ∷ []))
  | inr other ↦ ground (arith, count_where-append (has_id k) t (new_job r id now ∷ []))
]

Step-HasUniqueIds : (t u : Jobs) (n : ℕ) → Step t n u → HasUniqueIds t → HasUniqueIds u
Step-HasUniqueIds t u _ (Step.insert r id now pos fresh e) h = λ k.
    subst (λ (w : Jobs). count_where (has_id k) w ≤ 1)
      (sym (insert_unique-append t u (new_job r id now) e)) (count-new_id t r id now k fresh (h k))
Step-HasUniqueIds t _ _ (Step.claim _ id w lease now) h = λ k. omega (
  arith,
  h k,
  count_where-update (has_id k) (claimable id) (claim_values w lease now) t
      (λ j o. unfold claim_values in ground arith),
)
Step-HasUniqueIds t _ _ (Step.succeed _ job c now) h = λ k.
    unfold mark_succeeded succeed in
    omega (
      arith,
      h k,
      count_where-update (has_id k) (owned job.id (claimant_of job c)) (succeed now) t
          (λ j o. refl),
    )
Step-HasUniqueIds t _ _ (Step.fail _ job error c dead now f) h = λ k.
    unfold mark_failed in
    omega (
      arith,
      h k,
      count_where-update (has_id k) (owned job.id (claimant_of job c))
          (fail_values job dead error now) t
          (λ j o. ground (arith, fail_values-id job dead error now j)),
    )
Step-HasUniqueIds t _ _ (Step.reclaim _ now) h =
    λ k. rw (reclaim_expired-eq-map t now) (omega (arith, h k, count-id-reclaim now k t))

pub Run-HasUniqueIds : (t u : Jobs) (n : ℕ) → Run t n u → HasUniqueIds t → HasUniqueIds u
Run-HasUniqueIds t u n r h = Run-induction HasUniqueIds Step-HasUniqueIds r h
