-- ===== src/Jobs/Fencing.antt =====
-- The claimant CAS of the settles in packages/asas-jobs/src/asas_jobs/queue.py.
use asas.Base.{
  ℕ, zero, suc, ◌*◌, ◌^◌, min, ◌≤◌, ◌≡◌, ◌≢◌, ◌⊎◌, refl, String, Bool, true, false, Option, [], ◌∷◌,
  arith, update_where, count_where, All, same_text_iff, update_where-none, count_where_mono, inl,
  inr, Bool-cases,
}
use native.Mathlib.Nat.{pow-suc}
use asas.Jobs.Model.{BackgroundJob, is_running}
use asas.Jobs.Queue.{
  Jobs, claimant_of, owned, succeed, mark_succeeded, fail_values, mark_failed, has_id, backoff,
  backoff_base_seconds, backoff_cap_seconds,
}
use asas.Jobs.Dedupe.{HasUniqueIds}

not_owned :
    (id : ℕ) (c : Option String) (t : Jobs)
    → All (λ j. has_id id j ≡ true → is_running j.status ≡ true → j.claimed_by ≢ c) t
    → count_where (owned id c) t ≡ 0
unfolding count_where
not_owned id c [] h = refl
not_owned id c (j ∷ js) h = ground (arith, h.0, same_text_iff j.claimed_by c, not_owned id c js h.1)

-- Neither settle of the job by the claimant returns True or changes the table.
abbrev pub SettlesNothing : Jobs → BackgroundJob → Option String → String → Bool → ℕ → Type 0
SettlesNothing t job claimed_by error dead now =
    (mark_succeeded t job claimed_by now ≡ (t, false))
    × (mark_failed t job error claimed_by dead now ≡ (t, false))

not_owned-settles :
    (t : Jobs) (job : BackgroundJob) (c : Option String) (error : String) (dead : Bool) (now : ℕ)
    → count_where (owned job.id (claimant_of job c)) t ≡ 0
    → SettlesNothing t job c error dead now
unfolding mark_succeeded mark_failed
not_owned-settles t job c error dead now gone = (
  ground (arith, gone, update_where-none (owned job.id (claimant_of job c)) (succeed now) t),
  ground (
    arith,
    gone,
    update_where-none (owned job.id (claimant_of job c)) (fail_values job dead error now) t,
  ),
)

-- A worker whose claim is gone (its job settled, re-queued, or claimed by another) settles nothing:
-- both settles return False and leave the table as it is.
pub settle_fenced :
    (t : Jobs) (job : BackgroundJob) (claimed_by : Option String) (error : String) (dead : Bool)
    (now : ℕ)
    → All
        (λ j.
          has_id job.id j ≡ true
          → is_running j.status ≡ true
          → j.claimed_by ≢ claimant_of job claimed_by)
        t
    → SettlesNothing t job claimed_by error dead now
settle_fenced t job c error dead now h =
    not_owned-settles t job c error dead now (not_owned job.id (claimant_of job c) t h)

owned-le-id :
    (id : ℕ) (c : Option String) (t : Jobs) → count_where (owned id c) t ≤ count_where (has_id id) t
owned-le-id id c t = count_where_mono (owned id c) (has_id id) t (λ j h. ground arith)

-- After a write that leaves the row idle, no claimant owns it.
idle-not_owned :
    (id : ℕ) (c d : Option String) (f : BackgroundJob → BackgroundJob) (t : Jobs)
    → ((j : BackgroundJob) → is_running (f j).status ≡ false)
    → count_where (has_id id) t ≤ 1
    → count_where (owned id c) t ≡ 1
    → count_where (owned id d) (update_where (owned id c) f t) ≡ 0
unfolding count_where update_where
idle-not_owned id c d f [] idle one mine = refl
idle-not_owned id c d f (j ∷ js) idle one mine = elim (Bool-cases (owned id c j)) [
  | inl e ↦
      let none_left : count_where (has_id id) js ≡ 0 = ground (arith, e) in
      let same = update_where-none (owned id c) f js (omega (arith, owned-le-id id c js)) in
      ground (arith, e, idle j, same, owned-le-id id d js)
  | inr e ↦ elim (Bool-cases (has_id id j)) [
    | inl k ↦ absurd (ground (arith, e, k, owned-le-id id c js))
    | inr k ↦ ground (arith, e, k, idle-not_owned id c d f js idle)
  ]
]

fail_values-idle :
    (job : BackgroundJob) (dead : Bool) (error : String) (now : ℕ) (j : BackgroundJob)
    → is_running (fail_values job dead error now j).status ≡ false
unfolding fail_values
fail_values-idle job dead error now j = ground arith

-- A job whose id no other row has is settled once: a settle, successful or failed, that returned
-- True leaves a table in which no settle of the job, of either kind and by any claimant, returns True
-- or changes anything.
pub settle_once :
    (t : Jobs) (job : BackgroundJob) (c : Option String) (error : String) (dead : Bool) (now : ℕ)
    (job' : BackgroundJob) (c' : Option String) (error' : String) (dead' : Bool) (now' : ℕ)
    → HasUniqueIds t
    → job'.id ≡ job.id
    → (((mark_succeeded t job c now).1 ≡ false)
        ⊎ SettlesNothing (mark_succeeded t job c now).0 job' c' error' dead' now')
      × (((mark_failed t job error c dead now).1 ≡ false)
          ⊎ SettlesNothing (mark_failed t job error c dead now).0 job' c' error' dead' now')
unfolding mark_succeeded mark_failed
settle_once t job c error dead now job' c' error' dead' now' ids same = (
  elim (Bool-cases (mark_succeeded t job c now).1) [
    | inr lost ↦ inl lost
    | inl won ↦ inr (
        not_owned-settles _ job' c' error' dead' now' (
          rw same (
            idle-not_owned job.id (claimant_of job c) (claimant_of job' c') (succeed now) t
              (λ j. unfold succeed in refl) (ids job.id) (ground (arith, won)))))
  ],
  elim (Bool-cases (mark_failed t job error c dead now).1) [
    | inr lost ↦ inl lost
    | inl won ↦ inr (
        not_owned-settles _ job' c' error' dead' now' (
          rw same (
            idle-not_owned job.id (claimant_of job c) (claimant_of job' c')
              (fail_values job dead error now) t (fail_values-idle job dead error now) (ids job.id)
              (ground (arith, won)))))
  ],
)

backoff-suc : (n : ℕ) → backoff (suc n) ≡ min (30 * 2 ^ n) 3600
unfolding backoff
backoff-suc n = refl

pow2_pos : (n : ℕ) → 1 ≤ 2 ^ n
pow2_pos zero = omega arith
pow2_pos (suc n) = omega (arith, pow-suc 2 n, pow2_pos n)

-- The first failed attempt waits the base, each one after it twice as long as the one before up to
-- the cap, and no wait is below the base or above the cap.
pub backoff_doubles :
    (n : ℕ)
    → (backoff 1 ≡ backoff_base_seconds)
      × (backoff (suc (suc n)) ≡ min (2 * backoff (suc n)) backoff_cap_seconds)
      × (backoff_base_seconds ≤ backoff (suc n))
      × (backoff (suc n) ≤ backoff_cap_seconds)
backoff_doubles n =
    let one = pow2_pos n in
    (
      unfold backoff in refl,
      rw (backoff-suc (suc n), backoff-suc n) (omega (arith, pow-suc 2 n)),
      rw (backoff-suc n) (omega arith),
      rw (backoff-suc n) (omega arith),
    )
