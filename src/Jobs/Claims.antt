-- ===== src/Jobs/Claims.antt =====
-- `claim_next` of packages/asas-jobs/src/asas_jobs/queue.py: who gets which job.
use asas.Base.{
  ℕ, ◌≤◌, ◌≡◌, sym, ap, ◌∙◌, subst, String, true, false, none, some, List, [], ◌∷◌, arith, ◌==◌,
  if◌then◌else◌, update_where, count_where, first_where, All, inl, inr, Bool-cases, Option-cases,
  count_where_mono, refl, ◌+◌, some_unique, first_where-holds, ==_iff,
}
use asas.Jobs.Model.{BackgroundJob, is_queued, is_running, seconds}
use asas.Jobs.Queue.{
  Jobs, has_id, claim_values, claimable, Rivals, claim_rounds, claim_next, oldest_due,
}
use asas.Jobs.Steps.{Step, Run, here, next}
use asas.Jobs.Dedupe.{HasUniqueIds, Run-HasUniqueIds}

abbrev pub RivalsRun : Rivals → Type 0
RivalsRun r =
    ((t : Jobs) → (n : ℕ) × Run t n (r.before_select t))
    × ((t : Jobs) → (n : ℕ) × Run t n (r.before_update t))

pub Run-trans : {t u v : Jobs} {n m : ℕ} → Run t n u → Run u m v → (k : ℕ) × Run t k v
Run-trans {n = n} r here = (n, r)
Run-trans r (next s st) = let (k, q) = Run-trans r s in (_, next q st)

module _ (r : Rivals) (rs : List Rivals) (t : Jobs) (w : String) (lease now : ℕ) where
  -- The table as the round's update finds it, and as it leaves it.
  abbrev pub found : Jobs
  found = r.before_update (r.before_select t)

  abbrev pub claimed : ℕ → Jobs
  claimed id = update_where (claimable id) (claim_values w lease now) found

  pub round_idle :
      oldest_due r.locked now (r.before_select t) ≡ none
      → claim_rounds (r ∷ rs) t w lease now ≡ (r.before_select t, none)
  unfolding claim_rounds
  round_idle e = rw (e, claim_rounds)

  module _ (pick : BackgroundJob)
      (e : oldest_due r.locked now (r.before_select t) ≡ some pick) where
    pub round_won :
        (count_where (claimable pick.id) found == 1) ≡ true
        → claim_rounds (r ∷ rs) t w lease now
          ≡ (claimed pick.id, first_where (has_id pick.id) (claimed pick.id))
    unfolding claim_rounds
    round_won k = rw (e, claim_rounds) (rw (k, if◌then◌else◌))

    pub round_lost :
        (count_where (claimable pick.id) found == 1) ≡ false
        → claim_rounds (r ∷ rs) t w lease now ≡ claim_rounds rs (claimed pick.id) w lease now
    unfolding claim_rounds
    round_lost k = rw (e, claim_rounds) (rw (k, if◌then◌else◌))

-- Each round of `claim_next` is a statement between those of the other sessions.
pub claim_rounds-Run :
    (rs : List Rivals) (t : Jobs) (w : String) (lease now : ℕ)
    → All RivalsRun rs
    → (n : ℕ) × Run t n (claim_rounds rs t w lease now).0
claim_rounds-Run [] t w lease now h = unfold claim_rounds in (0, here)
claim_rounds-Run (r ∷ rs) t w lease now h =
    elim (Option-cases (oldest_due r.locked now (r.before_select t))) [
      | inl e ↦ rw (round_idle r rs t w lease now e) (h.0.0 t)
      | inr (pick, e) ↦
          let (n, before) = h.0.0 t in
          let (m, between) = h.0.1 (r.before_select t) in
          let (k, reached) = Run-trans before between in
          let step = next reached (Step.claim (found r rs t w lease now) pick.id w lease now) in
          elim (Bool-cases (count_where (claimable pick.id) (found r rs t w lease now) == 1)) [
            | inl won ↦ rw (round_won r rs t w lease now pick e won) (_, step)
            | inr lost ↦
                let (i, rest) =
                  claim_rounds-Run rs (claimed r rs t w lease now pick.id) w lease now h.1 in
                rw (round_lost r rs t w lease now pick e lost) (Run-trans step rest)
          ]
    ]

-- The row `j` is the queued row `old` once this worker has claimed it.
pub record IsClaimOf (old : BackgroundJob) (w : String) (lease now : ℕ) (j : BackgroundJob)
    : Type 0 where
  pub was_queued : is_queued old.status ≡ true
  pub same_job : (j.id ≡ old.id) × (j.kind ≡ old.kind) × (j.payload ≡ old.payload)
  pub now_running : is_running j.status ≡ true
  pub mine : j.claimed_by ≡ some w
  pub leased : j.lease_expires_at ≡ some (now + seconds lease)
  pub counted : j.attempts ≡ old.attempts + 1

pub claim_values-IsClaimOf :
    (old : BackgroundJob) (w : String) (lease now : ℕ)
    → is_queued old.status ≡ true
    → IsClaimOf old w lease now (claim_values w lease now old)
unfolding claim_values
claim_values-IsClaimOf old w lease now q = record {
  was_queued = q;
  same_job = (refl, refl, refl);
  now_running = refl;
  mine = refl;
  leased = refl;
  counted = refl;
}

-- With one row to an id, the row read back after the claim is the one that was claimed.
pub claimed_row :
    (id : ℕ) (w : String) (lease now : ℕ) (t : Jobs)
    → count_where (has_id id) t ≤ 1
    → count_where (claimable id) t ≡ 1
    → (old : BackgroundJob) × (first_where (has_id id) t ≡ some old)
      × (is_queued old.status ≡ true)
      × (first_where (has_id id) (update_where (claimable id) (claim_values w lease now) t)
          ≡ some (claim_values w lease now old))
unfolding count_where first_where update_where
claimed_row id w lease now [] one mine = absurd (ground arith)
claimed_row id w lease now (j ∷ js) one mine = elim (Bool-cases (has_id id j)) [
  | inl k ↦
      let rest = count_where_mono (claimable id) (has_id id) js (λ x h. ground arith) in
      (
        j,
        ground (arith, k),
        ground (arith, k, rest),
        unfold claim_values in ground (arith, k, rest),
      )
  | inr k ↦
      let (old, a, b, c) = claimed_row id w lease now js (ground (arith, k)) (ground (arith, k)) in
      (old, ground (arith, k, a), b, ground (arith, k, c))
]

-- The claim of `j` by one update: `old` is the row of its id in the table `seen`, where it was queued,
-- `after` is that table with the row claimed, and `j` the row as it is read back.
pub record IsClaimIn (seen after : Jobs) (w : String) (lease now : ℕ) (j : BackgroundJob)
    : Type 0 where
  pub old : BackgroundJob
  pub row : first_where (has_id j.id) seen ≡ some old
  pub claimed_from : IsClaimOf old w lease now j
  pub update : after ≡ update_where (claimable j.id) (claim_values w lease now) seen
  pub reads : first_where (has_id j.id) after ≡ some j

pub read_back :
    (id : ℕ) (w : String) (lease now : ℕ) (t : Jobs) (j : BackgroundJob)
    → count_where (has_id id) t ≤ 1
    → count_where (claimable id) t ≡ 1
    → first_where (has_id id) (update_where (claimable id) (claim_values w lease now) t) ≡ some j
    → IsClaimIn t (update_where (claimable id) (claim_values w lease now) t) w lease now j
unfolding claim_values
read_back id w lease now t j one mine e =
    let (old, a, b, c) = claimed_row id w lease now t one mine in
    let same : claim_values w lease now old ≡ j = some_unique _ _ j c e in
    let named : id ≡ j.id =
      sym ((==_iff old.id id).0 (first_where-holds (has_id id) t old a))
      ∙ ap (λ (x : BackgroundJob). x.id) same in
    record {
      old = old;
      row = subst (λ (i : ℕ). first_where (has_id i) t ≡ some old) named a;
      claimed_from =
          subst (IsClaimOf old w lease now) same (claim_values-IsClaimOf old w lease now b);
      update = ap (λ (i : ℕ). update_where (claimable i) (claim_values w lease now) t) named;
      reads =
          subst
            (λ (i : ℕ).
              first_where (has_id i) (update_where (claimable id) (claim_values w lease now) t)
              ≡ some j)
            named e;
    }

-- A table that the sessions reach from `t`, from which the claim leads to `after`.
abbrev pub WonFrom : Jobs → Jobs → String → ℕ → ℕ → BackgroundJob → Type 0
WonFrom t after w lease now j =
    (n : ℕ) × (seen : Jobs) × Run t n seen × IsClaimIn seen after w lease now j

pub claim_rounds-won :
    (rs : List Rivals) (t : Jobs) (w : String) (lease now : ℕ) (j : BackgroundJob)
    → HasUniqueIds t
    → All RivalsRun rs
    → (claim_rounds rs t w lease now).1 ≡ some j
    → WonFrom t (claim_rounds rs t w lease now).0 w lease now j
claim_rounds-won [] t w lease now j ids h e = unfold claim_rounds in absurd (ground arith)
claim_rounds-won (r ∷ rs) t w lease now j ids h e =
    elim (Option-cases (oldest_due r.locked now (r.before_select t))) [
      | inl q ↦ absurd (ground (arith, e, round_idle r rs t w lease now q))
      | inr (pick, q) ↦
          let (n, before) = h.0.0 t in
          let (m, between) = h.0.1 (r.before_select t) in
          let (k, reached) = Run-trans before between in
          let seen = found r rs t w lease now in
          let unique = Run-HasUniqueIds t seen k reached ids in
          elim (Bool-cases (count_where (claimable pick.id) seen == 1)) [
            | inl won ↦
                let round = round_won r rs t w lease now pick q won in
                (
                  k,
                  seen,
                  reached,
                  subst (λ (u : Jobs). IsClaimIn seen u w lease now j) (ap (λ p. p.0) (sym round))
                      (read_back pick.id w lease now seen j (unique pick.id) (ground (arith, won))
                        (ap (λ p. p.1) (sym round) ∙ e)),
                )
            | inr lost ↦
                let round = round_lost r rs t w lease now pick q lost in
                let next_table = claimed r rs t w lease now pick.id in
                let step = next reached (Step.claim seen pick.id w lease now) in
                let (i, later, run, claim) =
                  claim_rounds-won rs next_table w lease now j
                    (Run-HasUniqueIds t next_table _ step ids) h.1
                    (sym (ap (λ p. p.1) round) ∙ e) in
                let (total, whole) = Run-trans step run in
                (
                  total,
                  later,
                  whole,
                  subst (λ (u : Jobs). IsClaimIn later u w lease now j) (ap (λ p. p.0) (sym round))
                      claim,
                )
          ]
    ]

-- Whatever statements of the queue the other sessions commit between its own: when `claim_next` returns
-- a job, there is a table that those statements and its own reach in which the row of the job's id was
-- queued; the table that it leaves is that one with just that row claimed, and the job is the row as it
-- now stands there, this worker's, with one attempt more and the lease set. The table that is left is
-- reached by the statements of all the sessions. No two rows share an id at the start.
pub claim_next-won :
    (r₁ r₂ r₃ r₄ r₅ : Rivals) (t : Jobs) (w : String) (lease now : ℕ) (j : BackgroundJob)
    → HasUniqueIds t
    → All RivalsRun (r₁ ∷ r₂ ∷ r₃ ∷ r₄ ∷ r₅ ∷ [])
    → (claim_next r₁ r₂ r₃ r₄ r₅ t w lease now).1 ≡ some j
    → ((n : ℕ) × Run t n (claim_next r₁ r₂ r₃ r₄ r₅ t w lease now).0)
      × WonFrom t (claim_next r₁ r₂ r₃ r₄ r₅ t w lease now).0 w lease now j
unfolding claim_next
claim_next-won r₁ r₂ r₃ r₄ r₅ t w lease now j ids h e = (
  claim_rounds-Run (r₁ ∷ r₂ ∷ r₃ ∷ r₄ ∷ r₅ ∷ []) t w lease now h,
  claim_rounds-won (r₁ ∷ r₂ ∷ r₃ ∷ r₄ ∷ r₅ ∷ []) t w lease now j ids h e,
)

-- Whatever is claimed, the table that is left is reached by the statements of all the sessions.
pub claim_next-Run :
    (r₁ r₂ r₃ r₄ r₅ : Rivals) (t : Jobs) (w : String) (lease now : ℕ)
    → All RivalsRun (r₁ ∷ r₂ ∷ r₃ ∷ r₄ ∷ r₅ ∷ [])
    → (n : ℕ) × Run t n (claim_next r₁ r₂ r₃ r₄ r₅ t w lease now).0
unfolding claim_next
claim_next-Run r₁ r₂ r₃ r₄ r₅ t w lease now h =
    claim_rounds-Run (r₁ ∷ r₂ ∷ r₃ ∷ r₄ ∷ r₅ ∷ []) t w lease now h
