-- ===== src/Jobs/Oldest.antt =====
-- Which job `claim_next` of packages/asas-jobs/src/asas_jobs/queue.py picks.
use asas.Base.{
  ℕ, ◌≤◌, ◌≡◌, subst, String, Bool, true, false, ◌&&◌, ltb, none, some, [], ◌∷◌, arith,
  if◌then◌else◌, update_where, count_where, first_where, All, inl, inr, ◌⊎◌, Bool-cases,
  Option-cases, All-map, count_where_mono, some_unique, ap, ◌∙◌, Option, count_where-first, refl,
  ==_iff,
}
use asas.Jobs.Model.{BackgroundJob}
use asas.Jobs.Queue.{Jobs, has_id, claim_values, claimable, claim_next, is_due, oldest_due, alone}
use asas.Jobs.Dedupe.{HasUniqueIds}
use asas.Jobs.Claims.{round_idle, round_won, claimed_row}

none_due :
    (locked : BackgroundJob → Bool) (now : ℕ) (t : Jobs)
    → oldest_due locked now t ≡ none
    → All (λ k. is_due locked now k ≡ false) t
unfolding oldest_due
none_due locked now [] e = tt
none_due locked now (j ∷ js) e = (ground (arith, e), none_due locked now js (ground (arith, e)))

-- No due row is older than `p`.
abbrev pub NoOlder : (BackgroundJob → Bool) → ℕ → BackgroundJob → BackgroundJob → Type 0
NoOlder locked now p k = is_due locked now k ≡ true → p.run_at ≤ k.run_at

-- What is due, with none older.
abbrev pub IsOldest : (BackgroundJob → Bool) → ℕ → Jobs → BackgroundJob → Type 0
IsOldest locked now t p =
    (is_due locked now p ≡ true)
    × All (NoOlder locked now p) t
    × (1 ≤ count_where (claimable p.id) t)

row_here : (j p : BackgroundJob) (js : Jobs) → j ≡ p → first_where (has_id p.id) (j ∷ js) ≡ some p
unfolding first_where
row_here j p js e =
    subst (λ (k : BackgroundJob). first_where (has_id k.id) (j ∷ js) ≡ some k) e
      (rw ((==_iff j.id j.id).1 refl) refl)

row_there :
    (j p : BackgroundJob) (js : Jobs)
    → HasUniqueIds (j ∷ js)
    → first_where (has_id p.id) js ≡ some p
    → first_where (has_id p.id) (j ∷ js) ≡ some p
unfolding first_where count_where
row_there j p js ids e =
    let one = ids p.id in
    let more = count_where-first (has_id p.id) js p e in
    elim (Bool-cases (has_id p.id j)) [
      | inl hit ↦ absurd (ground (arith, hit, one, more))
      | inr miss ↦ rw miss e
    ]

tail-HasUniqueIds : (j : BackgroundJob) (js : Jobs) → HasUniqueIds (j ∷ js) → HasUniqueIds js
unfolding count_where
tail-HasUniqueIds j js ids id = let one = ids id in ground (arith, one)

-- The pick is the row of its id: with one row to an id no other stands before it.
oldest_due-row :
    (locked : BackgroundJob → Bool) (now : ℕ) (t : Jobs) (p : BackgroundJob)
    → HasUniqueIds t
    → oldest_due locked now t ≡ some p
    → first_where (has_id p.id) t ≡ some p
unfolding oldest_due
oldest_due-row locked now [] p ids e = absurd (ground (arith, e))
oldest_due-row locked now (j ∷ js) p ids e = elim (Option-cases (oldest_due locked now js)) [
  | inl q ↦ row_here j p js (ground (arith, q, e))
  | inr (k, q) ↦
      elim (Bool-cases (is_due locked now j && (if ltb k.run_at j.run_at then false else true))) [
        | inl first ↦ row_here j p js (ground (arith, q, e, first))
        | inr later ↦
            let same : k ≡ p = ground (arith, q, e, later) in
            row_there j p js ids
              (oldest_due-row locked now js p (tail-HasUniqueIds j js ids) (q ∙ ap some same))
      ]
]

module _ (locked : BackgroundJob → Bool) (now : ℕ) (j : BackgroundJob) (js : Jobs) where
  IsOldest-here :
      is_due locked now j ≡ true → All (NoOlder locked now j) js → IsOldest locked now (j ∷ js) j
  unfolding count_where
  IsOldest-here due h = (due, ((λ k. omega arith), h), ground (arith, due))

  IsOldest-there :
      (k : BackgroundJob)
      → NoOlder locked now k j
      → IsOldest locked now js k
      → IsOldest locked now (j ∷ js) k
  unfolding count_where
  IsOldest-there k n (a, b, c) = (a, (n, b), ground (arith, c))

  vacuous : All (λ k. is_due locked now k ≡ false) js → All (NoOlder locked now j) js
  vacuous = All-map _ (NoOlder locked now j) js (λ k late due. absurd (ground (arith, late, due)))

  nearer :
      (k : BackgroundJob)
      → j.run_at ≤ k.run_at
      → All (NoOlder locked now k) js
      → All (NoOlder locked now j) js
  nearer k h =
      All-map (NoOlder locked now k) (NoOlder locked now j) js (λ x n due. omega (arith, h, n due))

oldest_due_lem :
    (locked : BackgroundJob → Bool) (now : ℕ) (t : Jobs) (p : BackgroundJob)
    → oldest_due locked now t ≡ some p
    → IsOldest locked now t p
unfolding oldest_due
oldest_due_lem locked now [] p e = absurd (ground arith)
oldest_due_lem locked now (j ∷ js) p e = elim (Option-cases (oldest_due locked now js)) [
  | inl q ↦ subst (IsOldest locked now (j ∷ js)) (ground (arith, q, e)) (
      IsOldest-here locked now j js (ground (arith, q, e))
        (vacuous locked now j js (none_due locked now js q)))
  | inr (k, q) ↦
      let ih = oldest_due_lem locked now js k q in
      elim (Bool-cases (is_due locked now j && (if ltb k.run_at j.run_at then false else true))) [
        | inl first ↦ subst (IsOldest locked now (j ∷ js)) (ground (arith, q, e, first)) (
            IsOldest-here locked now j js (ground (arith, first))
              (nearer locked now j js k (ground (arith, first)) ih.1))
        | inr later ↦
            subst (IsOldest locked now (j ∷ js)) (ground (arith, q, e, later))
              (IsOldest-there locked now j js k (λ due. ground (arith, later, due)) ih)
      ]
]

-- With no other session at work and no id on two rows, `claim_next` either finds nothing due, then
-- returns nothing and writes nothing; or there is a row of the table that is due, than which no due row
-- is older, and it claims that row and returns it as claimed.
pub claim_next-IsOldest :
    (t : Jobs) (w : String) (lease now : ℕ)
    → HasUniqueIds t
    → ((claim_next alone alone alone alone alone t w lease now ≡ (t, none))
        × All (λ k. is_due (λ j. false) now k ≡ false) t)
      ⊎ ((old : BackgroundJob) × (first_where (has_id old.id) t ≡ some old)
          × IsOldest (λ j. false) now t old
          × (claim_next alone alone alone alone alone t w lease now ≡ (
            update_where (claimable old.id) (claim_values w lease now) t,
            some (claim_values w lease now old),
          )))
unfolding claim_next
claim_next-IsOldest t w lease now ids =
    let rest = alone ∷ alone ∷ alone ∷ alone ∷ [] in
    elim (Option-cases (oldest_due (λ j. false) now t)) [
      | inl e ↦ inl (round_idle alone rest t w lease now e, none_due (λ j. false) now t e)
      | inr (p, e) ↦
          let (a, b, c) = oldest_due_lem (λ j. false) now t p e in
          let few = count_where_mono (claimable p.id) (has_id p.id) t (λ x h. ground arith) in
          let one : count_where (claimable p.id) t ≡ 1 = omega (arith, c, few, ids p.id) in
          let row = oldest_due-row (λ j. false) now t p ids e in
          let (old, found_old, _, back) = claimed_row p.id w lease now t (ids p.id) one in
          let same : old ≡ p = some_unique _ old p found_old row in
          inr (
            p,
            row,
            (a, b, c),
            round_won alone rest t w lease now p e (ground (arith, one))
                ∙ ap
                    (λ (o : Option BackgroundJob).
                      (update_where (claimable p.id) (claim_values w lease now) t, o))
                    (back ∙ ap (λ (x : BackgroundJob). some (claim_values w lease now x)) same),
          )
    ]
