-- ===== src/Jobs/Queue.antt =====
-- packages/asas-jobs/src/asas_jobs/queue.py: enqueue, claim and settle. Each UPDATE is one atomic
-- step on the table; what other sessions commit between two statements is an argument.
use asas.Base.{
  ℕ, zero, suc, ◌+◌, ◌*◌, ◌^◌, min, String, Bool, true, false, ◌&&◌, ◌||◌, Option, none, some, List,
  [], ◌∷◌, ◌++◌, ltb, leb, ◌==◌, str_eq, if◌then◌else◌, same_num, same_text, is_some, update_where,
  count_where, first_where, Fields, clip,
}
use asas.Jobs.Model.{
  seconds, queued, running, succeeded, failed, is_queued, is_running, is_active, BackgroundJob,
}

abbrev pub Jobs : Type 0
Jobs = List BackgroundJob

abbrev pub backoff_base_seconds : ℕ
backoff_base_seconds = 30

abbrev pub backoff_cap_seconds : ℕ
backoff_cap_seconds = 3600

-- The WHERE clause of `_active_duplicate`, and the key of the two unique indexes.
abbrev pub holds_key : String → String → Option ℕ → BackgroundJob → Bool
holds_key kind key org j =
    str_eq j.kind kind
    && same_text j.dedupe_key (some key)
    && same_num j.org_id org
    && is_active j.status

unfoldable pub active_duplicate : Jobs → String → String → Option ℕ → Option BackgroundJob
unfolding first_where
active_duplicate jobs kind key org = first_where (holds_key kind key org) jobs

pub record Request : Type 0 where
  pub kind : String
  pub payload : Fields
  pub org_id : Option ℕ
  pub run_at : Option ℕ
  pub schedule_id : Option ℕ
  pub max_attempts : ℕ
  pub dedupe_key : Option String

pub data EnqueueError : Type 0 where
  bad_max_attempts integrity_error : EnqueueError

pub data Outcome : Type 0 where
  added existing : BackgroundJob → Outcome
  raised : EnqueueError → Outcome

abbrev or_now : Option ℕ → ℕ → ℕ
or_now none now = now
or_now (some t) now = t

-- The row that `enqueue` inserts; `id` is drawn by the database.
unfoldable pub new_job : Request → ℕ → ℕ → BackgroundJob
new_job r id now = record {
  id = id;
  org_id = r.org_id;
  kind = r.kind;
  payload = r.payload;
  status = queued;
  run_at = or_now r.run_at now;
  attempts = 0;
  max_attempts = r.max_attempts;
  claimed_by = none;
  lease_expires_at = none;
  last_error = none;
  schedule_id = r.schedule_id;
  dedupe_key = r.dedupe_key;
  created_at = now;
  started_at = none;
  finished_at = none;
}

-- The lookup of the fast path and of the handler of `IntegrityError`.
abbrev pub duplicate_of : Jobs → Request → Option BackgroundJob
duplicate_of jobs r = elim r.dedupe_key [
  | none ↦ none
  | some key ↦ active_duplicate jobs r.kind key r.org_id
]

-- INSERT and COMMIT under the two partial unique indexes: `none` is an IntegrityError.
unfoldable pub insert_unique : Jobs → BackgroundJob → Option Jobs
insert_unique jobs j = elim j.dedupe_key [
  | none ↦ some (jobs ++ j ∷ [])
  | some key ↦
      if is_active j.status && is_some (active_duplicate jobs j.kind key j.org_id)
      then none
      else some (jobs ++ j ∷ [])
]

abbrev after_conflict : Jobs → Option BackgroundJob → Jobs × Outcome
after_conflict jobs none = (jobs, raised integrity_error)
after_conflict jobs (some winner) = (jobs, existing winner)

-- `before_insert` and `before_retry` are what other sessions commit after the first lookup and
-- after the rollback.
unfoldable pub enqueue :
    (before_insert before_retry : Jobs → Jobs) → Jobs → Request → ℕ → ℕ → Jobs × Outcome
unfolding insert_unique new_job
enqueue before_insert before_retry jobs r id now =
    if r.max_attempts == 0 then (jobs, raised bad_max_attempts) else elim (duplicate_of jobs r) [
      | some winner ↦ (jobs, existing winner)
      | none ↦
          let seen = before_insert jobs in
          elim (insert_unique seen (new_job r id now)) [
            | some committed ↦ (committed, added (new_job r id now))
            | none ↦ let later = before_retry seen in after_conflict later (duplicate_of later r)
          ]
    ]

-- WHERE status = 'queued' AND run_at <= now, less the rows that SKIP LOCKED passes over.
abbrev pub is_due : (BackgroundJob → Bool) → ℕ → BackgroundJob → Bool
is_due locked now j = is_queued j.status && leb j.run_at now && (if locked j then false else true)

abbrev earlier : BackgroundJob → Option BackgroundJob → BackgroundJob
earlier j none = j
earlier j (some k) = if ltb k.run_at j.run_at then k else j

-- ORDER BY run_at LIMIT 1; of equal moments the first row of the table.
unfoldable pub oldest_due : (BackgroundJob → Bool) → ℕ → Jobs → Option BackgroundJob
oldest_due locked now [] = none
oldest_due locked now (j ∷ js) =
    let rest = oldest_due locked now js in
    if is_due locked now j then some (earlier j rest) else rest

abbrev pub claimable : ℕ → BackgroundJob → Bool
claimable id j = j.id == id && is_queued j.status

unfoldable pub claim_values : String → ℕ → ℕ → BackgroundJob → BackgroundJob
claim_values worker lease_seconds now j = record j {
  status = running;
  claimed_by = some worker;
  lease_expires_at = some (now + seconds lease_seconds);
  attempts = j.attempts + 1;
  started_at = some now;
}

abbrev pub has_id : ℕ → BackgroundJob → Bool
has_id id j = j.id == id

-- What the rest of the world does in one round: the rows it has locked, and what it commits before
-- the select and between the select and the update.
pub record Rivals : Type 0 where
  pub locked : BackgroundJob → Bool
  pub before_select : Jobs → Jobs
  pub before_update : Jobs → Jobs

abbrev pub alone : Rivals
alone = record { locked = λ j. false; before_select = λ t. t; before_update = λ t. t }

-- The loop of `claim_next`, a round for each element of the list.
unfoldable pub claim_rounds : List Rivals → Jobs → String → ℕ → ℕ → Jobs × Option BackgroundJob
unfolding oldest_due claim_values
claim_rounds [] jobs worker lease now = (jobs, none)
claim_rounds (r ∷ rs) jobs worker lease now =
    let seen = r.before_select jobs in
    elim (oldest_due r.locked now seen) [
      | none ↦ (seen, none)
      | some pick ↦
          let table = r.before_update seen in
          let table' = update_where (claimable pick.id) (claim_values worker lease now) table in
          let again = claim_rounds rs table' worker lease now in
          if count_where (claimable pick.id) table == 1
          then (table', first_where (has_id pick.id) table')
          else again
    ]

unfoldable pub claim_next :
    (r₁ r₂ r₃ r₄ r₅ : Rivals) → Jobs → String → ℕ → ℕ → Jobs × Option BackgroundJob
unfolding claim_rounds
claim_next r₁ r₂ r₃ r₄ r₅ = claim_rounds (r₁ ∷ r₂ ∷ r₃ ∷ r₄ ∷ r₅ ∷ [])

abbrev pub claimant_of : BackgroundJob → Option String → Option String
claimant_of job none = job.claimed_by
claimant_of job (some c) = some c

-- WHERE id = … AND status = 'running' AND claimed_by = …
abbrev pub owned : ℕ → Option String → BackgroundJob → Bool
owned id claimant j = j.id == id && is_running j.status && same_text j.claimed_by claimant

unfoldable pub succeed : ℕ → BackgroundJob → BackgroundJob
succeed now j = record j {
  status = succeeded;
  finished_at = some now;
  claimed_by = none;
  lease_expires_at = none;
}

-- `job` is the row as the caller's session reads it.
unfoldable pub mark_succeeded : Jobs → BackgroundJob → Option String → ℕ → Jobs × Bool
unfolding succeed
mark_succeeded jobs job claimed_by now =
    let mine = owned job.id (claimant_of job claimed_by) in
    (update_where mine (succeed now) jobs, count_where mine jobs == 1)

-- Of no attempts 2 ** -1 is a half, and the backoff is half the base.
unfoldable pub backoff : ℕ → ℕ
backoff zero = 15
backoff (suc n) = min (backoff_base_seconds * 2 ^ n) backoff_cap_seconds

-- The `values` that the attempt's failure writes. `dead` or an exhausted job fails for good.
unfoldable pub fail_values : BackgroundJob → Bool → String → ℕ → BackgroundJob → BackgroundJob
unfolding backoff
fail_values job dead error now j =
    let settled = record j {
      last_error = some (clip 2000 error);
      claimed_by = none;
      lease_expires_at = none;
    } in
    if dead || leb job.max_attempts job.attempts
    then record settled { status = failed; finished_at = some now }
    else record settled { status = queued; run_at = now + seconds (backoff job.attempts) }

unfoldable pub mark_failed : Jobs → BackgroundJob → String → Option String → Bool → ℕ → Jobs × Bool
unfolding fail_values
mark_failed jobs job error claimed_by dead now =
    let mine = owned job.id (claimant_of job claimed_by) in
    (update_where mine (fail_values job dead error now) jobs, count_where mine jobs == 1)
