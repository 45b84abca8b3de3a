-- ===== src/Jobs/Scheduler.antt =====
-- packages/asas-jobs/src/asas_jobs/scheduler.py. The database is the two tables and the sequence
-- that draws ids; each transaction of the loop is one step on it.
use asas.Base.{
  ℕ, suc, ◌+◌, String, Bool, true, false, ◌&&◌, not, Option, none, some, List, [], ◌∷◌, ◌++◌, leb,
  ◌==◌, str_eq, if◌then◌else◌, same_num, update_where, count_where, first_where, Fields, length,
}
use asas.Jobs.Model.{seconds, BackgroundJob, JobSchedule}
use asas.Jobs.Queue.{Jobs, new_job}
use asas.Jobs.Reclaim.{has_active}

pub record Store : Type 0 where
  pub jobs : Jobs
  pub schedules : List JobSchedule
  pub next_id : ℕ

abbrev pub is_due : ℕ → JobSchedule → Bool
is_due now s = s.enabled && leb s.next_run_at now

-- The snapshot that the loop walks.
unfoldable pub due_schedules : ℕ → List JobSchedule → List JobSchedule
due_schedules now [] = []
due_schedules now (s ∷ ss) =
    let rest = due_schedules now ss in if is_due now s then s ∷ rest else rest

-- The CAS on `next_run_at` against the snapshot.
abbrev pub unmoved : JobSchedule → JobSchedule → Bool
unmoved snap s = s.id == snap.id && s.next_run_at == snap.next_run_at

unfoldable pub advance : JobSchedule → ℕ → JobSchedule → JobSchedule
advance snap now s = record s { next_run_at = now + seconds snap.every_seconds }

abbrev pub has_schedule_id : ℕ → JobSchedule → Bool
has_schedule_id id s = s.id == id

unfoldable pub stamp : ℕ → JobSchedule → JobSchedule
stamp now s = record s { last_enqueued_at = some now }

-- `BackgroundJob(kind=…, payload=…, org_id=…, schedule_id=…, run_at=now)`: five attempts, no key.
unfoldable pub materialize : JobSchedule → ℕ → ℕ → BackgroundJob
unfolding new_job
materialize snap id now =
    new_job
      (record {
        kind = snap.kind;
        payload = snap.payload;
        org_id = snap.org_id;
        run_at = some now;
        schedule_id = some snap.id;
        max_attempts = 5;
        dedupe_key = none;
      })
      id now

-- One turn of the loop: the store after its commit, and whether a job was enqueued.
unfoldable pub tick_one : Store → JobSchedule → ℕ → Store × Bool
unfolding advance stamp materialize
tick_one st snap now =
    let moved = update_where (unmoved snap) (advance snap now) st.schedules in
    if count_where (unmoved snap) st.schedules == 1
    then (if snap.no_overlap && has_active st.jobs snap.id
        then (record st { schedules = moved }, false)
        else (
          record {
            jobs = st.jobs ++ materialize snap st.next_id now ∷ [];
            schedules = update_where (has_schedule_id snap.id) (stamp now) moved;
            next_id = suc st.next_id;
          },
          true,
        ))
    else (st, false)

abbrev pub bump : Bool → ℕ → ℕ
bump true n = suc n
bump false n = n

-- `rival n` is what other sessions commit before the turn with `n` turns after it.
unfoldable pub tick_each :
    (rival : ℕ → Store → Store) → Store → List JobSchedule → ℕ → ℕ → Store × ℕ
unfolding tick_one
tick_each rival st [] now enqueued = (st, enqueued)
tick_each rival st (snap ∷ snaps) now enqueued =
    let (st', fired) = tick_one (rival (length snaps) st) snap now in
    tick_each rival st' snaps now (bump fired enqueued)

unfoldable pub tick_schedules : (rival : ℕ → Store → Store) → Store → ℕ → Store × ℕ
unfolding due_schedules tick_each
tick_schedules rival st now = tick_each rival st (due_schedules now st.schedules) now 0

-- The key of the unique indexes on schedules, and `_existing`.
abbrev pub schedules_kind : String → Option ℕ → JobSchedule → Bool
schedules_kind kind org s = str_eq s.kind kind && same_num s.org_id org

pub data EnsureError : Type 0 where
  bad_cadence seed_conflict : EnsureError

pub data Ensured : Type 0 where
  created found : JobSchedule → Ensured
  refused : EnsureError → Ensured

abbrev same_flag : Bool → Bool → Bool
same_flag true b = b
same_flag false b = not b

unfoldable pub converge : ℕ → Bool → JobSchedule → JobSchedule
converge every no_overlap s = record s { every_seconds = every; no_overlap = no_overlap }

-- The tail of `ensure_schedule`: the cadence of the row that is there converges to the code's.
unfoldable pub converge_row : Store → JobSchedule → ℕ → Bool → Store × Ensured
unfolding converge
converge_row st s every no_overlap =
    if s.every_seconds == every && same_flag s.no_overlap no_overlap then (st, found s) else (
      record st {
        schedules = update_where (has_schedule_id s.id) (converge every no_overlap) st.schedules;
      },
      found (converge every no_overlap s),
    )

unfoldable pub new_schedule : String → Option ℕ → Fields → ℕ → Bool → ℕ → ℕ → JobSchedule
new_schedule kind org payload every no_overlap id now = record {
  id = id;
  org_id = org;
  kind = kind;
  payload = payload;
  every_seconds = every;
  enabled = true;
  no_overlap = no_overlap;
  next_run_at = now;
  last_enqueued_at = none;
  created_at = now;
}

-- After an IntegrityError the row is looked up again; where there is none the error is raised.
unfoldable pub after_conflict : Store → String → Option ℕ → ℕ → Bool → Store × Ensured
unfolding converge_row first_where
after_conflict st kind org every no_overlap =
    elim (first_where (schedules_kind kind org) st.schedules) [
      | none ↦ (st, refused seed_conflict)
      | some winner ↦ converge_row st winner every no_overlap
    ]

-- `rival` is what other instances commit between the look-up and the insert, and `retry` what they
-- commit between the rollback and the second look-up.
unfoldable pub ensure_schedule :
    (rival retry : Store → Store)
    → Store
    → String
    → Option ℕ
    → Fields
    → ℕ
    → Bool
    → ℕ
    → Store × Ensured
unfolding converge_row new_schedule after_conflict first_where
ensure_schedule rival retry st kind org payload every no_overlap now =
    if every == 0
    then (st, refused bad_cadence)
    else elim (first_where (schedules_kind kind org) st.schedules) [
      | some s ↦ converge_row st s every no_overlap
      | none ↦
          let seen = rival st in
          let s = new_schedule kind org payload every no_overlap seen.next_id now in
          elim (first_where (schedules_kind kind org) seen.schedules) [
            | none ↦ (
              record seen { schedules = seen.schedules ++ s ∷ []; next_id = suc seen.next_id },
              created s,
            )
            | some winner ↦ after_conflict (retry seen) kind org every no_overlap
          ]
    ]
