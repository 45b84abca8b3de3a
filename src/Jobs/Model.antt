-- ===== src/Jobs/Model.antt =====
-- The job and schedule rows of packages/asas-jobs/src/asas_jobs/models.py. A moment is a number of
-- microseconds.
use asas.Base.{ℕ, ◌*◌, String, Bool, true, false, Option, Fields}

-- `timedelta(seconds=n)`
abbrev pub seconds : ℕ → ℕ
seconds n = n * 1_000_000

pub data JobStatus : Type 0 where
  queued running succeeded failed canceled : JobStatus

abbrev pub is_queued : JobStatus → Bool
is_queued queued = true
is_queued _ = false

abbrev pub is_running : JobStatus → Bool
is_running running = true
is_running _ = false

-- `status IN _ACTIVE`
abbrev pub is_active : JobStatus → Bool
is_active queued = true
is_active running = true
is_active _ = false

pub record BackgroundJob : Type 0 where
  pub id : ℕ
  pub org_id : Option ℕ
  pub kind : String
  pub payload : Fields
  pub status : JobStatus
  pub run_at : ℕ
  pub attempts : ℕ
  pub max_attempts : ℕ
  pub claimed_by : Option String
  pub lease_expires_at : Option ℕ
  pub last_error : Option String
  pub schedule_id : Option ℕ
  pub dedupe_key : Option String
  pub created_at : ℕ
  pub started_at : Option ℕ
  pub finished_at : Option ℕ

pub record JobSchedule : Type 0 where
  pub id : ℕ
  pub org_id : Option ℕ
  pub kind : String
  pub payload : Fields
  pub every_seconds : ℕ
  pub enabled : Bool
  pub no_overlap : Bool
  pub next_run_at : ℕ
  pub last_enqueued_at : Option ℕ
  pub created_at : ℕ
