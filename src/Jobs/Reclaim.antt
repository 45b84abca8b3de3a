-- ===== src/Jobs/Reclaim.antt =====
-- `reclaim_expired` and `has_active` of packages/asas-jobs/src/asas_jobs/queue.py.
use asas.Base.{
  ℕ, ◌+◌, Bool, false, ◌&&◌, Option, none, some, ltb, leb, if◌then◌else◌, same_num, is_some,
  update_where, count_where, first_where,
}
use asas.Jobs.Model.{queued, failed, is_running, is_active, BackgroundJob}
use asas.Jobs.Queue.{Jobs}

abbrev lapsed : Option ℕ → ℕ → Bool
lapsed none now = false
lapsed (some t) now = ltb t now

-- A running row whose lease is past.
abbrev pub expired : ℕ → BackgroundJob → Bool
expired now j = is_running j.status && lapsed j.lease_expires_at now

abbrev pub exhausted : ℕ → BackgroundJob → Bool
exhausted now j = expired now j && leb j.max_attempts j.attempts

unfoldable pub bury : ℕ → BackgroundJob → BackgroundJob
bury now j = record j {
  status = failed;
  finished_at = some now;
  claimed_by = none;
  lease_expires_at = none;
  last_error = some "lease expired on final attempt (worker died mid-run)";
}

unfoldable pub requeue : ℕ → BackgroundJob → BackgroundJob
requeue now j = record j {
  status = queued;
  run_at = now;
  claimed_by = none;
  lease_expires_at = none;
  last_error = some "lease expired (worker died mid-run); re-queued";
}

-- The probe, then two UPDATEs: the second reads what the first has written.
unfoldable pub reclaim_expired : Jobs → ℕ → Jobs × ℕ
unfolding bury requeue
reclaim_expired jobs now =
    if is_some (first_where (expired now) jobs)
    then (let buried = update_where (exhausted now) (bury now) jobs in
        (
          update_where (expired now) (requeue now) buried,
          count_where (exhausted now) jobs + count_where (expired now) buried,
        ))
    else (jobs, 0)

abbrev pub active_of : ℕ → BackgroundJob → Bool
active_of schedule j = same_num j.schedule_id (some schedule) && is_active j.status

unfoldable pub has_active : Jobs → ℕ → Bool
unfolding first_where
has_active jobs schedule = is_some (first_where (active_of schedule) jobs)
