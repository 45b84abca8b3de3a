-- ===== src/Jobs/Enqueuing.antt =====
-- The fast path of `enqueue` and its answer in packages/asas-jobs/src/asas_jobs/queue.py.
use asas.Base.{◌≤◌, ◌≡◌, String, Bool, true, count_where}
use asas.Jobs.Model.{BackgroundJob}
use asas.Jobs.Queue.{Jobs, Request, holds_key, added, existing, raised, Outcome}

abbrev pub holder : Request → String → BackgroundJob → Bool
holder r key = holds_key r.kind key r.org_id

-- The job that is returned holds the key, and the table that is left has a row that does.
abbrev pub Answers : Request → String → Jobs × Outcome → Type 0
Answers r key (t, added j) = (holder r key j ≡ true) × (1 ≤ count_where (holder r key) t)
Answers r key (t, existing j) = (holder r key j ≡ true) × (1 ≤ count_where (holder r key) t)
Answers r key (t, raised e) = ⊥
