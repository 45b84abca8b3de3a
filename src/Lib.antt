-- ===== src/Lib.antt =====
-- Verification library of Asas, the family of backend packages under packages/. Each modelled
-- package is a tree of modules here. The models are functions on the rows of the packages'
-- tables, translated from the Python; a call that raises answers a refusal and leaves the
-- tables as they were, since its transaction is rolled back, but for the loops of the seedings,
-- which keep what they committed before.
--
-- The parts and how they interact:
--
-- * Jobs (packages/asas-jobs/src/asas_jobs): a table of jobs with leases, and schedules that
--   put jobs into it. queue.py is Queue (enqueue, claim_next, mark_succeeded, mark_failed) and
--   Reclaim (reclaim_expired, has_active); scheduler.py is Scheduler (tick_schedules,
--   ensure_schedule); runner.py is Runner (_execute, run_once). Steps has the statements that
--   concurrent sessions commit, in any interleaving, and their runs.
-- * RateLimit (packages/asas-ratelimit/src/asas_ratelimit/__init__.py): declared rules and one
--   token bucket for each rule and key. Allow is the whole module but the parsing of overrides.
-- * Audit (packages/asas-audit/src/asas_audit): one append-only hash chain for each
--   organisation. chain.py is Chain, service.py and the table of models.py are Log (append,
--   verify).
-- * Workflow (packages/asas-workflow/src/asas_workflow): processes that walk a versioned graph.
--   conditions.py is Order and Conditions, models.py is Model, engine.py is Graph, Rows, Nodes,
--   Walks (_run_from and what it calls), Actions (decide) and Operations (open_instance,
--   request_info, answer_info, cancel, retry, reassign), the specs, checks and closure of
--   definitions.py are Specs, Checks, Validation and Closure, its versions and their seeding
--   Publishing, and its bindings Definitions. Runs has the histories of an instance.
-- * Access (packages/asas-access/src/asas_access): principals.py is Principals, actions.py is
--   Actions, mac.py is Mac.
-- * Notifications (packages/asas-notifications/src/asas_notifications): what is told to whom,
--   on which channels. models.py is Model; service.py is Settings (the cached configuration),
--   Routing (resolve_channels), Emit and Notify (notify), Feed (feed, read and archive state),
--   Outbox and Dispatch (dispatch_pending). Deliveries has what passes that overlap and crash
--   commit.
-- * Lookups (packages/asas-lookups/src/asas_lookups): typed lists of values. models.py is
--   Model; seeding.py is Types (ensure_type), OrgSeeding (seed_org_lookups), Values
--   (ensure_value, _backfill_meta) and TypeSeeding (_link_pass, _seed_type).
-- * Base (shared by all): Boolean tests, lists, tables as lists of rows with conditional
--   updates, dicts as association lists, integers and JSON values.
--
-- The state of each part is a record or a list of rows: Jobs.Queue.Jobs is the job table,
-- RateLimit.Allow.Limiter the module's globals, a list of AuditEvent the audit table in the
-- order of seq, Workflow.Model.Walk the rows of one instance. Reads of caches are reads of the
-- tables they hold, but in Notifications, which models them. Sets are lists. Moments are
-- numbers of microseconds; the floats of the token bucket are exact amounts in units of one
-- window-th of a token, so that rounding is not modelled.
--
-- What the packages take from outside is a parameter: the commits of other sessions between two
-- statements of a claim or an insert (Jobs), SHA-256, JSON and isoformat (Audit.Chain.Codec),
-- the host's resolvers, handlers and callbacks (Workflow.Rows.Host, Access.Principals.Sources),
-- handlers of jobs (Jobs.Runner), the identities, filter and adapters of notifications
-- (Notifications.Model.Host, Notifications.Dispatch), and the clock, which every call is given.
--
-- Bounds and fuel: claim_next makes five rounds and a worker's pass executes at most fifty
-- jobs, as the source has it. The loop of _run_from has no bound in the source, so run_from
-- takes fuel and answers endless without it; Workflow.Termination says how much is enough. The
-- fuel of _closure is more than its seeds and edges together, which Workflow.Reaching shows to
-- be enough. All other loops are structural.
--
-- Not modelled: events and their subscribers, log lines, HTTP routes, migrations, registration
-- functions, parse_overrides of the rate limiter, history of the audit log, field policies and
-- groups, placement, async twin and routes of notifications, the reads and the file loader of
-- lookups, and the packages tenancy, validation, search, storage, llm, agent, oracle, graph,
-- mcp and cli.
mod Base
pub mod Jobs
pub mod RateLimit
pub mod Audit
pub mod Workflow
pub mod Access
pub mod Notifications
pub mod Lookups
