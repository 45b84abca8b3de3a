-- ===== src/RateLimit.antt =====
-- packages/asas-ratelimit/src/asas_ratelimit/__init__.py: in-process token buckets. Time is counted
-- in microseconds, and the source's floating-point token counts are exact: a bucket of a rule with
-- window W holds its tokens in units of 1/W token, so that a microsecond refills `limit` units.
pub mod Allow
pub mod Levels
pub mod Accounts
pub mod Bounds
pub mod Retrying
mod Examples
