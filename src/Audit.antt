-- ===== src/Audit.antt =====
-- packages/asas-audit: the hash chain, its writer and its verifier.
pub mod Chain
pub mod Log
pub mod Verify
pub mod Appends
pub mod Tamper
mod Examples
