-- ===== src/Access.antt =====
-- packages/asas-access: who holds which principals, which actions they may take, and the mandatory
-- layer of clearances and markings.
pub mod Principals
pub mod Actions
pub mod Grants
pub mod Mac
pub mod Clearance
mod Examples
