-- ===== src/Lookups.antt =====
-- packages/asas-lookups: typed lists of values with labels, platform-owned or copied to organisations.
pub mod Model
pub mod Types
pub mod OrgSeeding
pub mod Values
pub mod TypeSeeding
pub mod Keeping
pub mod Reseeding
pub mod Copies
pub mod Owning
pub mod Kept
mod Examples
