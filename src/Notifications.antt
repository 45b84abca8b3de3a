-- ===== src/Notifications.antt =====
-- packages/asas-notifications: what is told to whom, on which channels, and the outbox of deliveries.
pub mod Model
pub mod Feed
pub mod Inbox
pub mod Pages
pub mod Outbox
pub mod Dispatch
pub mod Deliveries
pub mod Leases
pub mod Once
pub mod Settings
pub mod Routing
pub mod Ranking
pub mod Routes
pub mod Emit
pub mod Notify
pub mod Folding
pub mod Telling
pub mod Notified
mod Examples
