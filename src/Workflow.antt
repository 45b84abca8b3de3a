-- ===== src/Workflow.antt =====
-- packages/asas-workflow: processes that walk a graph of nodes and park at approvals.
pub mod Order
pub mod Conditions
pub mod Model
pub mod Graph
pub mod Rows
pub mod Nodes
pub mod Walks
pub mod Actions
pub mod Operations
pub mod Results
pub mod Settled
pub mod Stages
pub mod Activation
pub mod Progress
pub mod Lawful
pub mod Deciding
pub mod Tables
pub mod Asking
pub mod Answering
pub mod Acting
pub mod Runs
pub mod Ends
pub mod Termination
pub mod Outcomes
pub mod Quorum
pub mod Approvers
pub mod Specs
pub mod Closure
pub mod Frontier
pub mod Reaching
pub mod Definitions
pub mod Checks
pub mod Validation
pub mod Validated
pub mod Bindings
pub mod Publishing
pub mod Ways
pub mod Leading
pub mod Archiving
pub mod Ensuring
pub mod Seeding
mod BindingTests
mod PublishTests
mod Examples
