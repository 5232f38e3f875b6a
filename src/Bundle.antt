-- ===== src/Bundle.antt =====
-- The package `bundle`: the policy bundle's types and the decisions that it yields.
mod Tests
pub mod Types
pub mod Outcomes
pub mod Sources
pub mod Kinds
pub mod Session
pub mod Evaluate
pub mod Checks
pub mod Plan
pub mod Harness
pub mod SessionWalk
pub mod Validate
pub mod Connectors
