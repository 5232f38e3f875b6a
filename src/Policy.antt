-- ===== src/Policy.antt =====
-- The package `policy`: patterns, the decision over rules and grants, and rendering for a harness.
mod Tests
pub mod Parse
pub mod Typed
pub mod Principals
pub mod Targets
pub mod Decide
pub mod Grants
pub mod Render
