-- ===== src/Access.antt =====
-- access/access.go: how each provider can be reached.
pub mod Types
pub mod Tables
pub mod Checks
pub mod Validate
pub mod Provided
mod Tests
