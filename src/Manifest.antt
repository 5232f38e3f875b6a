-- ===== src/Manifest.antt =====
-- manifest/manifest.go: the canonical form of an MCP tool manifest.
pub mod Values
pub mod Numbers
pub mod Text16
pub mod Jcs
pub mod Tools
mod Tests
