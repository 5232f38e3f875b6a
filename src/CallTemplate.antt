-- ===== src/CallTemplate.antt =====
-- calltemplate/calltemplate.go: tool call templates.
pub mod Secrets
pub mod Types
pub mod Validate
mod Tests
