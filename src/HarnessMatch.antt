-- ===== src/HarnessMatch.antt =====
-- The package `harnessmatch`: the dialect kei.harness-match/v1.
mod Tests
pub mod Kinds
pub mod Glob
pub mod Paths
pub mod Match
pub mod Evaluate
