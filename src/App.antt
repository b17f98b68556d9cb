-- ===== src/App.antt =====
-- The package app: the steps, settings, targets and outcomes of a deploy, and the arguments of commands.
pub mod Args
pub mod Config
pub mod Destroy
pub mod Gate
pub mod Pipeline
pub mod Targeting
pub mod Outcome
pub mod Pairs
pub mod Tests
