-- ===== src/SqlPlan.antt =====
-- The package sqlplan: the migration preview behind the deploy gate.
pub mod Types
pub mod Split
pub mod Normalize
pub mod Words
pub mod Classify
pub mod Plan
pub mod Render
pub mod Churn
pub mod Tests
