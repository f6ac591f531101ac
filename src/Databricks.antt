-- ===== src/Databricks.antt =====
-- The Databricks port of the medallion (databricks/src).
pub mod Counts
pub mod Seed
pub mod Pipeline
mod Tests
