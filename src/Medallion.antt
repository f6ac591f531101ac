-- ===== src/Medallion.antt =====
-- The medallion jobs (config/spark/jobs): bronze masks and appends, silver applies the change feed,
-- gold aggregates.
pub mod Rules
pub mod Validate
pub mod Silver
pub mod Gold
pub mod Bronze
pub mod Settings
mod Tests
