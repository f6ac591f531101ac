-- ===== src/Elt.antt =====
-- The Snowflake ELT (snowflake_etl/src and airflow/dags/snowflake_fx_etl.py).
pub mod Load
pub mod Runs
pub mod Stage
pub mod Extract
pub mod Rates
pub mod Tasks
mod Tests
mod TaskTests
