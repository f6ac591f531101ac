-- ===== src/Ops.antt =====
-- The scripts that operate the platform (scripts/) and the Trino client that they share.
pub mod Schema
pub mod Connector
pub mod Maintain
pub mod Acceptance
pub mod Bench
pub mod Buckets
pub mod Bundle
mod BundleTests
pub mod Catalog
pub mod Manifests
pub mod Text
mod Tests
mod SetupTests
pub mod Trino
