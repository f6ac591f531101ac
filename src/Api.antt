-- ===== src/Api.antt =====
-- The serving API over the gold table (api/src).
pub mod Connection
pub mod Cache
pub mod Queries
pub mod Pages
pub mod Wire
pub mod App
pub mod Endpoints
mod Tests
