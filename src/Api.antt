-- ===== src/Api.antt =====
-- src/honeywatch/api: the queries that the dashboard asks.
pub mod Base
pub mod Period
pub mod Deps
pub mod Routes
pub mod App
mod Tests
