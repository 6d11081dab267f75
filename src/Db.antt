-- ===== src/Db.antt =====
-- src/honeywatch/db: the table of events and its queries. A row leaves out `created_at`, which nothing
-- reads.
pub mod Models
pub mod Session
pub mod Query
pub mod Repository
pub mod Tests
