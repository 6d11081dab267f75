-- ===== src/Collector.antt =====
-- src/honeywatch/collector: the queue between the honeypots and the workers.
pub mod Queue
pub mod Publish
pub mod Consume
pub mod Served
mod Tests
