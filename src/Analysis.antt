-- ===== src/Analysis.antt =====
-- src/honeywatch/analysis: where an address lies, and how dangerous it is.
pub mod Risk
pub mod Country
pub mod Geoip
pub mod Tests
