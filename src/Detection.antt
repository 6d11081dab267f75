-- ===== src/Detection.antt =====
-- src/honeywatch/detection: the rules, the classifier, and what is known of a source address.
pub mod Rules
pub mod Classifier
pub mod Attack
pub mod Verdict
pub mod Backfill
pub mod IpContext
mod Tests
