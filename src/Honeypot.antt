-- ===== src/Honeypot.antt =====
-- src/honeywatch/honeypot: the two honeypots and what they share.
pub mod Base
pub mod Delivery
pub mod Session
pub mod Stream
pub mod Race
pub mod Restart
pub mod Manager
pub mod Lifecycle
pub mod Request
pub mod Http
pub mod Ssh
mod Tests
