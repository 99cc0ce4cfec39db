-- ===== src/Hub.antt =====
-- src/hub: the central server.
pub mod Auth
pub mod Validate
pub mod Ingest
pub mod Range
pub mod Rest
pub mod Keys
pub mod Bind
pub mod Retention
