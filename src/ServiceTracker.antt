-- ===== src/ServiceTracker.antt =====
-- src/service_tracker: the units of systemd.
pub mod Discoverer
pub mod Monitor
