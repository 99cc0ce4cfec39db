-- ===== src/Agent.antt =====
-- src/agent: the bounded buffer of Docker lines, and the loop that fills and flushes it.
pub mod Batcher
pub mod Forward
pub mod Logs
pub mod Docker
pub mod Connect
