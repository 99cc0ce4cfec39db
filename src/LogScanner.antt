-- ===== src/LogScanner.antt =====
-- src/log_scanner: from a tailed line to a batch in the sink.
pub mod Entry
pub mod Classifier
pub mod Source
pub mod Tailer
pub mod Filter
pub mod Pipeline
pub mod Scanner
pub mod Parser
pub mod Discovery
