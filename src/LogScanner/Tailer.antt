-- ===== src/LogScanner/Tailer.antt =====
-- src/log_scanner/tailer: following files.
pub mod State
