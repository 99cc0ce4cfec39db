-- ===== src/Tests.antt =====
-- The theorems applied at concrete inputs.
mod Agent
mod Hub
mod Ingest
mod Logs
mod Rest
mod Tui
mod Key
mod LogScanner
mod Discovery
mod Docker
mod Keys
mod Services
mod Setup
mod Parser
