-- ===== src/Hub/Ingest.antt =====
-- src/hub/grpc.rs: the ingestion service of the hub.
pub mod Wire
pub mod Check
pub mod Handlers
pub mod Logs
pub mod Batch
pub mod Hosted
pub mod Lookups
pub mod Clearance
pub mod Trust
pub mod Refusal
