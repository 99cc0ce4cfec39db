-- ===== src/Hub/Auth.antt =====
-- src/hub/auth.rs: API-key authentication.
pub mod Permission
pub mod Cache
pub mod Key
pub mod Service
