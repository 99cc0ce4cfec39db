-- ===== src/Hub/Rest.antt =====
-- src/hub/rest: the requests of apps and of the dashboard, from the key to the answer. The web
-- server, the limiters and the repositories are parameters.
pub mod Auth
pub mod Events
pub mod Rows
pub mod Read
pub mod Summary
pub mod Sorting
pub mod Allowed
pub mod Posting
pub mod Guard
pub mod Queries
