-- ===== src/Directory.antt =====
-- crates/odp-directory: the HTTP transport, and the client of the canonical Directory.
pub mod Transport
pub mod Client
pub mod Requests
