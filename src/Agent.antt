-- ===== src/Agent.antt =====
-- crates/odp-agent: the cache, the client of a Service with its capabilities, and where it is willing
-- to connect.
pub mod Cache
pub mod Freshness
pub mod Redirects
pub mod Setup
pub mod Fetching
pub mod Destinations
pub mod Linked
pub mod Supporting
pub mod Traversal
pub mod Capabilities
pub mod Wording
pub mod Acts
pub mod Clients
pub mod Validators
pub mod Operations
