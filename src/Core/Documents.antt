-- ===== src/Core/Documents.antt =====
-- crates/odp-core/src/models.rs: the documents. `additional` keeps the members that the protocol
-- does not name. A `u16`, `u32`, `u64` or `usize` member is a number.
pub mod Enums
pub mod Services
pub mod Resources
pub mod Searches
