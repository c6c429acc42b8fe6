-- ===== src/Core.antt =====
-- crates/odp-core: models, references, identities, addresses and validation.
pub mod Addresses
pub mod Models
pub mod References
pub mod Identity
pub mod Json
pub mod Validation
pub mod Documents
