-- ===== src/Service.antt =====
-- crates/odp-service: the side that answers, from the builder of a Service to its handler, and the
-- in-memory catalog.
pub mod Routing
pub mod Requests
pub mod Hierarchy
pub mod Cursors
pub mod StaticCatalog
pub mod Queries
pub mod Negotiation
pub mod Problems
pub mod Answers
pub mod Catalogs
pub mod Handler
pub mod Builder
pub mod Toy
