-- ===== src/Lib.antt =====
-- Offering Discovery Protocol for Rust: the workspace's crates odp-core, odp-service, odp-agent and
-- odp-directory, as functions over explicit state.
--
-- An Agent asks a Service for its documents over HTTP, through its cache, and follows their pages; a
-- Directory finds Services. odp-core holds what the crates share, odp-directory the transport that
-- odp-agent uses too, and odp-service the side that answers.
--
-- crates/odp-core
--   Core/Addresses: crates/odp-core/src/addresses.rs (`is_public`, `unmap`, `contains`,
--     `matches_bits`), the bits of an octet sequence in Core/Addresses/Bits.
--   Core/Models, Core/Documents: crates/odp-core/src/models.rs, the enumerations that the code
--     branches on, and every document as a record. The serde derives are generated code and not
--     modelled.
--   Core/References, Core/Identity: crates/odp-core/src/references.rs and
--     crates/odp-core/src/identity.rs.
--   Core/Json: `serde_json::Value` as the source reads and edits it; a number is its spelling,
--     and an object an association list, of which the order is not read.
--   Core/Validation: crates/odp-core/src/validation.rs. Depth is `validate_json_depth`, whose
--     stack is run with as much fuel as the document has values, each of which is popped once.
--     Filters and Normalize are `normalize_agent_document` and what it calls; an edit in place is
--     a function on values. Rules are the `..._issues` functions, Parsing the parse functions.
--     Versions, Known and Offerings say without the code's tests which version a document is
--     read as, which Actions are known and how each member of an Offering is read.
--     The JSON reader and writer, the schemas with the errors that they find, the parser of
--     language tags, the key of a refinement bucket and the decoding of a document from a `Value`
--     are parameters.
-- crates/odp-service
--   Service/Routing: `path_operation` and `allowed_methods` of crates/odp-service/src/service.rs,
--     of which every module up to Service/Builder is a part.
--   Service/Requests, Service/Catalogs: the messages, `ServiceError` and the trait `Catalog`,
--     whose calls take and return the state of the catalog.
--   Service/Queries: `catalog_request` and the searches that a request holds.
--   Service/Negotiation: `select_language`, `accepts_odp` and what they call. The loop over a
--     range and what it is cut to runs on one more than the length of the range, which each cut
--     shortens; `f32` is a parameter.
--   Service/Answers: `json_response`, `represent`, `entity_tag`, `matches_etag` and the checks on
--     what a catalog gives. A document is turned to JSON and back, and hashed, by parameters.
--   Service/Problems: `problem_with_retry`, `bounded` and `method_not_allowed`.
--   Service/Handler: `handle`, `handle_result` and `get_path`, with the arms of the match on the
--     method and the path as functions. A Service is its catalog, its document and its base.
--   Service/Builder: `ServiceBuilder` and `Service::new`. Any calls of the builder's methods are
--     a list of `BuilderCall` in Authentications.
--   Service/Hierarchy, Service/Cursors, Service/StaticCatalog:
--     crates/odp-service/src/static_catalog.rs. The depth of a Collection is found on fuel 33,
--     since the set of the Collections being visited has at most 33 names. A time is the number
--     of nanoseconds since 2^63 seconds before the epoch; JSON, base64, the MAC and the queries
--     of the url crate are the parameter `CursorLib`, and the laws that a continuation relies on
--     are the record `Laws` of Service/Cursors/RoundTrip. A slice out of range, which panics, is
--     `none`.
-- crates/odp-agent
--   Agent/Cache: crates/odp-agent/src/cache.rs. A lock that was poisoned is a flag of the cache,
--     a `SystemTime` a count of nanoseconds, and `sort` of the standard library an insertion
--     sort.
--   Agent/Freshness: how long crates/odp-agent/src/client.rs reuses a response. The httpdate
--     crate and the last time that a `SystemTime` holds are parameters.
--   Agent/Redirects: `request_raw`, `consume` and what they call in
--     crates/odp-agent/src/client.rs. The loop runs on the number of redirects that are left,
--     `MAX_REDIRECTS` at first.
--   Agent/Setup, Agent/Fetching: `ServiceClient` and `request_cached` of
--     crates/odp-agent/src/client.rs, over any cache (`CacheOps`), of which Agent/Fetching/Reuse
--     names the two laws that a client relies on and shows that the memory cache has them. The
--     time that is read, SHA-256 and the wording of a failure, for which the source has
--     `failure_message`, are parameters.
--   Agent/Clients, Agent/Operations: how a client is made, and every operation of
--     crates/odp-agent/src/client.rs, each a step of the cache and of the world that may fail
--     (Agent/Acts). The crates are the record `ClientLib`, the time is read from the world, and
--     the name of an operation of the module ends in `_of` where another module has the name.
--     What the documentation of the url crate says is the record `UrlLaws` of
--     Agent/Operations/Urls; `ClientLaws` of Agent/Operations/Asked adds that the origin of the
--     client was derived, and that the schema of a Service document (crates/odp-core/schemas)
--     keeps the endpoint base plain.
--   Agent/Validators: what those operations accept, `response_validator` and what it calls.
--     Reading and writing JSON are the record `DocumentLib`.
--   Agent/Wording: `failure_message` and `printable` of crates/odp-agent/src/client.rs, on the
--     characters of Prelude/Chars.
--   Agent/Linked, Agent/Supporting: `supporting_resource` of crates/odp-agent/src/client.rs and
--     what it calls. The arguments of a call are the record `Wanted`, and an `Origin` of the url
--     crate is its text.
--   Agent/Traversal: `collect_collections`, `collect_offerings` and `traversal_bounds` of
--     crates/odp-agent/src/client.rs, one loop on the number of pages that are left, over any
--     continuation.
--   Agent/Destinations: crates/odp-agent/src/destinations.rs, with name resolution as a step of
--     the world.
--   Agent/Capabilities: crates/odp-agent/src/capabilities.rs. The loop over the pages of a source
--     runs on the pages that are left, 16 at first; the two maps on the sorts, which change
--     together, are one; the other operations of the client that it calls are the record
--     `Client`.
-- crates/odp-directory
--   Directory/Transport: crates/odp-directory/src/transport.rs, the messages, the limits and the
--     trait; the HTTP library is a parameter, from whose response `exchange` goes on, to the
--     header fields that can be read and the body. Two addresses of a peer are compared by their
--     octets and port, not by the flow label and the scope of an IPv6 address.
--   Directory/Client: `bounded`, `continuation_url`, `traverse`, `search_pages` and
--     `collect_services` of crates/odp-directory/src/client.rs. The loop runs on the number of
--     pages that may still follow, at most 15, and how a page is fetched is an argument.
--   Directory/Requests: `request` and `consume_response` of crates/odp-directory/src/client.rs;
--     the loop runs on the number of redirects that are left, and the wording of a failure is a
--     parameter.
--
-- A `str` is the list of its UTF-8 bytes (Prelude/Text), so that lengths and comparisons are those of
-- the source. `trim` cuts ASCII white space only. Fallible code returns `Result`, and `?` is the bind
-- of a `do` block. Code that sends takes and returns a state `W`, the world that holds the network, and
-- code that caches the state of the cache too. The `url` crate is the parameter `UrlLib`
-- (Core/References/Url): its parser and its accessors are arguments of every function that calls them,
-- and no law of them is assumed but where a theorem has `UrlLaws` among its hypotheses.
--
-- Not modelled: the reading of the results and the wording of a failure in odp-directory, the details
-- and the schemas of odp-agent, the examples, and the conformance adapter.
mod Prelude
pub mod Core
pub mod Service
pub mod Directory
pub mod Agent
