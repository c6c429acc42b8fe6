-- ===== src/Agent/Operations.antt =====
-- crates/odp-agent/src/client.rs: the operations of the client, each a step of its cache and of the
-- world. The time is read from the world.
pub mod Asked
pub mod Bounded
pub mod Calls
pub mod Costs
pub mod Home
pub mod Keeps
pub mod Reached
pub mod Refused
pub mod Sessions
mod Site
mod Tests
pub mod Urls
use odp_rust.Prelude.{
  ℕ, Bool, true, false, not, ◌||◌, ◌==◌, nat_eq, Option, none, some, List, [], ◌∷◌, ◌++◌, any,
  Result, ok, err, map_err, if◌then◌else◌,
}
use odp_rust.Prelude.Text.{Text, text}
use odp_rust.Prelude.Numbers.{decimal}
use odp_rust.Core.Models.{
  Operation, operation_eq, Representation, terse, full, get_collection, get_offering,
  list_collection_offerings, list_collections, list_offerings, search_collections, search_offerings,
}
use odp_rust.Core.References.{
  build_operation_url, resolve_continuation, reference_message, derive_service_origin,
}
use odp_rust.Core.Documents.Services.{ServiceDocument}
use odp_rust.Core.Documents.Resources.{Collection, Offering}
use odp_rust.Core.Documents.Searches.{
  Page, OfferingPage, CollectionSearchRequest, OfferingSearchRequest,
}
use odp_rust.Directory.Transport.{Transport}
use odp_rust.Agent.Redirects.{AgentError, invalid_request, unsupported_operation}
use odp_rust.Agent.Setup.{
  Freshness, Response, Libs, ServiceClient, CacheOps, CacheFallbacks, default_fallbacks, sha256_hex,
}
use odp_rust.Agent.Fetching.{request_cached}
use odp_rust.Agent.Traversal.{TraversalOptions, Sheet, collect}
use odp_rust.Agent.Acts.{Act, ◌>>=◌, ◌>>◌, pure}
use odp_rust.Agent.Validators.{
  DocumentLib, parsed, read_document, read_collection, read_offering, read_offering_page,
  parse_agent_collection_page, validate_collections, validate_service_document_bytes,
  validate_collection_page_bytes, validate_offering_page_bytes, response_validator,
}

abbrev pub max_document_bytes : ℕ
max_document_bytes = 65_536

abbrev pub max_resource_bytes : ℕ
max_resource_bytes = 524_288

pub record Inspection : Type 0 where
  pub document : ServiceDocument
  pub final_url : Text
  pub freshness : Freshness
  pub requested_url : Text
  pub service_origin : Text

-- The crates, `query_pairs_mut().append_pair` of the `url` crate among them.
pub record ClientLib (W : Type 0) : Type 1 where
  pub libs : Libs
  pub documents : DocumentLib
  pub append_pair : libs.url_lib.Url → Text → Text → libs.url_lib.Url
  pub now : W → ℕ

abbrev pub representation_text : Representation → Text
representation_text terse = text "terse"
representation_text full = text "full"

abbrev pub is_of_collections : Operation → Bool
is_of_collections operation =
    operation == get_collection
    || (operation == list_collections || operation == search_collections)

-- The pages, as the traversal reads them.
abbrev pub collection_sheet : Page Collection → Sheet Collection
collection_sheet page = record { items = page.items; next = page.next }

abbrev pub offering_sheet : OfferingPage Offering → Sheet Offering
offering_sheet page = record { items = page.items; next = page.next }

module _ {W C : Type 0} (lib : ClientLib W) (client : ServiceClient W C) where
  open lib use {libs, documents, append_pair, now}

  abbrev pub Url : Type 0
  Url = lib.libs.url_lib.Url

  -- `request_cached`, which reads the time.
  unfoldable pub request :
      Text → Url → Text → ℕ → ℕ → (Text → Result AgentError (Unit {0})) → Act C W Response
  request method target body maximum_bytes fallback validate c w =
      request_cached libs client method target body maximum_bytes fallback validate (now w) c w

  abbrev pub inspection_of : Response → ServiceDocument → Inspection
  inspection_of response document' = record {
    document = document';
    final_url = response.final_url;
    freshness = response.freshness;
    requested_url = client.service_origin ++ text "/.well-known/odp";
    service_origin = client.service_origin;
  }

  unfoldable pub inspect : Act C W Inspection
  inspect = do
    let requested = client.service_origin ++ text "/.well-known/odp"
    target ← pure (map_err invalid_request (lib.libs.url_lib.parse requested))
    response ←
        request (text "GET") target [] max_document_bytes client.cache_fallbacks.service_document
          (validate_service_document_bytes documents)
    document' ← pure (read_document documents response.body)
    pure (ok (inspection_of response document'))

  abbrev pub require_advertised : Operation → Inspection → Result AgentError Inspection
  require_advertised operation inspection =
      if any (λ descriptor. descriptor.name == operation) inspection.document.operations
      then ok inspection
      else err (unsupported_operation operation)

  unfoldable pub require_operation : Operation → Act C W Inspection
  require_operation operation = do
    inspection ← inspect
    pure (require_advertised operation inspection)

  -- The URL of an operation with the representation that is asked for.
  abbrev pub operation_url :
      Inspection → Operation → Option Text → Representation → Result AgentError Url
  operation_url inspection operation id representation =
      elim (build_operation_url libs.url_lib inspection.document.http.endpoint_base operation
        client.service_origin id) [
          | err e ↦ err (invalid_request (reference_message e))
          | ok target ↦
              ok (append_pair target (text "representation") (representation_text representation))
        ]

  abbrev pub with_limit : ℕ → Url → Url
  with_limit limit target =
      if not (limit == 0) then append_pair target (text "limit") (decimal limit) else target

  abbrev pub fallback_for : Operation → ℕ
  fallback_for operation =
      if is_of_collections operation
      then client.cache_fallbacks.collection
      else client.cache_fallbacks.offering

  unfoldable pub get_page_bytes : Operation → Option Text → Representation → ℕ → Act C W Text
  get_page_bytes operation id representation limit = do
    inspection ← require_operation operation
    target ← pure (operation_url inspection operation id representation)
    response ←
        request (text "GET") (with_limit limit target) [] max_resource_bytes
          (fallback_for operation) (response_validator documents operation)
    pure (ok response.body)

  abbrev pub get_resource : Operation → Text → Representation → Act C W Text
  get_resource operation id representation = get_page_bytes operation (some id) representation 0

  unfoldable pub post_search : Operation → Text → Representation → Act C W Text
  post_search operation body representation = do
    inspection ← require_operation operation
    target ← pure (operation_url inspection operation none representation)
    response ←
        request (text "POST") target body max_resource_bytes client.cache_fallbacks.search
          (response_validator documents operation)
    pure (ok response.body)

  unfoldable pub linked_odp : Url → ℕ → (Text → Result AgentError (Unit {0})) → Act C W Text
  linked_odp target fallback validate = do
    response ← request (text "GET") target [] max_resource_bytes fallback validate
    pure (ok response.body)
