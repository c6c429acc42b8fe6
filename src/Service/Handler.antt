-- ===== src/Service/Handler.antt =====
-- crates/odp-service/src/service.rs: a request from its arrival to its response.
pub mod Heads
pub mod Conditional
pub mod Replayed
pub mod Answered
mod Tests
use odp_rust.Prelude.{
  ℕ, Bool, true, false, not, ◌&&◌, ◌||◌, Option, none, some, List, [], ◌∷◌, any, Result, ok, err,
  ◌>>=◌, ◌>>◌, refuse_if, ◌==◌, nat_eq, if◌then◌else◌, length,
}
use odp_rust.Prelude.Text.{
  Text, text, text_eq, is_empty, strip_prefix, strip_suffix, eq_ignore_ascii_case,
}
use odp_rust.Prelude.Maps.{Map, lookup, insert, remove}
use odp_rust.Prelude.Numbers.{decimal}
use odp_rust.Core.Models.{
  Operation, get_offering, get_collection, operation_eq, Representation, full,
}
use odp_rust.Core.References.{is_local_resource_identifier, is_some_and}
use odp_rust.Core.Documents.Services.{ServiceDocument, OperationDescriptor}
use odp_rust.Core.Documents.Resources.{Collection, Offering}
use odp_rust.Core.Documents.Searches.{Page, OfferingPage}
use odp_rust.Core.Validation.Filters.{is_none_or}
use odp_rust.Core.Validation.Parsing.{parse_offering, parse_collection}
use odp_rust.Service.Routing.{path_operation, allowed_methods, is_reserved}
use odp_rust.Service.Requests.{
  Request, Response, CatalogRequest, ServiceError, invalid_response, request_error,
}
use odp_rust.Service.Queries.{
  catalog_request, decode_offering_search, decode_collection_search, maximum_request_bytes,
  invalid_request,
}
use odp_rust.Service.Negotiation.{select_language, accepts_odp}
use odp_rust.Service.Problems.{problem, method_not_allowed, response_of}
use odp_rust.Service.Catalogs.{Catalog, Call, and_then}
use odp_rust.Service.Answers.{
  ServiceLib, represent, validate_offering_page, validate_collection_page,
  validate_offering_representation, validate_collection_representation, maximum_resource_bytes,
  or_invalid, or_refused, matches_etag,
}

pub record Service (W : Type 0) : Type 0 where
  pub catalog : Catalog W
  pub document : ServiceDocument
  pub endpoint_base : Text

abbrev pub is_supported : {W : Type 0} → Service W → Operation → Bool
is_supported service operation =
    any (λ descriptor. descriptor.name == operation) service.document.operations

abbrev pub defaults_to_full : Option Operation → Bool
defaults_to_full operation =
    is_some_and operation (λ op. op == get_offering || op == get_collection)

module _ (lib : ServiceLib) {W : Type 0} (service : Service W) where
  abbrev refusal : ℕ → Text → Text → Result ServiceError Response
  refusal status code detail = ok (problem lib.problem_to_vec status code detail)

  abbrev pub offering_page_answer :
      Bool
      → CatalogRequest
      → ℕ
      → Request
      → Text
      → OfferingPage Offering
      → Result ServiceError Response
  offering_page_answer search_response input limit request language page = do
    validate_offering_page lib page search_response input.representation limit request
    represent lib 200 (lib.offering_pages.to_value page) maximum_resource_bytes language

  abbrev pub collection_page_answer :
      CatalogRequest → ℕ → Request → Text → Page Collection → Result ServiceError Response
  collection_page_answer input limit request language page = do
    validate_collection_page lib page input.representation limit request
    represent lib 200 (lib.collection_pages.to_value page) maximum_resource_bytes language

  unfoldable pub offering_answer :
      Text → CatalogRequest → Text → Option Offering → Result ServiceError Response
  offering_answer id input language none =
      refusal 404 (text "NOT_FOUND") (text "Offering not found")
  offering_answer id input language (some value) = do
    refuse_if (not (value.id == id))
        (invalid_response (text "Offering identifier does not match request path"))
    encoded ← or_invalid (lib.offerings.to_vec value)
    parsed ← or_refused (parse_offering lib.json lib.offerings.decode encoded)
    validate_offering_representation value input.representation
    represent lib 200 (lib.offerings.to_value value) maximum_resource_bytes language

  unfoldable pub collection_answer :
      Text → CatalogRequest → Text → Option Collection → Result ServiceError Response
  collection_answer id input language none =
      refusal 404 (text "NOT_FOUND") (text "Collection not found")
  collection_answer id input language (some value) = do
    refuse_if (not (value.id == id))
        (invalid_response (text "Collection identifier does not match request path"))
    encoded ← or_invalid (lib.collections.to_vec value)
    parsed ← or_refused (parse_collection lib.json lib.collections.decode encoded)
    validate_collection_representation value input.representation
    represent lib 200 (lib.collections.to_value value) maximum_resource_bytes language

  unfoldable pub get_under_collections : Text → CatalogRequest → Request → Text → Call W Response
  get_under_collections value input request language w =
      elim (strip_suffix (text "/offerings") value) [
        | some id ↦
            if not (is_local_resource_identifier id)
            then (refusal 400 (text "INVALID_REQUEST") (text "Collection identifier is invalid"), w)
            else and_then (service.catalog.list_collection_offerings id input w)
                (offering_page_answer false input input.limit request language)
        | none ↦
            if not (is_local_resource_identifier value)
            then (refusal 400 (text "INVALID_REQUEST") (text "Collection identifier is invalid"), w)
            else and_then (service.catalog.get_collection value input w)
                (collection_answer value input language)
      ]

  unfoldable pub get_path : Text → CatalogRequest → Request → Text → Call W Response
  get_path path input request language w = elim (strip_prefix (text "/offerings/") path) [
    | some id ↦
        if not (is_local_resource_identifier id)
        then (refusal 400 (text "INVALID_REQUEST") (text "Offering identifier is invalid"), w)
        else and_then (service.catalog.get_offering id input w) (offering_answer id input language)
    | none ↦ elim (strip_prefix (text "/collections/") path) [
      | some value ↦ get_under_collections value input request language w
      | none ↦ (refusal 404 (text "NOT_FOUND") (text "ODP resource not found"), w)
    ]
  ]

  unfoldable pub search_offerings_answer : CatalogRequest → Request → Text → Call W Response
  search_offerings_answer input request language w =
      elim (decode_offering_search lib.json lib.decode_offering_search request) [
        | err e ↦ (err e, w)
        | ok query ↦
            let input' : CatalogRequest = record input { limit = query.limit } in
            and_then (service.catalog.search_offerings query input' w)
              (offering_page_answer true input' query.limit request language)
      ]

  unfoldable pub search_collections_answer : CatalogRequest → Request → Text → Call W Response
  search_collections_answer input request language w =
      elim (decode_collection_search lib.json lib.decode_collection_search request) [
        | err e ↦ (err e, w)
        | ok query ↦
            let input' : CatalogRequest = record input { limit = query.limit } in
            and_then (service.catalog.search_collections query input' w)
              (collection_page_answer input' query.limit request language)
      ]

  unfoldable pub continue_search : Text → CatalogRequest → Request → Text → Call W Response
  continue_search path input request language w =
      if is_none_or input.cursor is_empty
      then (err (invalid_request (text "Search continuation requires a cursor")), w)
      else if path == text "/offerings/search"
      then and_then (service.catalog.continue_offering_search input w)
          (offering_page_answer true input input.limit request language)
      else and_then (service.catalog.continue_collection_search input w)
          (collection_page_answer input input.limit request language)

  abbrev pub refused_method : Text → Result ServiceError Response
  refused_method path = ok (method_not_allowed lib.problem_to_vec (allowed_methods path))

  -- The match on the method and the path.
  unfoldable pub dispatch : Text → CatalogRequest → Request → Text → Call W Response
  dispatch path input request language w =
      let is_get = request.method == text "GET" in
      let is_post = request.method == text "POST" in
      if is_get && path == text "/offerings"
      then and_then (service.catalog.list_offerings input w)
          (offering_page_answer false input input.limit request language)
      else if is_post && path == text "/offerings/search"
      then search_offerings_answer input request language w
      else if is_get && path == text "/collections"
      then and_then (service.catalog.list_collections input w)
          (collection_page_answer input input.limit request language)
      else if is_post && path == text "/collections/search"
      then search_collections_answer input request language w
      else if is_get && (path == text "/offerings/search" || path == text "/collections/search")
      then continue_search path input request language w
      else if is_reserved path
      then (refused_method path, w)
      else if is_get
      then get_path path input request language w
      else (refused_method path, w)

  -- A resource is full where the query does not say.
  unfoldable pub defaulted : Text → Request → CatalogRequest → CatalogRequest
  defaulted path request input =
      if not (any (λ pair. pair.0 == text "representation") (lib.parse_query request.query))
        && defaults_to_full (path_operation request.method path)
      then record input { representation = full }
      else input

  unfoldable pub handle_path : Text → Request → Text → Call W Response
  handle_path path request language w =
      if is_some_and (path_operation request.method path) (λ op. not (is_supported service op))
      then (refusal 404 (text "NOT_FOUND") (text "ODP operation is not supported"), w)
      else elim (catalog_request lib.parse_query request language) [
        | err e ↦ (err e, w)
        | ok input ↦ dispatch path (defaulted path request input) request language w
      ]

  -- A request with the media types that it accepts and the language that is chosen for it.
  unfoldable pub handle_as : Option Text → Text → Request → Call W Response
  handle_as accept language request w =
      if not (accepts_odp lib.floats accept)
      then (refusal 406 (text "NOT_ACCEPTABLE") (text "Accept must allow application/odp+json"), w)
      else if request.path == text "/.well-known/odp"
      then (
        (if not (request.method == text "GET")
            then ok (method_not_allowed lib.problem_to_vec (text "GET, HEAD"))
            else represent lib 200 (lib.documents.to_value service.document) maximum_request_bytes
                language),
        w,
      )
      else elim (strip_prefix service.endpoint_base request.path) [
        | none ↦ (refusal 404 (text "NOT_FOUND") (text "ODP resource not found"), w)
        | some path ↦ handle_path path request language w
      ]

  unfoldable pub handle_result : Request → Call W Response
  handle_result request w =
      let language =
        select_language lib.floats service.document.language service.document.localizations
          (lookup (text "accept-language") request.headers) in
      handle_as (lookup (text "accept") request.headers) language request w

-- What a validator that matches leaves of a response.
unfoldable pub if_none_match : Bool → Option Text → Response → Response
if_none_match retrieval conditional response =
    if response.status == 200
      && is_some_and (lookup (text "etag") response.headers)
          (λ etag. is_some_and conditional (λ value. matches_etag value etag))
    then record response {
      body = [];
      status = if retrieval then 304 else 412;
      headers = remove (text "content-type") response.headers;
    }
    else response

unfoldable pub without_body : Bool → Response → Response
without_body head response =
    if head && not (response.status == 304)
    then record response {
      headers = insert (text "content-length") (decimal (length response.body)) response.headers;
      body = [];
    }
    else response

abbrev pub is_head : Request → Bool
is_head request = eq_ignore_ascii_case request.method (text "HEAD")

abbrev pub is_retrieval : Request → Bool
is_retrieval request = is_head request || eq_ignore_ascii_case request.method (text "GET")

abbrev pub as_get : Request → Request
as_get request = if is_head request then record request { method = text "GET" } else request

unfoldable pub handle : ServiceLib → {W : Type 0} → Service W → Request → W → Response × W
handle lib service request w =
    let (result, w') = handle_result lib service (as_get request) w in
    (
      without_body (is_head request) (
          if_none_match (is_retrieval request) (lookup (text "if-none-match") request.headers)
            (response_of lib.problem_to_vec result)),
      w',
    )
