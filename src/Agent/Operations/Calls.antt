-- ===== src/Agent/Operations/Calls.antt =====
-- crates/odp-agent/src/client.rs: the operations that a caller has.
use odp_rust.Prelude.{ℕ, Option, none, some, List, [], Result, ok, map_err}
use odp_rust.Prelude.Text.{Text, text}
use odp_rust.Core.Models.{
  Representation, full, get_collection, get_offering, list_collection_offerings, list_collections,
  list_offerings, search_collections, search_offerings,
}
use odp_rust.Core.References.{resolve_continuation, reference_message}
use odp_rust.Core.Documents.Resources.{Collection, Offering}
use odp_rust.Core.Documents.Searches.{
  Page, OfferingPage, CollectionSearchRequest, OfferingSearchRequest,
}
use odp_rust.Core.Models.{Operation}
use odp_rust.Agent.Redirects.{AgentError, invalid_request}
use odp_rust.Agent.Setup.{ServiceClient}
use odp_rust.Agent.Traversal.{TraversalOptions, Sheet, collect}
use odp_rust.Agent.Acts.{Act, ◌>>=◌, pure}
use odp_rust.Agent.Validators.{
  parsed, read_collection, read_offering, read_offering_page, parse_agent_collection_page,
  validate_collections, validate_collection_page_bytes, validate_offering_page_bytes,
}
use odp_rust.Agent.Operations.{
  ClientLib, Url, request, get_page_bytes, get_resource, post_search, max_resource_bytes,
  collection_sheet, offering_sheet,
}

-- A continuation as a step of one state.
abbrev pub joint :
    {C W T : Type 0}
    → (Text → Act C W (Sheet T))
    → Text
    → C × W
    → Result AgentError (Sheet T) × (C × W)
joint continue_with next state =
    let (result, c, w) = continue_with next state.0 state.1 in (result, (c, w))

-- `collect_collections` and `collect_offerings`, for a way to continue.
abbrev pub collect_sheets :
    {C W T : Type 0} → (Text → Act C W (Sheet T)) → Sheet T → TraversalOptions → Act C W (List T)
collect_sheets continue_with page options c w =
    let (result, state) = collect (joint continue_with) page options (c, w) in
    (result, state.0, state.1)

module _ {W C : Type 0} (lib : ClientLib W) (client : ServiceClient W C) where
  open lib use {libs, documents}

  unfoldable pub get_collection_page : Operation → Representation → ℕ → Act C W (Page Collection)
  get_collection_page operation representation limit = do
    bytes ← get_page_bytes lib client operation none representation limit
    pure (parsed (parse_agent_collection_page documents bytes))

  unfoldable pub get_offering_page :
      Operation → Option Text → Representation → ℕ → Act C W (OfferingPage Offering)
  get_offering_page operation id representation limit = do
    bytes ← get_page_bytes lib client operation id representation limit
    pure (read_offering_page documents bytes)

  unfoldable pub list_collections_of : Representation → ℕ → Act C W (Page Collection)
  list_collections_of representation limit = do
    page ← get_collection_page list_collections representation limit
    pure (validate_collections documents page)

  unfoldable pub get_collection_of : Text → Act C W Collection
  get_collection_of id = do
    bytes ← get_resource lib client get_collection id full
    pure (read_collection documents bytes)

  unfoldable pub search_collections_of :
      CollectionSearchRequest → Representation → Act C W (Page Collection)
  search_collections_of query representation = do
    body ← pure (map_err invalid_request (documents.collection_search_to_vec query))
    bytes ← post_search lib client search_collections body representation
    page ← pure (parsed (parse_agent_collection_page documents bytes))
    pure (validate_collections documents page)

  unfoldable pub list_offerings_of : Representation → ℕ → Act C W (OfferingPage Offering)
  list_offerings_of = get_offering_page list_offerings none

  unfoldable pub list_collection_offerings_of :
      Text → Representation → ℕ → Act C W (OfferingPage Offering)
  list_collection_offerings_of collection_id =
      get_offering_page list_collection_offerings (some collection_id)

  unfoldable pub get_offering_of : Text → Act C W Offering
  get_offering_of id = do
    bytes ← get_resource lib client get_offering id full
    pure (read_offering documents bytes)

  unfoldable pub search_offerings_of :
      OfferingSearchRequest → Representation → Act C W (OfferingPage Offering)
  search_offerings_of query representation = do
    body ← pure (map_err invalid_request (documents.offering_search_to_vec query))
    bytes ← post_search lib client search_offerings body representation
    pure (read_offering_page documents bytes)

  -- The URL of a continuation.
  abbrev pub continuation : Text → Result AgentError (Url lib client)
  continuation next =
      map_err (λ e. invalid_request (reference_message e))
        (resolve_continuation libs.url_lib next client.service_origin)

  unfoldable pub continue_collections_with : Text → ℕ → Act C W (Page Collection)
  continue_collections_with next fallback = do
    target ← pure (continuation next)
    response ←
        request lib client (text "GET") target [] max_resource_bytes fallback
          (validate_collection_page_bytes documents)
    page ← pure (parsed (parse_agent_collection_page documents response.body))
    pure (validate_collections documents page)

  abbrev pub continue_collections : Text → Act C W (Page Collection)
  continue_collections next = continue_collections_with next 0

  unfoldable pub continue_offerings_with : Text → ℕ → Act C W (OfferingPage Offering)
  continue_offerings_with next fallback = do
    target ← pure (continuation next)
    response ←
        request lib client (text "GET") target [] max_resource_bytes fallback
          (validate_offering_page_bytes documents)
    pure (read_offering_page documents response.body)

  abbrev pub continue_offerings : Text → Act C W (OfferingPage Offering)
  continue_offerings next = continue_offerings_with next 0

  unfoldable pub collect_collections :
      Page Collection → TraversalOptions → ℕ → Act C W (List Collection)
  collect_collections page options fallback =
      collect_sheets
        (λ next. do
          page' ← continue_collections_with next fallback
          pure (ok (collection_sheet page')))
        (collection_sheet page) options

  unfoldable pub collect_offerings :
      OfferingPage Offering → TraversalOptions → ℕ → Act C W (List Offering)
  collect_offerings page options fallback =
      collect_sheets
        (λ next. do page' ← continue_offerings_with next fallback; pure (ok (offering_sheet page')))
        (offering_sheet page) options

  unfoldable pub list_all_collections :
      Representation → ℕ → TraversalOptions → Act C W (List Collection)
  list_all_collections representation limit options = do
    page ← list_collections_of representation limit
    collect_collections page options client.cache_fallbacks.collection

  unfoldable pub list_all_offerings :
      Representation → ℕ → TraversalOptions → Act C W (List Offering)
  list_all_offerings representation limit options = do
    page ← list_offerings_of representation limit
    collect_offerings page options client.cache_fallbacks.offering

  unfoldable pub search_all_offerings :
      OfferingSearchRequest → Representation → TraversalOptions → Act C W (List Offering)
  search_all_offerings query representation options = do
    page ← search_offerings_of query representation
    collect_offerings page options client.cache_fallbacks.search
