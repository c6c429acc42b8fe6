-- ===== src/Agent/Operations/Refused.antt =====
-- crates/odp-agent/src/client.rs: what the operations return that the Service does not offer.
use odp_rust.Prelude.{ℕ, ◌≡◌, refl, ◌∙◌, any, false, Option, none, some, List, ok, err, ◌==◌}
use odp_rust.Prelude.Text.{Text}
use odp_rust.Core.Models.{
  Operation, operation_eq, Representation, full, get_collection, get_offering,
  list_collection_offerings, list_collections, list_offerings, search_collections, search_offerings,
}
use odp_rust.Core.Documents.Resources.{Collection, Offering}
use odp_rust.Core.Documents.Searches.{
  Page, OfferingPage, CollectionSearchRequest, OfferingSearchRequest,
}
use odp_rust.Agent.Redirects.{AgentError, unsupported_operation}
use odp_rust.Agent.Setup.{ServiceClient}
use odp_rust.Agent.Traversal.{TraversalOptions}
use odp_rust.Agent.Acts.{Act, pure, >>=-err, >>=-ok}
use odp_rust.Agent.Operations.{
  ClientLib, Inspection, inspect, require_advertised, require_operation, get_page_bytes,
  post_search,
}
use odp_rust.Agent.Operations.Calls.{
  get_collection_page, get_offering_page, list_collections_of, get_collection_of,
  search_collections_of, list_offerings_of, list_collection_offerings_of, get_offering_of,
  search_offerings_of, list_all_collections, list_all_offerings, search_all_offerings,
}

module _ {W C : Type 0} (lib : ClientLib W) (client : ServiceClient W C) where
  open lib use {documents}

  -- The calls that need an operation, a search with the JSON of its query.
  pub data Needs : (A : Type 0) → Act C W A → Operation → Type 1 where
    lists_collections :
        (representation : Representation) (limit : ℕ)
        → Needs
            (Page Collection)
            (list_collections_of lib client representation limit)
            list_collections
    gets_collection :
        (id : Text) → Needs Collection (get_collection_of lib client id) get_collection
    searches_collections :
        (query : CollectionSearchRequest) (representation : Representation) (body : Text)
        → documents.collection_search_to_vec query ≡ ok body
        → Needs
            (Page Collection)
            (search_collections_of lib client query representation)
            search_collections
    lists_offerings :
        (representation : Representation) (limit : ℕ)
        → Needs
            (OfferingPage Offering)
            (list_offerings_of lib client representation limit)
            list_offerings
    lists_collection_offerings :
        (collection_id : Text) (representation : Representation) (limit : ℕ)
        → Needs
            (OfferingPage Offering)
            (list_collection_offerings_of lib client collection_id representation limit)
            list_collection_offerings
    gets_offering : (id : Text) → Needs Offering (get_offering_of lib client id) get_offering
    searches_offerings :
        (query : OfferingSearchRequest) (representation : Representation) (body : Text)
        → documents.offering_search_to_vec query ≡ ok body
        → Needs
            (OfferingPage Offering)
            (search_offerings_of lib client query representation)
            search_offerings
    lists_all_collections :
        (representation : Representation) (limit : ℕ) (options : TraversalOptions)
        → Needs
            (List Collection)
            (list_all_collections lib client representation limit options)
            list_collections
    lists_all_offerings :
        (representation : Representation) (limit : ℕ) (options : TraversalOptions)
        → Needs
            (List Offering)
            (list_all_offerings lib client representation limit options)
            list_offerings
    searches_all_offerings :
        (query : OfferingSearchRequest) (representation : Representation)
        (options : TraversalOptions) (body : Text)
        → documents.offering_search_to_vec query ≡ ok body
        → Needs
            (List Offering)
            (search_all_offerings lib client query representation options)
            search_offerings

  module _ (c c' : C) (w w' : W) (e : AgentError) where
    -- Why an operation is not attempted: the Service was not inspected, or does not offer it.
    pub data IsRefused (operation : Operation) : Type 0 where
      uninspected : inspect lib client c w ≡ (err e, c', w') → IsRefused operation
      not_offered :
          (inspection : Inspection)
          → inspect lib client c w ≡ (ok inspection, c', w')
          → any (λ descriptor. descriptor.name == operation) inspection.document.operations ≡ false
          → e ≡ unsupported_operation operation
          → IsRefused operation

    abbrev Fails : {A : Type 0} → Act C W A → Type 0
    Fails act = act c w ≡ (err e, c', w')

    require_operation-Fails :
        (operation : Operation)
        → IsRefused operation
        → Fails (require_operation lib client operation)
    unfolding require_operation pure
    require_operation-Fails operation (uninspected h) = >>=-err (inspect lib client) _ e h
    require_operation-Fails operation (not_offered inspection h missing same) =
        >>=-ok (inspect lib client) (λ found. pure (require_advertised lib client operation found))
          inspection h
        ∙ rw (missing, same) refl

    get_page_bytes-Fails :
        (operation : Operation) (id : Option Text) (representation : Representation) (limit : ℕ)
        → IsRefused operation
        → Fails (get_page_bytes lib client operation id representation limit)
    unfolding get_page_bytes
    get_page_bytes-Fails operation id representation limit h =
        >>=-err _ _ e (require_operation-Fails operation h)

    post_search-Fails :
        (operation : Operation) (body : Text) (representation : Representation)
        → IsRefused operation
        → Fails (post_search lib client operation body representation)
    unfolding post_search
    post_search-Fails operation body representation h =
        >>=-err _ _ e (require_operation-Fails operation h)

    search_offerings_of-Fails :
        (query : OfferingSearchRequest) (representation : Representation) (body : Text)
        → documents.offering_search_to_vec query ≡ ok body
        → IsRefused search_offerings
        → Fails (search_offerings_of lib client query representation)
    unfolding search_offerings_of pure
    search_offerings_of-Fails query representation body made h =
        >>=-ok _ _ body (rw made refl)
        ∙ >>=-err _ _ e (post_search-Fails search_offerings body representation h)

    -- A call of an operation that the Service does not offer fails as unsupported, and one to a Service
    -- that cannot be inspected fails with the error of that, a search if its query can be written as
    -- JSON; nothing more is asked for and the cache is left as the inspection left it.
    pub call-Fails :
        (A : Type 0) (act : Act C W A) (operation : Operation)
        → Needs A act operation
        → IsRefused operation
        → Fails act
    unfolding list_collections_of get_collection_of search_collections_of list_offerings_of
        list_collection_offerings_of get_offering_of list_all_collections list_all_offerings
        search_all_offerings get_collection_page get_offering_page pure
    call-Fails A act operation (lists_collections representation limit) h =
        >>=-err _ _ e
          (>>=-err _ _ e (get_page_bytes-Fails list_collections none representation limit h))
    call-Fails A act operation (gets_collection id) h =
        >>=-err _ _ e (get_page_bytes-Fails get_collection (some id) full 0 h)
    call-Fails A act operation (searches_collections query representation body made) h =
        >>=-ok _ _ body (rw made refl)
        ∙ >>=-err _ _ e (post_search-Fails search_collections body representation h)
    call-Fails A act operation (lists_offerings representation limit) h =
        >>=-err _ _ e (get_page_bytes-Fails list_offerings none representation limit h)
    call-Fails A act operation (lists_collection_offerings collection_id representation limit) h =
        >>=-err _ _ e (
          get_page_bytes-Fails list_collection_offerings (some collection_id) representation limit
            h)
    call-Fails A act operation (gets_offering id) h =
        >>=-err _ _ e (get_page_bytes-Fails get_offering (some id) full 0 h)
    call-Fails A act operation (searches_offerings query representation body made) h =
        search_offerings_of-Fails query representation body made h
    call-Fails A act operation (lists_all_collections representation limit options) h =
        >>=-err _ _ e (
          >>=-err _ _ e
            (>>=-err _ _ e (get_page_bytes-Fails list_collections none representation limit h)))
    call-Fails A act operation (lists_all_offerings representation limit options) h =
        >>=-err _ _ e
          (>>=-err _ _ e (get_page_bytes-Fails list_offerings none representation limit h))
    call-Fails A act operation (searches_all_offerings query representation options body made) h =
        >>=-err _ _ e (search_offerings_of-Fails query representation body made h)
