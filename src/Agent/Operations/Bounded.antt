-- ===== src/Agent/Operations/Bounded.antt =====
-- crates/odp-agent/src/client.rs: no operation of a client makes more than a fixed number of requests.
use odp_rust.Prelude.{ℕ, suc, ◌+◌, ◌≤◌, arith, Option, none, some}
use odp_rust.Prelude.Text.{Text}
use odp_rust.Core.Models.{
  Operation, Representation, full, get_collection, get_offering, list_collection_offerings,
  list_collections, list_offerings, search_collections, search_offerings,
}
use odp_rust.Core.Documents.Resources.{Collection, Offering}
use odp_rust.Core.Documents.Searches.{
  Page, OfferingPage, CollectionSearchRequest, OfferingSearchRequest,
}
use odp_rust.Directory.Transport.{HttpRequest}
use odp_rust.Agent.Setup.{ServiceClient}
use odp_rust.Agent.Traversal.{Sheet, TraversalOptions}
use odp_rust.Agent.Traversal.Kept.{collect_bound}
use odp_rust.Agent.Acts.{Act}
use odp_rust.Agent.Operations.{ClientLib, inspect, require_operation, get_page_bytes, post_search}
use odp_rust.Agent.Operations.Calls.{
  joint, collect_sheets, get_collection_page, get_offering_page, list_collections_of,
  get_collection_of, search_collections_of, list_offerings_of, list_collection_offerings_of,
  get_offering_of, search_offerings_of, continue_collections_with, continue_offerings_with,
  collect_collections, collect_offerings, list_all_collections, list_all_offerings,
  search_all_offerings,
}
use odp_rust.Agent.Operations.Costs.{
  Costs, Costs-pure, Costs-bind, Costs-after, Costs-read, request-Costs,
}
use odp_rust.Agent.Operations.Reached.{
  IsCall, inspects, lists_collections, gets_collection, searches_collections, lists_offerings,
  lists_collection_offerings, gets_offering, searches_offerings, continues_collections,
  continues_offerings, lists_all_collections, lists_all_offerings, searches_all_offerings,
}

module _ {W C : Type 0} (lib : ClientLib W) (client : ServiceClient W C) (count : W → ℕ)
    (step : (request' : HttpRequest) (limit : ℕ) (w : W)
      → count (client.transport.send_limited request' limit w).1 ≤ suc (count w)) where
  inspect-Costs : Costs count 6 (inspect lib client)
  unfolding inspect
  inspect-Costs = Costs-after count 6 _ _ (λ target.
      Costs-bind count 6 0 _ _ (request-Costs lib client count step _ target _ _ _ _)
        (λ response. Costs-after count 0 _ _ (λ document'. Costs-pure count _)))

  require_operation-Costs :
      (operation : Operation) → Costs count 6 (require_operation lib client operation)
  unfolding require_operation
  require_operation-Costs operation = Costs-read count 6 _ _ inspect-Costs

  get_page_bytes-Costs :
      (operation : Operation) (id : Option Text) (representation : Representation) (limit : ℕ)
      → Costs count 12 (get_page_bytes lib client operation id representation limit)
  unfolding get_page_bytes
  get_page_bytes-Costs operation id representation limit =
      Costs-bind count 6 6 _ _ (require_operation-Costs operation) (λ inspection.
        Costs-after count 6 _ _
          (λ target. Costs-read count 6 _ _ (request-Costs lib client count step _ _ _ _ _ _)))

  post_search-Costs :
      (operation : Operation) (body : Text) (representation : Representation)
      → Costs count 12 (post_search lib client operation body representation)
  unfolding post_search
  post_search-Costs operation body representation =
      Costs-bind count 6 6 _ _ (require_operation-Costs operation) (λ inspection.
        Costs-after count 6 _ _
          (λ target. Costs-read count 6 _ _ (request-Costs lib client count step _ _ _ _ _ _)))

  continue_collections_with-Costs :
      (next : Text) (fallback : ℕ)
      → Costs count 6 (continue_collections_with lib client next fallback)
  unfolding continue_collections_with
  continue_collections_with-Costs next fallback = Costs-after count 6 _ _ (λ target.
      Costs-bind count 6 0 _ _ (request-Costs lib client count step _ _ _ _ _ _)
        (λ response. Costs-after count 0 _ _ (λ page. Costs-pure count _)))

  continue_offerings_with-Costs :
      (next : Text) (fallback : ℕ)
      → Costs count 6 (continue_offerings_with lib client next fallback)
  unfolding continue_offerings_with
  continue_offerings_with-Costs next fallback =
      Costs-after count 6 _ _
        (λ target. Costs-read count 6 _ _ (request-Costs lib client count step _ _ _ _ _ _))

  collect_sheets-Costs :
      {T : Type 0} (continue_with : Text → Act C W (Sheet T)) (page : Sheet T)
      (options : TraversalOptions)
      → ((next : Text) → Costs count 6 (continue_with next))
      → Costs count 90 (collect_sheets continue_with page options)
  collect_sheets-Costs continue_with page options cost = record {
    within = λ c w.
        collect_bound (joint continue_with) (λ state. count state.1)
          (λ next state. (cost next).within state.0 state.1) page options (c, w);
  }

  collect_collections-Costs :
      (page : Page Collection) (options : TraversalOptions) (fallback : ℕ)
      → Costs count 90 (collect_collections lib client page options fallback)
  unfolding collect_collections
  collect_collections-Costs page options fallback =
      collect_sheets-Costs _ _ options
        (λ next. Costs-read count 6 _ _ (continue_collections_with-Costs next fallback))

  collect_offerings-Costs :
      (page : OfferingPage Offering) (options : TraversalOptions) (fallback : ℕ)
      → Costs count 90 (collect_offerings lib client page options fallback)
  unfolding collect_offerings
  collect_offerings-Costs page options fallback =
      collect_sheets-Costs _ _ options
        (λ next. Costs-read count 6 _ _ (continue_offerings_with-Costs next fallback))

  list_collections_of-Costs :
      (representation : Representation) (limit : ℕ)
      → Costs count 12 (list_collections_of lib client representation limit)
  unfolding list_collections_of get_collection_page
  list_collections_of-Costs representation limit =
      Costs-read count 12 _ _
        (Costs-read count 12 _ _ (get_page_bytes-Costs list_collections none representation limit))

  get_offering_page-Costs :
      (operation : Operation) (id : Option Text) (representation : Representation) (limit : ℕ)
      → Costs count 12 (get_offering_page lib client operation id representation limit)
  unfolding get_offering_page
  get_offering_page-Costs operation id representation limit =
      Costs-read count 12 _ _ (get_page_bytes-Costs operation id representation limit)

  search_offerings_of-Costs :
      (query : OfferingSearchRequest) (representation : Representation)
      → Costs count 12 (search_offerings_of lib client query representation)
  unfolding search_offerings_of
  search_offerings_of-Costs query representation =
      Costs-after count 12 _ _
        (λ body. Costs-read count 12 _ _ (post_search-Costs search_offerings body representation))

  search_collections_of-Costs :
      (query : CollectionSearchRequest) (representation : Representation)
      → Costs count 12 (search_collections_of lib client query representation)
  unfolding search_collections_of
  search_collections_of-Costs query representation = Costs-after count 12 _ _ (λ body.
      Costs-bind count 12 0 _ _ (post_search-Costs search_collections body representation)
        (λ bytes. Costs-after count 0 _ _ (λ page. Costs-pure count _)))

  within :
      {A : Type 0} (n : ℕ) (act : Act C W A)
      → Costs count n act
      → n ≤ 102
      → (c : C) (w : W) → count (act c w).2 ≤ count w + 102
  within n act cost small c w = let h = cost.within c w in omega arith

  -- Whatever the Service answers, one call of `inspect`, the lists, the gets, the searches, their
  -- continuations and the traversals that list or search all makes at most 102 requests, where the
  -- world counts each request that is sent as one at most. The search capabilities and the details
  -- are no such calls.
  pub call_bound :
      (A : Type 0) (act : Act C W A)
      → IsCall lib client A act
      → (c : C) (w : W) → count (act c w).2 ≤ count w + 102
  unfolding get_collection_of get_offering_of list_offerings_of list_collection_offerings_of
      list_all_collections list_all_offerings search_all_offerings
  call_bound A act inspects = within 6 act inspect-Costs (omega arith)
  call_bound A act (lists_collections representation limit) =
      within 12 act (list_collections_of-Costs representation limit) (omega arith)
  call_bound A act (gets_collection id) =
      within 12 act (Costs-read count 12 _ _ (get_page_bytes-Costs get_collection (some id) full 0))
        (omega arith)
  call_bound A act (searches_collections query representation) =
      within 12 act (search_collections_of-Costs query representation) (omega arith)
  call_bound A act (lists_offerings representation limit) =
      within 12 act (get_offering_page-Costs list_offerings none representation limit) (omega arith)
  call_bound A act (lists_collection_offerings collection_id representation limit) =
      within 12 act
        (get_offering_page-Costs list_collection_offerings (some collection_id) representation
          limit)
        (omega arith)
  call_bound A act (gets_offering id) =
      within 12 act (Costs-read count 12 _ _ (get_page_bytes-Costs get_offering (some id) full 0))
        (omega arith)
  call_bound A act (searches_offerings query representation) =
      within 12 act (search_offerings_of-Costs query representation) (omega arith)
  call_bound A act (continues_collections next) =
      within 6 act (continue_collections_with-Costs next 0) (omega arith)
  call_bound A act (continues_offerings next) =
      within 6 act (continue_offerings_with-Costs next 0) (omega arith)
  call_bound A act (lists_all_collections representation limit options) =
      within 102 act
        (Costs-bind count 12 90 _ _ (list_collections_of-Costs representation limit)
          (λ page. collect_collections-Costs page options _))
        (omega arith)
  call_bound A act (lists_all_offerings representation limit options) =
      within 102 act
        (Costs-bind count 12 90 _ _
          (get_offering_page-Costs list_offerings none representation limit)
          (λ page. collect_offerings-Costs page options _))
        (omega arith)
  call_bound A act (searches_all_offerings query representation options) =
      within 102 act
        (Costs-bind count 12 90 _ _ (search_offerings_of-Costs query representation)
          (λ page. collect_offerings-Costs page options _))
        (omega arith)
