-- ===== src/Agent/Operations/Sessions.antt =====
-- crates/odp-agent/src/client.rs: what the operations of a client ask for, one after another.
use odp_rust.Prelude.{ℕ, ◌≡◌, Option, none, [], ok}
use odp_rust.Prelude.Text.{Text, text}
use odp_rust.Core.Models.{
  Operation, Representation, list_collections, list_offerings, search_collections, search_offerings,
}
use odp_rust.Core.References.{derive_service_origin}
use odp_rust.Core.Documents.Resources.{Collection, Offering}
use odp_rust.Core.Documents.Searches.{
  Page, OfferingPage, CollectionSearchRequest, OfferingSearchRequest,
}
use odp_rust.Directory.Transport.{HttpRequest}
use odp_rust.Agent.Setup.{ServiceClient}
use odp_rust.Agent.Traversal.{Sheet, TraversalOptions}
use odp_rust.Agent.Traversal.Kept.{collect-Keeps}
use odp_rust.Agent.Acts.{Act}
use odp_rust.Agent.Operations.{ClientLib, max_resource_bytes}
use odp_rust.Agent.Operations.Calls.{
  joint, collect_sheets, get_collection_page, get_offering_page, list_collections_of,
  search_collections_of, list_offerings_of, search_offerings_of, continue_collections_with,
  continue_offerings_with, collect_collections, collect_offerings,
}
use odp_rust.Agent.Operations.Keeps.{
  Any, Holds-ok, Ensures-read, Ensures, Ensures-last, Ensures-bind, Ensures-after,
}
use odp_rust.Agent.Operations.Asked.{
  ClientLaws, Ensures-asks, get_page_bytes-Ensures, post_search-Ensures, continuation-IsOn,
}

module _ {W C : Type 0} (lib : ClientLib W) (client : ServiceClient W C)
    (laws : ClientLaws lib client) (K : W → Type 0)
    (keep : (request' : HttpRequest) (limit : ℕ)
      → derive_service_origin lib.libs.url_lib request'.url ≡ ok client.service_origin
      → (w : W) → K w
      → K (client.transport.send_limited request' limit w).1) where
  open lib use {libs, documents}

  get_collection_page-Ensures :
      (operation : Operation) (representation : Representation) (limit : ℕ)
      → Ensures K Any (get_collection_page lib client operation representation limit)
  unfolding get_collection_page
  get_collection_page-Ensures operation representation limit =
      Ensures-read K _ _
        (get_page_bytes-Ensures lib client laws K keep operation none representation limit)

  pub get_offering_page-Ensures :
      (operation : Operation) (id : Option Text) (representation : Representation) (limit : ℕ)
      → Ensures K Any (get_offering_page lib client operation id representation limit)
  unfolding get_offering_page
  get_offering_page-Ensures operation id representation limit =
      Ensures-read K _ _
        (get_page_bytes-Ensures lib client laws K keep operation id representation limit)

  pub list_collections_of-Ensures :
      (representation : Representation) (limit : ℕ)
      → Ensures K Any (list_collections_of lib client representation limit)
  unfolding list_collections_of
  list_collections_of-Ensures representation limit =
      Ensures-read K _ _ (get_collection_page-Ensures list_collections representation limit)

  pub list_offerings_of-Ensures :
      (representation : Representation) (limit : ℕ)
      → Ensures K Any (list_offerings_of lib client representation limit)
  unfolding list_offerings_of
  list_offerings_of-Ensures representation limit =
      get_offering_page-Ensures list_offerings none representation limit

  pub search_collections_of-Ensures :
      (query : CollectionSearchRequest) (representation : Representation)
      → Ensures K Any (search_collections_of lib client query representation)
  unfolding search_collections_of
  search_collections_of-Ensures query representation = Ensures-after K Any _ _ (λ body made.
      Ensures-bind K Any Any _ _
        (post_search-Ensures lib client laws K keep search_collections body representation)
        (λ bytes any. Ensures-after K Any _ _ (λ page parsed. Ensures-last K _)))

  pub search_offerings_of-Ensures :
      (query : OfferingSearchRequest) (representation : Representation)
      → Ensures K Any (search_offerings_of lib client query representation)
  unfolding search_offerings_of
  search_offerings_of-Ensures query representation = Ensures-after K Any _ _ (λ body made.
      Ensures-read K _ _
        (post_search-Ensures lib client laws K keep search_offerings body representation))

  pub continue_collections_with-Ensures :
      (next : Text) (fallback : ℕ)
      → Ensures K Any (continue_collections_with lib client next fallback)
  unfolding continue_collections_with
  continue_collections_with-Ensures next fallback = Ensures-after K Any _ _ (λ target found.
      Ensures-asks lib client laws K keep Any (text "GET") target [] max_resource_bytes fallback _ _
        (continuation-IsOn lib client laws K keep next target found)
        (λ response. Ensures-after K Any _ _ (λ page parsed. Ensures-last K _)))

  pub continue_offerings_with-Ensures :
      (next : Text) (fallback : ℕ)
      → Ensures K Any (continue_offerings_with lib client next fallback)
  unfolding continue_offerings_with
  continue_offerings_with-Ensures next fallback = Ensures-after K Any _ _ (λ target found.
      Ensures-asks lib client laws K keep Any (text "GET") target [] max_resource_bytes fallback _ _
        (continuation-IsOn lib client laws K keep next target found) (λ response. Ensures-last K _))

  collect_sheets-Ensures :
      {T : Type 0} (continue_with : Text → Act C W (Sheet T)) (page : Sheet T)
      (options : TraversalOptions)
      → ((next : Text) → Ensures K Any (continue_with next))
      → Ensures K Any (collect_sheets continue_with page options)
  collect_sheets-Ensures continue_with page options kept = record {
    runs = λ c w k. (
      Holds-ok Any _ (λ a done. tt),
      collect-Keeps (joint continue_with) (λ state. K state.1)
          (λ next state held. ((kept next).runs state.0 state.1 held).1) page options (c, w) k,
    );
  }

  pub collect_collections-Ensures :
      (page : Page Collection) (options : TraversalOptions) (fallback : ℕ)
      → Ensures K Any (collect_collections lib client page options fallback)
  unfolding collect_collections
  collect_collections-Ensures page options fallback =
      collect_sheets-Ensures _ _ options
        (λ next. Ensures-read K _ _ (continue_collections_with-Ensures next fallback))

  pub collect_offerings-Ensures :
      (page : OfferingPage Offering) (options : TraversalOptions) (fallback : ℕ)
      → Ensures K Any (collect_offerings lib client page options fallback)
  unfolding collect_offerings
  collect_offerings-Ensures page options fallback =
      collect_sheets-Ensures _ _ options
        (λ next. Ensures-read K _ _ (continue_offerings_with-Ensures next fallback))
