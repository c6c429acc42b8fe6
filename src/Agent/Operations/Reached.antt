-- ===== src/Agent/Operations/Reached.antt =====
-- crates/odp-agent/src/client.rs: the states that a caller of a client can reach.
use odp_rust.Prelude.{ℕ, ◌≡◌, some, List, Result, ok, subst, ap}
use odp_rust.Prelude.Text.{Text}
use odp_rust.Core.Models.{
  Representation, full, get_collection, get_offering, list_collection_offerings,
}
use odp_rust.Core.References.{derive_service_origin}
use odp_rust.Core.Documents.Resources.{Collection, Offering}
use odp_rust.Core.Documents.Searches.{
  Page, OfferingPage, CollectionSearchRequest, OfferingSearchRequest,
}
use odp_rust.Directory.Transport.{HttpRequest}
use odp_rust.Agent.Redirects.{AgentError}
use odp_rust.Agent.Setup.{ServiceClient}
use odp_rust.Agent.Traversal.{TraversalOptions}
use odp_rust.Agent.Acts.{Act}
use odp_rust.Agent.Operations.{ClientLib, Inspection, inspect}
use odp_rust.Agent.Operations.Calls.{
  list_collections_of, get_collection_of, search_collections_of, list_offerings_of,
  list_collection_offerings_of, get_offering_of, search_offerings_of, continue_collections,
  continue_offerings, list_all_collections, list_all_offerings, search_all_offerings,
}
use odp_rust.Agent.Operations.Keeps.{Any, Ensures, Ensures-read, Ensures-bind}
use odp_rust.Agent.Operations.Asked.{ClientLaws, inspect-Ensures, get_page_bytes-Ensures}
use odp_rust.Agent.Operations.Sessions.{
  get_offering_page-Ensures, list_collections_of-Ensures, list_offerings_of-Ensures,
  search_collections_of-Ensures, search_offerings_of-Ensures, continue_collections_with-Ensures,
  continue_offerings_with-Ensures, collect_collections-Ensures, collect_offerings-Ensures,
}

module _ {W C : Type 0} (lib : ClientLib W) (client : ServiceClient W C) where
  -- What a caller may call.
  pub data IsCall : (A : Type 0) → Act C W A → Type 1 where
    inspects : IsCall Inspection (inspect lib client)
    lists_collections :
        (representation : Representation) (limit : ℕ)
        → IsCall (Page Collection) (list_collections_of lib client representation limit)
    gets_collection : (id : Text) → IsCall Collection (get_collection_of lib client id)
    searches_collections :
        (query : CollectionSearchRequest) (representation : Representation)
        → IsCall (Page Collection) (search_collections_of lib client query representation)
    lists_offerings :
        (representation : Representation) (limit : ℕ)
        → IsCall (OfferingPage Offering) (list_offerings_of lib client representation limit)
    lists_collection_offerings :
        (collection_id : Text) (representation : Representation) (limit : ℕ)
        → IsCall
            (OfferingPage Offering)
            (list_collection_offerings_of lib client collection_id representation limit)
    gets_offering : (id : Text) → IsCall Offering (get_offering_of lib client id)
    searches_offerings :
        (query : OfferingSearchRequest) (representation : Representation)
        → IsCall (OfferingPage Offering) (search_offerings_of lib client query representation)
    continues_collections :
        (next : Text) → IsCall (Page Collection) (continue_collections lib client next)
    continues_offerings :
        (next : Text) → IsCall (OfferingPage Offering) (continue_offerings lib client next)
    lists_all_collections :
        (representation : Representation) (limit : ℕ) (options : TraversalOptions)
        → IsCall (List Collection) (list_all_collections lib client representation limit options)
    lists_all_offerings :
        (representation : Representation) (limit : ℕ) (options : TraversalOptions)
        → IsCall (List Offering) (list_all_offerings lib client representation limit options)
    searches_all_offerings :
        (query : OfferingSearchRequest) (representation : Representation)
        (options : TraversalOptions)
        → IsCall (List Offering) (search_all_offerings lib client query representation options)

  -- A session: calls, one after another, from one cache and world to another.
  pub data Session : C → W → C → W → Type 1 where
    opened : {c : C} {w : W} → Session c w c w
    called :
        {c c' c'' : C} {w w' w'' : W} {A : Type 0} (act : Act C W A) (result : Result AgentError A)
        → IsCall A act
        → Session c w c' w'
        → act c' w' ≡ (result, c'', w'')
        → Session c w c'' w''

module _ {W C : Type 0} (lib : ClientLib W) (client : ServiceClient W C)
    (laws : ClientLaws lib client) (K : W → Type 0)
    (keep : (request' : HttpRequest) (limit : ℕ)
      → derive_service_origin lib.libs.url_lib request'.url ≡ ok client.service_origin
      → (w : W) → K w
      → K (client.transport.send_limited request' limit w).1) where
  get_collection_of-Ensures : (id : Text) → Ensures K Any (get_collection_of lib client id)
  unfolding get_collection_of
  get_collection_of-Ensures id =
      Ensures-read K _ _
        (get_page_bytes-Ensures lib client laws K keep get_collection (some id) full 0)

  get_offering_of-Ensures : (id : Text) → Ensures K Any (get_offering_of lib client id)
  unfolding get_offering_of
  get_offering_of-Ensures id =
      Ensures-read K _ _
        (get_page_bytes-Ensures lib client laws K keep get_offering (some id) full 0)

  call-Keeps :
      (A : Type 0) (act : Act C W A)
      → IsCall lib client A act
      → (c : C) (w : W) → K w
      → K (act c w).2
  unfolding list_collection_offerings_of list_all_collections list_all_offerings
      search_all_offerings
  call-Keeps A act inspects c w k = ((inspect-Ensures lib client laws K keep).runs c w k).1
  call-Keeps A act (lists_collections representation limit) c w k =
      ((list_collections_of-Ensures lib client laws K keep representation limit).runs c w k).1
  call-Keeps A act (gets_collection id) c w k = ((get_collection_of-Ensures id).runs c w k).1
  call-Keeps A act (searches_collections query representation) c w k =
      ((search_collections_of-Ensures lib client laws K keep query representation).runs c w k).1
  call-Keeps A act (lists_offerings representation limit) c w k =
      ((list_offerings_of-Ensures lib client laws K keep representation limit).runs c w k).1
  call-Keeps A act (lists_collection_offerings collection_id representation limit) c w k =
      ((get_offering_page-Ensures lib client laws K keep list_collection_offerings
          (some collection_id) representation limit).runs
        c w k).1
  call-Keeps A act (gets_offering id) c w k = ((get_offering_of-Ensures id).runs c w k).1
  call-Keeps A act (searches_offerings query representation) c w k =
      ((search_offerings_of-Ensures lib client laws K keep query representation).runs c w k).1
  call-Keeps A act (continues_collections next) c w k =
      ((continue_collections_with-Ensures lib client laws K keep next 0).runs c w k).1
  call-Keeps A act (continues_offerings next) c w k =
      ((continue_offerings_with-Ensures lib client laws K keep next 0).runs c w k).1
  call-Keeps A act (lists_all_collections representation limit options) c w k =
      ((Ensures-bind K Any Any _ _
          (list_collections_of-Ensures lib client laws K keep representation limit)
          (λ page any.
            collect_collections-Ensures lib client laws K keep page options
              client.cache_fallbacks.collection)).runs
        c w k).1
  call-Keeps A act (lists_all_offerings representation limit options) c w k =
      ((Ensures-bind K Any Any _ _
          (list_offerings_of-Ensures lib client laws K keep representation limit)
          (λ page any.
            collect_offerings-Ensures lib client laws K keep page options
              client.cache_fallbacks.offering)).runs
        c w k).1
  call-Keeps A act (searches_all_offerings query representation options) c w k =
      ((Ensures-bind K Any Any _ _
          (search_offerings_of-Ensures lib client laws K keep query representation)
          (λ page any.
            collect_offerings-Ensures lib client laws K keep page options
              client.cache_fallbacks.search)).runs
        c w k).1

  -- Whatever the Service answers, every request of a session, which is any calls of `inspect`, the
  -- lists, the gets, the searches, their continuations and the traversals that list or search all,
  -- one after another, goes to the origin of the Service: whatever such requests keep of the world
  -- holds after the session, where the url crate is as documented, the client is made for the URL
  -- of the Service and each Service document that is read has an endpoint base of printable
  -- characters without a backslash. The search capabilities and the details, which follow links to
  -- other origins, are no such calls.
  pub session-Keeps : (c c' : C) (w w' : W) → Session lib client c w c' w' → K w → K w'
  session-Keeps c c' w w' opened k = k
  session-Keeps c c' w w' (called {c' = c1} {w' = w1} {A = A} act result call before e) k =
      subst K (ap (λ outcome. outcome.2) e)
        (call-Keeps A act call c1 w1 (session-Keeps c c1 w w1 before k))
