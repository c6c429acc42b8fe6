-- ===== src/Service/Catalogs.antt =====
-- crates/odp-service/src/service.rs: the trait `Catalog`, over a state that its calls change.
use odp_rust.Prelude.{Option, List, Result, err, ◌>>=◌}
use odp_rust.Prelude.Text.{Text, text}
use odp_rust.Core.Models.{Operation}
use odp_rust.Core.Documents.Resources.{Collection, Offering}
use odp_rust.Core.Documents.Searches.{
  Page, OfferingPage, CollectionSearchRequest, OfferingSearchRequest,
}
use odp_rust.Service.Requests.{CatalogRequest, ServiceError, catalog_failure, request_error}

-- A call of the catalog.
abbrev pub Call : Type 0 → Type 0 → Type 0
Call W A = W → Result ServiceError A × W

pub record Catalog (W : Type 0) : Type 0 where
  pub operations : List Operation
  pub continue_offering_search : CatalogRequest → Call W (OfferingPage Offering)
  pub continue_collection_search : CatalogRequest → Call W (Page Collection)
  pub list_offerings : CatalogRequest → Call W (OfferingPage Offering)
  pub get_offering : Text → CatalogRequest → Call W (Option Offering)
  pub search_offerings : OfferingSearchRequest → CatalogRequest → Call W (OfferingPage Offering)
  pub list_collections : CatalogRequest → Call W (Page Collection)
  pub get_collection : Text → CatalogRequest → Call W (Option Collection)
  pub search_collections : CollectionSearchRequest → CatalogRequest → Call W (Page Collection)
  pub list_collection_offerings : Text → CatalogRequest → Call W (OfferingPage Offering)

abbrev pub fails : {W A : Type 0} → ServiceError → Call W A
fails e w = (err e, w)

abbrev pub search_expired : ServiceError
search_expired =
    request_error 410 (text "CONTINUATION_EXPIRED") (text "Search continuation is unavailable")

-- A catalog of the two methods that the trait requires, with its defaults for the others.
unfoldable pub default_catalog :
    {W : Type 0}
    → List Operation
    → (CatalogRequest → Call W (OfferingPage Offering))
    → (Text → CatalogRequest → Call W (Option Offering))
    → Catalog W
default_catalog supported list get = record {
  operations = supported;
  continue_offering_search = λ input. fails search_expired;
  continue_collection_search = λ input. fails search_expired;
  list_offerings = list;
  get_offering = get;
  search_offerings =
      λ query input. fails (catalog_failure (text "search-offerings is unsupported"));
  list_collections = λ input. fails (catalog_failure (text "list-collections is unsupported"));
  get_collection = λ id input. fails (catalog_failure (text "get-collection is unsupported"));
  search_collections =
      λ query input. fails (catalog_failure (text "search-collections is unsupported"));
  list_collection_offerings =
      λ id input. fails (catalog_failure (text "list-collection-offerings is unsupported"));
}

-- What is made of the answer of a call.
abbrev pub and_then :
    {W A B : Type 0}
    → Result ServiceError A × W
    → (A → Result ServiceError B)
    → Result ServiceError B × W
and_then answer next = (answer.0 >>= next, answer.1)
