-- ===== src/Service/StaticCatalog/Operations.antt =====
-- crates/odp-service/src/static_catalog.rs: `impl Catalog for StaticCatalog`.
use mathlib.Core.Option
use odp_rust.Prelude.{
  ℕ, Bool, true, false, not, Option, some, Result, ok, err, ◌==◌, if◌then◌else◌, any, retain,
}
use odp_rust.Prelude.Text.{Text, text, text_eq}
use odp_rust.Prelude.Maps.{lookup, contains_key}
use odp_rust.Core.Documents.Resources.{Collection, Offering}
use odp_rust.Core.Documents.Searches.{Page, OfferingPage}
use odp_rust.Service.Requests.{CatalogRequest, ServiceError, request_error}
use odp_rust.Service.Cursors.{CursorLib}
use odp_rust.Service.StaticCatalog.{
  StaticCatalog, page, offering_representation, collection_representation, offering_page,
  collection_page, map_ok,
}

abbrev pub holds_collection : Text → Offering → Bool
holds_collection collection_id value = any (λ id. id == collection_id) value.collection_ids

module _ (self : StaticCatalog) where
  unfoldable pub get_offering : Text → CatalogRequest → Result ServiceError (Option Offering)
  get_offering id request = ok (
      Option.map (λ value. offering_representation value request.representation false)
        (lookup id self.offering_by_id))

  unfoldable pub get_collection : Text → CatalogRequest → Result ServiceError (Option Collection)
  get_collection id request = ok (
      Option.map (λ value. collection_representation value request.representation false)
        (lookup id self.collection_by_id))

  module _ (lib : CursorLib) (now later : ℕ) where
    unfoldable pub list_offerings :
        CatalogRequest → Option (Result ServiceError (OfferingPage Offering))
    list_offerings request = Option.map (map_ok offering_page) (
        page lib self.continuation_key now later self.offerings request
          (λ value. offering_representation value request.representation true))

    unfoldable pub list_collections :
        CatalogRequest → Option (Result ServiceError (Page Collection))
    list_collections request = Option.map (map_ok collection_page) (
        page lib self.continuation_key now later self.collections request
          (λ value. collection_representation value request.representation true))

    unfoldable pub list_collection_offerings :
        Text → CatalogRequest → Option (Result ServiceError (OfferingPage Offering))
    list_collection_offerings collection_id request =
        if not (contains_key collection_id self.collection_by_id)
        then some (err (request_error 404 (text "NOT_FOUND") (text "Collection not found")))
        else Option.map (map_ok offering_page) (
            page lib self.continuation_key now later
              (retain (holds_collection collection_id) self.offerings) request
              (λ value. offering_representation value request.representation true))
