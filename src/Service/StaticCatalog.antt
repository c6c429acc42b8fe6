-- ===== src/Service/StaticCatalog.antt =====
-- crates/odp-service/src/static_catalog.rs: the catalog in memory. A slice that is out of range
-- panics, and none stands for that; the crates are parameters.
pub mod Operations
pub mod Pages
pub mod Walks
pub mod Served
pub mod WellFormed
pub mod Accepted
mod Tests
use mathlib.Core.Option
use odp_rust.Prelude.{
  ℕ, ◌+◌, ◌-◌, ◌%◌, ◌^◌, min, Bool, true, false, not, ◌&&◌, Option, none, some, List, [], ◌∷◌, ◌++◌,
  map, Result, ok, err, ◌>>=◌, ◌>>◌, refuse_if, map_err, ◌==◌, nat_eq, if◌then◌else◌, ltb, leb,
  length, take, drop, any, retain,
}
use odp_rust.Prelude.Text.{Text, text, text_eq, is_empty}
use odp_rust.Prelude.Maps.{Map, lookup, insert, contains_key}
use odp_rust.Core.Json.{Value}
use odp_rust.Core.Models.{
  Operation, get_collection, get_offering, list_collection_offerings, list_collections,
  list_offerings, Representation, terse, representation_eq,
}
use odp_rust.Core.Documents.Resources.{Collection, Offering}
use odp_rust.Core.Documents.Searches.{Page, OfferingPage}
use odp_rust.Core.Validation.{parse_message}
use odp_rust.Core.Validation.Parsing.{JsonLib, version, parse_offering, parse_collection}
use odp_rust.Service.Requests.{CatalogRequest, ServiceError, invalid_configuration, request_error}
use odp_rust.Service.Hierarchy.{hierarchy_depths}
use odp_rust.Service.Cursors.{CursorLib, encode_cursor, decode_cursor, invalid_cursor}

pub record StaticCatalogOptions : Type 0 where
  pub collections : List Collection
  pub offerings : List Offering

pub record StaticCatalog : Type 0 where
  pub collections : List Collection
  pub collection_by_id : Map Collection
  pub offerings : List Offering
  pub offering_by_id : Map Offering
  pub continuation_key : Text

-- `getrandom::fill` of 32 bytes, the JSON of a resource, and the decoding of one.
pub record CatalogLib : Type 0 where
  pub fill : Result Text Text
  pub json : JsonLib
  pub offering_to_vec : Offering → Result Text Text
  pub collection_to_vec : Collection → Result Text Text
  pub decode_offering : Value → Result Text Offering
  pub decode_collection : Value → Result Text Collection

module _ (lib : CatalogLib) where
  unfoldable pub validate_offering : Offering → Result ServiceError (Unit {0})
  validate_offering value = do
    data' ← map_err invalid_configuration (lib.offering_to_vec value)
    parsed ←
        map_err (λ e. invalid_configuration (parse_message e))
          (parse_offering lib.json lib.decode_offering data')
    ok tt

  unfoldable pub validate_collection : Collection → Result ServiceError (Unit {0})
  validate_collection value = do
    data' ← map_err invalid_configuration (lib.collection_to_vec value)
    parsed ←
        map_err (λ e. invalid_configuration (parse_message e))
          (parse_collection lib.json lib.decode_collection data')
    ok tt

-- The loop that fills `offering_by_id`, and the one that fills `collection_by_id`.
module _ {T : Type 0} (id_of : T → Text) (validate : T → Result ServiceError (Unit {0})) where
  unfoldable pub index_by : Text → List T → Map T → Result ServiceError (Map T)
  index_by message [] entries = ok entries
  index_by message (value ∷ values) entries = do
    validate value
    refuse_if (contains_key (id_of value) entries) (invalid_configuration message)
    index_by message values (insert (id_of value) value entries)

unfoldable pub check_references : Map Collection → List Offering → Result ServiceError (Unit {0})
check_references collections [] = ok tt
check_references collections (value ∷ values) = do
  refuse_if (any (λ id. not (contains_key id collections)) value.collection_ids) (
      invalid_configuration
        (text "Offering " ++ value.id ++ text " refers to an unknown Collection"))
  check_references collections values

unfoldable pub new_static_catalog :
    CatalogLib → StaticCatalogOptions → Result ServiceError StaticCatalog
new_static_catalog lib options = do
  continuation_key ←
      map_err
        (λ e. invalid_configuration (text "Unable to create the continuation signing key: " ++ e))
        lib.fill
  offering_by_id ←
      index_by (λ value. value.id) (validate_offering lib)
        (text "Offering identifiers must be unique") options.offerings []
  collection_by_id ←
      index_by (λ value. value.id) (validate_collection lib)
        (text "Collection identifiers must be unique") options.collections []
  check_references collection_by_id options.offerings
  depths ← hierarchy_depths collection_by_id
  ok (record {
    collections = options.collections;
    collection_by_id = collection_by_id;
    offerings = options.offerings;
    offering_by_id = offering_by_id;
    continuation_key = continuation_key;
  })

abbrev pub default_page_limit : ℕ
default_page_limit = 50

unfoldable pub page_limit : CatalogRequest → ℕ
page_limit request = if request.limit == 0 then default_page_limit else request.limit

-- `values[offset..end]`
unfoldable pub slice {ℓ} : {T : Type ℓ} → ℕ → ℕ → List T → Option (List T)
slice offset end values =
    if leb offset end && leb end (length values)
    then some (take (end - offset) (drop offset values))
    else none

-- The two times are those that decoding and encoding a continuation read.
module _ (lib : CursorLib) (continuation_key : Text) (now later : ℕ) where
  module _ {T : Type 0} (values : List T) (request : CatalogRequest) where
    unfoldable pub next_link : ℕ → Result ServiceError Text
    next_link end =
        if ltb end (length values)
        then encode_cursor lib request (page_limit request) end continuation_key later
        else ok []

    unfoldable pub page_from : (T → T) → ℕ → Option (Result ServiceError (List T × Text))
    page_from represent offset =
        let end = min ((offset + page_limit request) % 2 ^ 64) (length values) in
        if ltb (length values) offset then some (err invalid_cursor) else elim (next_link end) [
          | err e ↦ some (err e)
          | ok next ↦ Option.map (λ items. ok (map represent items, next)) (slice offset end values)
        ]

    unfoldable pub page : (T → T) → Option (Result ServiceError (List T × Text))
    page represent = elim (decode_cursor lib request (page_limit request) continuation_key now) [
      | err e ↦ some (err e)
      | ok offset ↦ page_from represent offset
    ]

unfoldable pub offering_representation : Offering → Representation → Bool → Offering
offering_representation value representation embedded =
    let value' : Offering =
      if representation == terse
      then record value { actions = [] }
      else record value { detail_fields = [] } in
    if embedded && representation == terse then record value' { odp_version = [] } else value'

unfoldable pub collection_representation : Collection → Representation → Bool → Collection
collection_representation value representation embedded =
    let value' : Collection =
      if not (representation == terse) then record value { detail_fields = [] } else value in
    if embedded && representation == terse then record value' { odp_version = [] } else value'

abbrev pub offering_page : List Offering × Text → OfferingPage Offering
offering_page result = record {
  auth_expands = false;
  items = result.0;
  next = result.1;
  odp_version = version;
  refinements = [];
  additional = [];
}

abbrev pub collection_page : List Collection × Text → Page Collection
collection_page result = record {
  auth_expands = false;
  items = result.0;
  next = result.1;
  odp_version = version;
  additional = [];
}

abbrev pub map_ok {ℓ κ μ} :
    {E : Type ℓ} {A : Type κ} {B : Type μ} → (A → B) → Result E A → Result E B
map_ok f (ok a) = ok (f a)
map_ok f (err e) = err e

unfoldable pub operations : StaticCatalog → List Operation
operations self =
    get_offering
    ∷ (list_offerings
        ∷ (if not (is_empty self.collections)
            then get_collection ∷ (list_collection_offerings ∷ (list_collections ∷ []))
            else []))
