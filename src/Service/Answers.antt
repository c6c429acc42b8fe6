-- ===== src/Service/Answers.antt =====
-- crates/odp-service/src/service.rs: an answer with its entity tag, and the checks on what the
-- catalog gave. What serde_json makes of each type is a parameter, SHA-256 is the sha2 crate's.
pub mod Checked
mod Tests
use odp_rust.Prelude.{
  ℕ, zero, suc, ◌+◌, ◌/◌, ◌%◌, Bool, true, false, not, ◌&&◌, ◌||◌, Option, none, some, List, [],
  ◌∷◌, ◌++◌, map, any, Result, ok, err, ◌>>=◌, ◌>>◌, refuse_if, map_err, ◌==◌, nat_eq,
  if◌then◌else◌, ltb, length,
}
use mathlib.Core.List.{reverse}
use odp_rust.Prelude.Text.{
  Text, text, text_eq, is_empty, split, trim, trim_start_matches, trim_end_matches,
}
use odp_rust.Prelude.Maps.{Map, insert}
use odp_rust.Core.Json.{Value, string, map_values, set_member}
use odp_rust.Core.Models.{Representation, terse, full, representation_eq}
use odp_rust.Core.Documents.Services.{ServiceDocument}
use odp_rust.Core.Documents.Resources.{Collection, Offering, ProblemDetails}
use odp_rust.Core.Documents.Searches.{
  Page, OfferingPage, CollectionSearchRequest, OfferingSearchRequest,
}
use odp_rust.Core.Validation.{ParseError, parse_message}
use odp_rust.Core.Validation.Depth.{validate_json_depth}
use odp_rust.Core.Validation.Filters.{on_object, on_array, on_member}
use odp_rust.Core.Validation.Parsing.{
  JsonLib, version, parse_collection, parse_offering, parse_page, parse_offering_search_response,
}
use odp_rust.Service.Requests.{Request, Response, ServiceError, invalid_response}
use odp_rust.Service.Queries.{media_type, maximum_request_bytes}
use odp_rust.Service.Negotiation.{Floats}

-- `to_value`, `to_vec` and `from_value` of serde_json at a type.
pub record Serde (T : Type 0) : Type 0 where
  pub to_value : T → Result Text Value
  pub to_vec : T → Result Text Text
  pub decode : Value → Result Text T

pub record ServiceLib : Type 1 where
  pub floats : Floats
  pub json : JsonLib
  pub parse_query : Text → List (Text × Text)
  pub sha256 : Text → List ℕ
  pub value_to_vec : Value → Result Text Text
  pub problem_to_vec : ProblemDetails → Result Text Text
  pub documents : Serde ServiceDocument
  pub offerings : Serde Offering
  pub collections : Serde Collection
  pub offering_pages : Serde (OfferingPage Offering)
  pub collection_pages : Serde (Page Collection)
  pub decode_page : Value → Result Text (Page Value)
  pub decode_offering_search : Value → Result Text OfferingSearchRequest
  pub decode_collection_search : Value → Result Text CollectionSearchRequest

abbrev pub maximum_resource_bytes : ℕ
maximum_resource_bytes = 524288

-- `map_err(|error| ServiceError::InvalidResponse(error.to_string()))`
abbrev pub or_invalid {ℓ} : {A : Type ℓ} → Result Text A → Result ServiceError A
or_invalid result = map_err invalid_response result

abbrev pub or_refused {ℓ} : {A : Type ℓ} → Result ParseError A → Result ServiceError A
or_refused result = map_err (λ e. invalid_response (parse_message e)) result

abbrev pub with_version : Value → Value
with_version v = on_object (on_member (text "odp_version") (λ held. string version)) v

-- The version is set in a document and in its items.
unfoldable pub versioned : Value → Value
versioned document =
    on_object (on_member (text "items") (on_array (map_values with_version)))
      (with_version document)

abbrev pub depth_for : ℕ → ℕ
depth_for maximum_bytes = if maximum_bytes == maximum_request_bytes then 8 else 16

unfoldable pub json_response :
    (Value → Result Text Text) → ℕ → Result Text Value → ℕ → Result ServiceError Response
json_response value_to_vec status value maximum_bytes = do
  document ← or_invalid value
  or_refused (validate_json_depth document (depth_for maximum_bytes))
  body ← or_invalid (value_to_vec (versioned document))
  refuse_if (ltb maximum_bytes (length body)) (invalid_response (text "response body is too large"))
  ok (record { body = body; headers = (text "content-type", media_type) ∷ []; status = status })

abbrev pub hex_digit : ℕ → ℕ
hex_digit n = if ltb n 10 then 48 + n else 87 + n

unfoldable pub hex_digits : List ℕ → Text
hex_digits [] = []
hex_digits (byte ∷ bytes) = hex_digit (byte / 16) ∷ (hex_digit (byte % 16) ∷ hex_digits bytes)

unfoldable pub entity_tag : (Text → List ℕ) → Text → Text → Text
entity_tag sha256 body language = 34 ∷ (hex_digits (sha256 (language ++ 0 ∷ body)) ++ 34 ∷ [])

-- `trim_start_matches("W/")`
unfoldable pub trim_weak : Text → Text
trim_weak [] = []
trim_weak (c ∷ []) = c ∷ []
trim_weak (c ∷ (d ∷ s)) = let rest = trim_weak s in if c == 87 && d == 47 then rest else c ∷ (d ∷ s)

unfoldable pub bare_tag : Text → Text
bare_tag value = trim_end_matches 34 (trim_start_matches 34 (trim (trim_weak (trim value))))

unfoldable pub matches_etag : Text → Text → Bool
matches_etag header etag =
    any (λ entry. trim entry == text "*" || bare_tag entry == bare_tag etag) (split 44 header)

module _ (lib : ServiceLib) where
  unfoldable pub represent : ℕ → Result Text Value → ℕ → Text → Result ServiceError Response
  represent status value maximum_bytes language = do
    response ← json_response lib.value_to_vec status value maximum_bytes
    let described : Map Text =
        if not (is_empty language)
        then insert (text "vary") (text "Accept-Language")
            (insert (text "content-language") language response.headers)
        else response.headers
    ok (record response {
      headers = insert (text "etag") (entity_tag lib.sha256 response.body language) described;
    })

unfoldable pub validate_page_envelope : Text → ℕ → ℕ → Request → Result ServiceError (Unit {0})
validate_page_envelope next items limit request = do
  refuse_if (not (limit == 0) && ltb limit items)
      (invalid_response (text "Catalog returned more items than the request allows"))
  let current = if is_empty request.query then request.path else request.path ++ 63 ∷ request.query
  refuse_if (not (is_empty next) && next == current)
      (invalid_response (text "Catalog returned the request URL as its own continuation"))

unfoldable pub validate_offering_representation :
    Offering → Representation → Result ServiceError (Unit {0})
validate_offering_representation value representation = do
  refuse_if (representation == terse && not (is_empty value.actions))
      (invalid_response (text "Catalog returned Actions in a Terse Offering"))
  refuse_if (representation == full && not (is_empty value.detail_fields))
      (invalid_response (text "Catalog returned detail_fields in a Full Offering"))

unfoldable pub validate_collection_representation :
    Collection → Representation → Result ServiceError (Unit {0})
validate_collection_representation value representation =
    refuse_if (representation == full && not (is_empty value.detail_fields))
      (invalid_response (text "Catalog returned detail_fields in a Full Collection"))

abbrev pub inherited_version : Text → Text → Text
inherited_version held page_version = if is_empty held then page_version else held

module _ (lib : ServiceLib) where
  unfoldable pub validate_offerings :
      Text → Representation → List Offering → Result ServiceError (Unit {0})
  validate_offerings page_version representation [] = ok tt
  validate_offerings page_version representation (value ∷ values) = do
    encoded ← or_invalid (
        lib.offerings.to_vec
          (record value { odp_version = inherited_version value.odp_version page_version }))
    parsed ← or_refused (parse_offering lib.json lib.offerings.decode encoded)
    validate_offering_representation value representation
    validate_offerings page_version representation values

  unfoldable pub validate_collections :
      Text → Representation → List Collection → Result ServiceError (Unit {0})
  validate_collections page_version representation [] = ok tt
  validate_collections page_version representation (value ∷ values) = do
    encoded ← or_invalid (
        lib.collections.to_vec
          (record value { odp_version = inherited_version value.odp_version page_version }))
    parsed ← or_refused (parse_collection lib.json lib.collections.decode encoded)
    validate_collection_representation value representation
    validate_collections page_version representation values

  abbrev pub parse_envelope : Bool → Text → Result ServiceError (Unit {0})
  parse_envelope search_response encoded =
      if search_response
      then or_refused (
          parse_offering_search_response lib.json lib.offering_pages.decode encoded >>= λ page.
          ok tt)
      else or_refused (parse_page lib.json lib.decode_page encoded >>= λ page. ok tt)

  unfoldable pub validate_offering_page :
      OfferingPage Offering → Bool → Representation → ℕ → Request → Result ServiceError (Unit {0})
  validate_offering_page page search_response representation limit request = do
    validate_page_envelope page.next (length page.items) limit request
    encoded ← or_invalid (lib.offering_pages.to_vec page)
    parse_envelope search_response encoded
    validate_offerings page.odp_version representation page.items

  unfoldable pub validate_collection_page :
      Page Collection → Representation → ℕ → Request → Result ServiceError (Unit {0})
  validate_collection_page page representation limit request = do
    validate_page_envelope page.next (length page.items) limit request
    encoded ← or_invalid (lib.collection_pages.to_vec page)
    parse_envelope false encoded
    validate_collections page.odp_version representation page.items
