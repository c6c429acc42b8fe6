-- ===== src/Service/Queries.antt =====
-- crates/odp-service/src/service.rs: what a request asks of the catalog. The parser of a query is
-- the url crate's.
pub mod Continued
use mathlib.Core.Option
use odp_rust.Prelude.{
  ℕ, ◌+◌, Bool, not, ◌&&◌, ◌||◌, Option, none, some, List, [], ◌∷◌, ◌++◌, Result, ok, err, ◌>>=◌,
  ◌>>◌, refuse_if, map_err, ok_or, ◌==◌, nat_eq, if◌then◌else◌, ltb, length,
}
use odp_rust.Prelude.Text.{Text, text, text_eq, split, trim, eq_ignore_ascii_case}
use odp_rust.Prelude.Maps.{Map, lookup, insert}
use odp_rust.Prelude.Numbers.{parse_u64}
use odp_rust.Core.Models.{Representation, terse, full}
use odp_rust.Core.Json.{Value}
use odp_rust.Core.Documents.Searches.{CollectionSearchRequest, OfferingSearchRequest}
use odp_rust.Core.References.{is_some}
use odp_rust.Core.Validation.{ParseError, parse_message}
use odp_rust.Core.Validation.Parsing.{
  JsonLib, parse_offering_search_request, parse_collection_search_request,
}
use odp_rust.Service.Requests.{Request, CatalogRequest, ServiceError, request_error}

abbrev pub media_type : Text
media_type = text "application/odp+json"

abbrev pub maximum_request_bytes : ℕ
maximum_request_bytes = 65536

abbrev pub invalid_request : Text → ServiceError
invalid_request message = request_error 400 (text "INVALID_REQUEST") message

-- `entry(name).or_default().push(value)` for every pair of a query.
unfoldable pub group_parameters : List (Text × Text) → Map (List Text) → Map (List Text)
group_parameters [] parameters = parameters
group_parameters ((name, value) ∷ pairs) parameters =
    let values : List Text = elim (lookup name parameters) [ none ↦ [] | some values ↦ values ] in
    group_parameters pairs (insert name (values ++ value ∷ []) parameters)

abbrev pub first : List Text → Option Text
first [] = none
first (value ∷ values) = some value

abbrev pub single : Map (List Text) → Text → Option Text
single parameters name = elim (lookup name parameters) [ none ↦ none | some values ↦ first values ]

unfoldable pub refuse_repeated : Map (List Text) → Text → Result ServiceError (Unit {0})
refuse_repeated parameters name = elim (lookup name parameters) [
  | none ↦ ok tt
  | some values ↦
      refuse_if (ltb 1 (length values)) (invalid_request (name ++ text " must not be repeated"))
]

unfoldable pub read_representation : Option Text → Result ServiceError Representation
read_representation none = ok terse
read_representation (some value) =
    if value == text "terse"
    then ok terse
    else if value == text "full"
    then ok full
    else err (invalid_request (text "representation is invalid"))

unfoldable pub read_limit : Option Text → Result ServiceError ℕ
read_limit none = ok 0
read_limit (some value) = do
  limit ← ok_or (parse_u64 value) (invalid_request (text "limit is invalid"))
  refuse_if (ltb 100 limit || limit == 0)
      (invalid_request (text "limit must be from 1 through 100"))
  ok limit

unfoldable pub catalog_request :
    (Text → List (Text × Text)) → Request → Text → Result ServiceError CatalogRequest
catalog_request parse_query request language = do
  let parameters = group_parameters (parse_query request.query) []
  refuse_repeated parameters (text "representation")
  refuse_repeated parameters (text "limit")
  refuse_repeated parameters (text "cursor")
  representation ← read_representation (single parameters (text "representation"))
  limit ← read_limit (single parameters (text "limit"))
  ok (record {
    accept_language = lookup (text "accept-language") request.headers;
    cursor = single parameters (text "cursor");
    language = language;
    limit = limit;
    path = request.path;
    representation = representation;
  })

-- The first part of a split, which there always is.
abbrev pub essence : Option Text → Text
essence none = []
essence (some value) = elim (split 59 value) [ [] ↦ [] | part ∷ parts ↦ trim part ]

unfoldable pub validate_search_request : Request → Result ServiceError (Unit {0})
validate_search_request request = do
  refuse_if (ltb maximum_request_bytes (length request.body))
      (request_error 413 (text "REQUEST_TOO_LARGE") (text "request body is too large"))
  refuse_if
      (not
        (eq_ignore_ascii_case (essence (lookup (text "content-type") request.headers)) media_type))
      (request_error 415 (text "UNSUPPORTED_MEDIA_TYPE")
        (text "Content-Type must be " ++ media_type))

module _ (lib : JsonLib) where
  unfoldable pub decode_offering_search :
      (Value → Result Text OfferingSearchRequest)
      → Request
      → Result ServiceError OfferingSearchRequest
  decode_offering_search decode request = do
    validate_search_request request
    map_err (λ e. invalid_request (parse_message e))
        (parse_offering_search_request lib decode request.body)

  unfoldable pub decode_collection_search :
      (Value → Result Text CollectionSearchRequest)
      → Request
      → Result ServiceError CollectionSearchRequest
  decode_collection_search decode request = do
    validate_search_request request
    map_err (λ e. invalid_request (parse_message e))
        (parse_collection_search_request lib decode request.body)
