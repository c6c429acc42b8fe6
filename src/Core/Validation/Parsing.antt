-- ===== src/Core/Validation/Parsing.antt =====
-- crates/odp-core/src/validation.rs: the parse functions. The serde_json and jsonschema crates are
-- parameters, the reading of a document's type from a `Value` too.
use mathlib.Core.List.{reverse}
use odp_rust.Prelude.{
  ℕ, Bool, not, ◌&&◌, ◌||◌, Option, List, [], ◌∷◌, ◌++◌, map, all, Result, ok, err, ◌>>=◌, ◌>>◌,
  map_err, ok_or, if◌then◌else◌, leb, ◌==◌, nat_eq,
}
use odp_rust.Prelude.Text.{Text, text, text_eq, is_empty, split, strip_prefix, starts_with}
use odp_rust.Prelude.Maps.{Map, lookup}
use odp_rust.Core.References.{is_some_and}
use odp_rust.Core.Json.{Value, string, set_member}
use odp_rust.Core.Documents.Services.{FilterDefinition, ServiceDocument}
use odp_rust.Core.Documents.Resources.{Collection, Offering, ProblemDetails}
use odp_rust.Core.Documents.Searches.{
  Page, OfferingPage, CollectionSearchRequest, OfferingSearchRequest,
}
use odp_rust.Core.Validation.{ValidationIssue, ParseError, validation, schema_initialization, issue}
use odp_rust.Core.Validation.Depth.{validate_json_depth}
use odp_rust.Core.Validation.Filters.{text_at, on_object}
use odp_rust.Core.Validation.Normalize.{normalize_agent_document}
use odp_rust.Core.Validation.Rules.{
  LanguageTag, offering_issues, collection_issues, problem_details_issues, filter_definition_issues,
  refinement_issues, representation_issues, service_document_issues,
}

pub record SchemaError : Type 0 where
  pub schema_path : Text
  pub message : Text
  pub instance_path : Text

-- The crates: reading and writing JSON, and the bundled schemas with the errors that each finds.
pub record JsonLib : Type 0 where
  pub from_slice : Text → Result Text Value
  pub to_text : Value → Text
  pub schemas : Result Text (Map (Value → List SchemaError))
  pub parse_tag : Text → Option LanguageTag
  pub bucket_key : Value → Text

abbrev pub refuse : {A : Type 0} → Text → List ValidationIssue → Result ParseError A
refuse document_type issues =
    err (validation (record { document_type = document_type; issues = issues }))

abbrev pub version : Text
version = text "1.0"

abbrev pub is_digit : ℕ → Bool
is_digit b = leb 48 b && leb b 57

-- A version `1.N` other than the one that is implemented, which is read as if it were that.
unfoldable pub is_minor_version : Text → Bool
is_minor_version value =
    not (value == version)
    && is_some_and (strip_prefix (text "1.") value) (λ minor.
      not (is_empty minor)
      && ((minor == text "0" || not (starts_with (text "0") minor)) && all is_digit minor))

unfoldable pub compatible : Value → Value
compatible v =
    if is_some_and (text_at (text "odp_version" ∷ []) v) is_minor_version
    then on_object (set_member (text "odp_version") (string version)) v
    else v

abbrev pub last_segment : Text → Text
last_segment path = elim (reverse (split 47 path)) [ [] ↦ [] | segment ∷ segments ↦ segment ]

unfoldable pub schema_issue : SchemaError → ValidationIssue
schema_issue error = record {
  keyword =
      (let segment = last_segment error.schema_path in
        if is_empty segment then text "schema" else segment);
  message = error.message;
  params = [];
  path = error.instance_path;
}

module _ (lib : JsonLib) where
  unfoldable pub validate_value : Value → Text → Text → Result ParseError (Unit {0})
  validate_value v schema_name document_type = do
    validate_json_depth v (if schema_name == text "service-document.schema.json" then 8 else 16)
    validators ← map_err schema_initialization lib.schemas
    validator ←
        ok_or (lookup schema_name validators)
          (schema_initialization (text "missing bundled schema " ++ schema_name))
    let issues = map schema_issue (validator (compatible v))
    if is_empty issues then ok tt else refuse document_type issues

  module _ {T : Type 0} (decode : Value → Result Text T) where
    unfoldable pub parse : Text → Text → Text → (T → List ValidationIssue) → Result ParseError T
    parse bytes schema_name document_type refine = do
      raw ←
          map_err
            (λ e.
              validation
                (record { document_type = document_type; issues = issue [] (text "json") e ∷ [] }))
            (lib.from_slice bytes)
      validate_value raw schema_name document_type
      value ←
          map_err
            (λ e.
              validation (record {
                document_type = document_type;
                issues = issue [] (text "decode") e ∷ [];
              }))
            (decode raw)
      if is_empty (refine value) then ok value else refuse document_type (refine value)

    unfoldable pub parse_without_refinement : Text → Text → Text → Result ParseError T
    parse_without_refinement bytes schema_name document_type =
        parse bytes schema_name document_type (λ value. [])

  unfoldable pub normalize_agent_response : Text → Text → Result ParseError Text
  normalize_agent_response bytes kind = do
    raw ←
        map_err
          (λ e. validation (record {
            document_type = text "Agent response";
            issues = issue [] (text "json") e ∷ [];
          }))
          (lib.from_slice bytes)
    validate_json_depth raw (if kind == text "service-document" then 8 else 16)
    ok (lib.to_text (normalize_agent_document kind raw))

  unfoldable pub parse_service_document :
      (Value → Result Text ServiceDocument) → Text → Result ParseError ServiceDocument
  parse_service_document decode bytes =
      parse decode bytes (text "service-document.schema.json") (text "Service Document")
        (service_document_issues lib.parse_tag)

  unfoldable pub parse_agent_service_document :
      (Value → Result Text ServiceDocument) → Text → Result ParseError ServiceDocument
  parse_agent_service_document decode bytes =
      normalize_agent_response bytes (text "service-document") >>= parse_service_document decode

  unfoldable pub collection_representation_issues : Collection → List ValidationIssue
  collection_representation_issues value =
      representation_issues lib.parse_tag value.language value.localizations value.images

  unfoldable pub parse_collection :
      (Value → Result Text Collection) → Text → Result ParseError Collection
  parse_collection decode bytes =
      parse decode bytes (text "collection.schema.json") (text "Collection")
        (λ value. collection_representation_issues value ++ collection_issues value)

  unfoldable pub parse_agent_collection :
      (Value → Result Text Collection) → Text → Result ParseError Collection
  parse_agent_collection decode bytes =
      normalize_agent_response bytes (text "collection") >>= λ encoded.
      parse decode encoded (text "collection.schema.json") (text "Collection")
        collection_representation_issues

  unfoldable pub offering_representation_issues : Offering → List ValidationIssue
  offering_representation_issues value =
      representation_issues lib.parse_tag value.language value.localizations value.images

  unfoldable pub parse_offering : (Value → Result Text Offering) → Text → Result ParseError Offering
  parse_offering decode bytes =
      parse decode bytes (text "offering.schema.json") (text "Offering")
        (λ value. offering_representation_issues value ++ offering_issues value)

  unfoldable pub parse_agent_offering :
      (Value → Result Text Offering) → Text → Result ParseError Offering
  parse_agent_offering decode bytes =
      normalize_agent_response bytes (text "offering") >>= λ encoded.
      parse decode encoded (text "offering.schema.json") (text "Offering")
        offering_representation_issues

  unfoldable pub parse_problem_details :
      (Value → Result Text ProblemDetails) → Text → Result ParseError ProblemDetails
  parse_problem_details decode bytes =
      parse decode bytes (text "problem-details.schema.json") (text "Problem Details")
        problem_details_issues

  unfoldable pub parse_problem_response :
      (Value → Result Text ProblemDetails) → Text → ℕ → Result ParseError ProblemDetails
  parse_problem_response decode bytes http_status = parse_problem_details decode bytes >>= λ value.
      if not (value.status == http_status)
      then refuse (text "Problem Details") (
          issue (text "/status") (text "http-status") (text "must match the HTTP response status")
          ∷ [])
      else ok value

  unfoldable pub parse_page :
      {T : Type 0} → (Value → Result Text (Page T)) → Text → Result ParseError (Page T)
  parse_page decode bytes =
      parse_without_refinement decode bytes (text "page-envelope.schema.json")
        (text "page envelope")

  unfoldable pub parse_collection_search_request :
      (Value → Result Text CollectionSearchRequest)
      → Text
      → Result ParseError CollectionSearchRequest
  parse_collection_search_request decode bytes =
      parse_without_refinement decode bytes (text "collection-search-request.schema.json")
        (text "Collection search request")

  unfoldable pub parse_offering_search_request :
      (Value → Result Text OfferingSearchRequest) → Text → Result ParseError OfferingSearchRequest
  parse_offering_search_request decode bytes =
      parse_without_refinement decode bytes (text "offering-search-request.schema.json")
        (text "Offering search request")

  unfoldable pub parse_offering_search_response :
      (Value → Result Text (OfferingPage Offering))
      → Text
      → Result ParseError (OfferingPage Offering)
  parse_offering_search_response decode bytes =
      parse decode bytes (text "offering-search-response.schema.json")
        (text "Offering search response")
        (λ value. refinement_issues lib.bucket_key value.refinements)

  unfoldable pub parse_agent_offering_search_response :
      (Value → Result Text (OfferingPage Offering))
      → Text
      → Result ParseError (OfferingPage Offering)
  parse_agent_offering_search_response decode bytes =
      normalize_agent_response bytes (text "offering-page") >>= λ encoded.
      parse_without_refinement decode encoded (text "offering-search-response.schema.json")
        (text "Offering search response")

  unfoldable pub parse_filter_definition :
      (Value → Result Text FilterDefinition) → Text → Result ParseError FilterDefinition
  parse_filter_definition decode bytes =
      parse decode bytes (text "filter-definition.schema.json") (text "Filter Definition")
        filter_definition_issues
