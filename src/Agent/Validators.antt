-- ===== src/Agent/Validators.antt =====
-- crates/odp-agent/src/client.rs: what a response must be before it is kept. The JSON of each document
-- is a parameter.
use odp_rust.Prelude.{List, [], ◌∷◌, Result, ok, ◌>>=◌, ◌>>◌, map_err, if◌then◌else◌}
use odp_rust.Prelude.Text.{Text, text, is_empty}
use odp_rust.Core.Json.{Value}
use odp_rust.Core.Models.{
  Operation, get_collection, get_offering, list_collection_offerings, list_collections,
  list_offerings, search_collections, search_offerings,
}
use odp_rust.Core.Documents.Services.{ServiceDocument}
use odp_rust.Core.Documents.Resources.{Collection, Offering}
use odp_rust.Core.Documents.Searches.{
  Page, OfferingPage, CollectionSearchRequest, OfferingSearchRequest,
}
use odp_rust.Core.Validation.{ParseError}
use odp_rust.Core.Validation.Parsing.{
  JsonLib, parse_agent_service_document, parse_agent_collection, parse_agent_offering, parse_page,
  parse_agent_offering_search_response, normalize_agent_response,
}
use odp_rust.Agent.Redirects.{AgentError, invalid_response, parse_error}

-- `from_value` and `to_vec` of serde_json at the types of the client.
pub record DocumentLib : Type 0 where
  pub json : JsonLib
  pub decode_document : Value → Result Text ServiceDocument
  pub decode_collection : Value → Result Text Collection
  pub decode_offering : Value → Result Text Offering
  pub decode_collection_page : Value → Result Text (Page Collection)
  pub decode_offering_page : Value → Result Text (OfferingPage Offering)
  pub collection_to_vec : Collection → Result Text Text
  pub offering_to_vec : Offering → Result Text Text
  pub collection_search_to_vec : CollectionSearchRequest → Result Text Text
  pub offering_search_to_vec : OfferingSearchRequest → Result Text Text

-- `?` on a `ParseError`.
abbrev pub parsed : {A : Type 0} → Result ParseError A → Result AgentError A
parsed result = map_err parse_error result

module _ (lib : DocumentLib) where
  abbrev pub read_document : Text → Result AgentError ServiceDocument
  read_document bytes = parsed (parse_agent_service_document lib.json lib.decode_document bytes)

  abbrev pub read_collection : Text → Result AgentError Collection
  read_collection bytes = parsed (parse_agent_collection lib.json lib.decode_collection bytes)

  abbrev pub read_offering : Text → Result AgentError Offering
  read_offering bytes = parsed (parse_agent_offering lib.json lib.decode_offering bytes)

  unfoldable pub parse_agent_collection_page : Text → Result ParseError (Page Collection)
  parse_agent_collection_page bytes =
      normalize_agent_response lib.json bytes (text "collection-page")
      >>= parse_page lib.json lib.decode_collection_page

  abbrev pub read_offering_page : Text → Result AgentError (OfferingPage Offering)
  read_offering_page bytes =
      parsed (parse_agent_offering_search_response lib.json lib.decode_offering_page bytes)

  unfoldable pub check_collections : Text → List Collection → Result AgentError (Unit {0})
  check_collections page_version [] = ok tt
  check_collections page_version (value ∷ values) = do
    data' ← map_err invalid_response (
        lib.collection_to_vec (record value {
          odp_version = if is_empty value.odp_version then page_version else value.odp_version;
        }))
    collection ← read_collection data'
    check_collections page_version values

  unfoldable pub validate_collections : Page Collection → Result AgentError (Page Collection)
  validate_collections page = check_collections page.odp_version page.items >> ok page

  unfoldable pub check_offerings : Text → List Offering → Result AgentError (Unit {0})
  check_offerings page_version [] = ok tt
  check_offerings page_version (value ∷ values) = do
    data' ← map_err invalid_response (
        lib.offering_to_vec (record value {
          odp_version = if is_empty value.odp_version then page_version else value.odp_version;
        }))
    offering ← read_offering data'
    check_offerings page_version values

  unfoldable pub validate_offerings :
      OfferingPage Offering → Result AgentError (OfferingPage Offering)
  validate_offerings page = check_offerings page.odp_version page.items >> ok page

  unfoldable pub validate_service_document_bytes : Text → Result AgentError (Unit {0})
  validate_service_document_bytes bytes = do document ← read_document bytes; ok tt

  unfoldable pub validate_collection_bytes : Text → Result AgentError (Unit {0})
  validate_collection_bytes bytes = do collection ← read_collection bytes; ok tt

  unfoldable pub validate_offering_bytes : Text → Result AgentError (Unit {0})
  validate_offering_bytes bytes = do offering ← read_offering bytes; ok tt

  unfoldable pub validate_collection_page_bytes : Text → Result AgentError (Unit {0})
  validate_collection_page_bytes bytes = do
    page ← parsed (parse_agent_collection_page bytes)
    valid ← validate_collections page
    ok tt

  unfoldable pub validate_offering_page_bytes : Text → Result AgentError (Unit {0})
  validate_offering_page_bytes bytes = do
    page ← read_offering_page bytes
    valid ← validate_offerings page
    ok tt

  unfoldable pub response_validator : Operation → Text → Result AgentError (Unit {0})
  response_validator get_collection = validate_collection_bytes
  response_validator get_offering = validate_offering_bytes
  response_validator list_collections = validate_collection_page_bytes
  response_validator search_collections = validate_collection_page_bytes
  response_validator list_collection_offerings = validate_offering_page_bytes
  response_validator list_offerings = validate_offering_page_bytes
  response_validator search_offerings = validate_offering_page_bytes
