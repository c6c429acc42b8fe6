-- ===== src/Agent/Capabilities/Sources.antt =====
-- crates/odp-agent/src/capabilities.rs: where the filters and sorts come from. What the client does
-- elsewhere, to inspect the Service, to get a Collection and to get a linked document, and the wording
-- of an error are members of `Client`.
use odp_rust.Prelude.{
  ℕ, zero, suc, true, false, not, ◌||◌, Option, none, some, List, [], ◌∷◌, ◌++◌, any, Result, ok,
  err, ◌>>=◌, ◌>>◌, refuse_if, map_err, ◌==◌, if◌then◌else◌,
}
use odp_rust.Prelude.Text.{Text, text, text_eq, is_empty}
use odp_rust.Core.Json.{Value}
use odp_rust.Core.Models.{operation_eq, search_offerings}
use odp_rust.Core.References.{is_some}
use odp_rust.Core.References.Url.{UrlLib}
use odp_rust.Core.Documents.Services.{
  ServiceDocument, FilterDefinition, SortDefinition, SearchCapabilities, CapabilityLink,
}
use odp_rust.Core.Documents.Resources.{Collection}
use odp_rust.Core.Documents.Searches.{Page}
use odp_rust.Core.Validation.{ParseError}
use odp_rust.Core.Validation.Rules.{contains_name}
use odp_rust.Core.Validation.Parsing.{JsonLib, parse_without_refinement, normalize_agent_response}
use odp_rust.Agent.Redirects.{AgentError, invalid_request, invalid_response, parse_error}
use odp_rust.Agent.Capabilities.{
  maximum_capability_pages, CapabilityScope, collection_scope, service_scope, filter_kind,
  sort_kind, SearchCapabilityCatalog, empty_catalog, report, take_filters, take_sorts, ScopedSorts,
  in_order, resolve_sorts,
}

pub record Client (W : Type 0) : Type 1 where
  pub json : JsonLib
  pub url : UrlLib
  pub service_origin : Text
  pub linked_odp : url.Url → (Text → Result AgentError (Unit {0})) → W → Result AgentError Text × W
  pub decode_filter_page : Value → Result Text (Page FilterDefinition)
  pub decode_sort_page : Value → Result Text (Page SortDefinition)
  pub inspect : W → Result AgentError ServiceDocument × W
  pub get_collection : Text → W → Result AgentError Collection × W
  pub agent_message : AgentError → Text

module _ (lib : JsonLib) where
  abbrev pub parse_filter_definition_page :
      (Value → Result Text (Page FilterDefinition))
      → Text
      → Result ParseError (Page FilterDefinition)
  parse_filter_definition_page decode bytes =
      parse_without_refinement lib decode bytes (text "filter-definition-page.schema.json")
        (text "Filter Definition page")

  abbrev pub parse_sort_definition_page :
      (Value → Result Text (Page SortDefinition)) → Text → Result ParseError (Page SortDefinition)
  parse_sort_definition_page decode bytes =
      parse_without_refinement lib decode bytes (text "sort-definition-page.schema.json")
        (text "Sort Definition page")

unfoldable pub resolve_reference : (url : UrlLib) → Text → Text → Result AgentError url.Url
resolve_reference url reference origin = do
  base ← map_err invalid_request (url.parse origin)
  target ← map_err invalid_response (url.join base reference)
  refuse_if
      (not (url.scheme target == text "http" || url.scheme target == text "https")
        || not (is_some (url.host target)))
      (invalid_response (text "ODP capability reference must use HTTP or HTTPS"))
  ok target

abbrev pub checked_page :
    {T : Type 0} → (Text → Result AgentError (Page T)) → Text → Result AgentError (Unit {0})
checked_page read bytes = read bytes >>= λ page. ok tt

abbrev pub State : Type 0
State = SearchCapabilityCatalog × ScopedSorts

abbrev pub capabilities_of : Option Collection → Option SearchCapabilities
capabilities_of none = none
capabilities_of (some collection) = collection.search_capabilities

module _ {W : Type 0} (client : Client W) where
  -- The loop of `load_filter_pages` and `load_sort_pages`, for the reading of a page: the pages that may still be
  -- read, and the targets and the values so far.
  unfoldable pub load_from :
      {T : Type 0}
      → (Text → Result AgentError (Page T))
      → ℕ
      → List T
      → List Text
      → Text
      → W
      → Result AgentError (List T) × W
  load_from read zero values visited next w = (
    (if is_empty next
        then ok values
        else err (invalid_response (text "ODP capability source exceeded 16 pages"))),
    w,
  )
  load_from read (suc pages) values visited next w = elim (is_empty next) [
    | true ↦ (ok values, w)
    | false ↦ elim (resolve_reference client.url next client.service_origin) [
      | err e ↦ (err e, w)
      | ok target ↦ elim (contains_name visited (client.url.as_str target)) [
        | true ↦ (err (invalid_response (text "ODP capability pagination loop detected")), w)
        | false ↦
            let (data', w') = client.linked_odp target (checked_page read) w in
            elim (data' >>= read) [
              | err e ↦ (err e, w')
              | ok page ↦
                  load_from read pages (values ++ page.items) (client.url.as_str target ∷ visited)
                    page.next w'
            ]
      ]
    ]
  ]

  unfoldable pub read_filter_page : Text → Result AgentError (Page FilterDefinition)
  read_filter_page bytes = map_err parse_error (
      normalize_agent_response client.json bytes (text "filter-page")
      >>= parse_filter_definition_page client.json client.decode_filter_page)

  unfoldable pub read_sort_page : Text → Result AgentError (Page SortDefinition)
  read_sort_page bytes = map_err parse_error (
      normalize_agent_response client.json bytes (text "sort-page")
      >>= parse_sort_definition_page client.json client.decode_sort_page)

  unfoldable pub load_filter_pages : Text → W → Result AgentError (List FilterDefinition) × W
  load_filter_pages reference w =
      load_from read_filter_page maximum_capability_pages [] [] reference w

  unfoldable pub load_sort_pages : Text → W → Result AgentError (List SortDefinition) × W
  load_sort_pages reference w = load_from read_sort_page maximum_capability_pages [] [] reference w

  -- The values of a source: those of its link, or those that it holds itself.
  unfoldable pub source_values :
      {T : Type 0}
      → (Text → W → Result AgentError (List T) × W)
      → Option CapabilityLink
      → List T
      → W
      → Result AgentError (List T) × W
  source_values load none inline w = (ok inline, w)
  source_values load (some link) inline w = load link.href w

  unfoldable pub add_filters : CapabilityScope → SearchCapabilities → State → W → State × W
  add_filters scope capabilities (catalog, sorts') w = elim capabilities.filters [
    | none ↦ ((catalog, sorts'), w)
    | some source ↦
        let (loaded, w') = source_values load_filter_pages source.linked source.inline w in
        elim loaded [
          | err e ↦ ((report filter_kind scope (client.agent_message e) catalog, sorts'), w')
          | ok values ↦ ((take_filters scope values catalog, sorts'), w')
        ]
  ]

  unfoldable pub add_sorts : CapabilityScope → SearchCapabilities → State → W → State × W
  add_sorts scope capabilities (catalog, sorts') w = elim capabilities.sorts [
    | none ↦ ((catalog, sorts'), w)
    | some source ↦
        let (loaded, w') = source_values load_sort_pages source.linked source.inline w in
        elim loaded [
          | err e ↦ ((report sort_kind scope (client.agent_message e) catalog, sorts'), w')
          | ok values ↦ (take_sorts scope values (catalog, sorts'), w')
        ]
  ]

  unfoldable pub add_source : CapabilityScope → Option SearchCapabilities → State → W → State × W
  add_source scope none state w = (state, w)
  add_source scope (some capabilities) state w =
      let (state', w') = add_filters scope capabilities state w in
      add_sorts scope capabilities state' w'

  -- What a Service and a Collection offer, once the document of the Service is there.
  unfoldable pub resolve_in : ServiceDocument → Option Collection → W → SearchCapabilityCatalog × W
  resolve_in document collection w =
      if not (any (λ value. value.name == search_offerings) document.operations)
      then (
        (if is_some (capabilities_of collection)
            then report filter_kind collection_scope
                (text "Collection search capabilities require search-offerings") empty_catalog
            else empty_catalog),
        w,
      )
      else (let (first, w') =
            add_source service_scope document.search_capabilities (empty_catalog, []) w in
          let (second, w'') = add_source collection_scope (capabilities_of collection) first w' in
          (resolve_sorts (in_order second.1) second.0, w''))

  unfoldable pub resolve_search_capabilities :
      Option Collection → W → Result AgentError SearchCapabilityCatalog × W
  resolve_search_capabilities collection w =
      let (inspection, w') = client.inspect w in
      elim inspection [
        | err e ↦ (err e, w')
        | ok document ↦ let (catalog, w'') = resolve_in document collection w' in (ok catalog, w'')
      ]

  unfoldable pub get_collection_search_capabilities :
      Text → W → Result AgentError SearchCapabilityCatalog × W
  get_collection_search_capabilities id w =
      let (found, w') = client.get_collection id w in
      elim found [
        | err e ↦ (err e, w')
        | ok collection ↦ resolve_search_capabilities (some collection) w'
      ]

  unfoldable pub get_offering_search_capabilities :
      Option Text → W → Result AgentError SearchCapabilityCatalog × W
  get_offering_search_capabilities none w = resolve_search_capabilities none w
  get_offering_search_capabilities (some id) w = get_collection_search_capabilities id w
