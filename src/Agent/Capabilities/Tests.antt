-- ===== src/Agent/Capabilities/Tests.antt =====
-- The filters and sorts of a Service whose Collection offers one of the filters again.
use odp_rust.Prelude.{ℕ, suc, Option, ◌≡◌, refl, false, some, none, List, [], ◌∷◌, ok, err}
use odp_rust.Prelude.Text.{Text, text, text_beq, text_leb}
use odp_rust.Prelude.Maps.{lookup, insert, remove}
use odp_rust.Core.Models.{search_offerings}
use odp_rust.Core.References.Toy.{toy}
use odp_rust.Core.Documents.Enums.{not_required, number_filter, ascending, last}
use odp_rust.Core.Documents.Services.{
  ServiceDocument, FilterDefinition, SortDefinition, SearchCapabilities,
}
use odp_rust.Core.Validation.Rules.{LanguageTag}
use odp_rust.Agent.Redirects.{invalid_request}
use odp_rust.Agent.Capabilities.{
  SearchCapabilityCatalog, merged, remove_names, insert_accepted, accepted, duplicate_ids,
  duplicates_from, insert_name, filter_entries, take_filters, take_sorts, report_duplicates,
  resolve_sorts, resolve_sort, available, in_order, insert_entry,
}
use odp_rust.Agent.Capabilities.Offered.{sole, offers, merged-sole}
use odp_rust.Agent.Capabilities.Resolved.{IsResolved, resolve_search_capabilities-IsResolved}
use odp_rust.Agent.Capabilities.Sources.{
  Client, resolve_search_capabilities, resolve_in, add_source, add_filters, add_sorts,
  source_values,
}

abbrev filter_named : Text → FilterDefinition
filter_named id = record {
  description = [];
  id = id;
  operators = [];
  refinable = false;
  title = id;
  filter_type = number_filter;
  unit = none;
  additional = [];
}

abbrev offered : List FilterDefinition
offered = filter_named (text "size") ∷ (filter_named (text "price") ∷ [])

-- The price that was held is offered again.
merged-sole_example :
    lookup
      (text "price")
      (merged 1024 (filter_entries offered) (filter_entries (filter_named (text "price") ∷ []))).1
    ≡ sole (text "price") (
        offers
          (text "price")
          (filter_entries offered)
          (filter_entries (filter_named (text "price") ∷ [])))
unfolding merged remove_names insert_accepted accepted duplicate_ids duplicates_from insert_name
    lookup insert remove text_beq text_leb
merged-sole_example =
    merged-sole (text "price") 1024 (filter_entries offered)
      (filter_entries (filter_named (text "price") ∷ [])) refl

abbrev lowest : SortDefinition
lowest = record {
  description = [];
  id = text "lowest";
  keys =
      record { direction = ascending; filter_id = text "price"; missing = last; additional = [] }
      ∷ [];
  title = text "Lowest price";
  additional = [];
}

abbrev capabilities : SearchCapabilities
capabilities = record {
  filters = some (record { inline = offered; linked = none; additional = [] });
  sorts = some (record { inline = lowest ∷ []; linked = none; additional = [] });
  additional = [];
}

abbrev plants : ServiceDocument
plants = record {
  branding = none;
  description = [];
  documentation_url = [];
  http = record { endpoint_base = text "/odp"; openapi = none; additional = [] };
  keywords = [];
  language = text "en";
  localizations = text "en" ∷ [];
  mcp = [];
  name = text "Plants";
  odp_version = text "1.0";
  operations = record { authentication = not_required; name = search_offerings } ∷ [];
  payment_origins = [];
  protocols = none;
  search_capabilities = some capabilities;
  status_url = [];
  support_url = [];
  website_url = [];
  additional = [];
}

abbrev no_language : Text → Option LanguageTag
no_language tag = none

-- A client that counts its inspections.
abbrev client : Client ℕ
client = record {
  json = record {
    from_slice = λ bytes. err [];
    to_text = λ v. [];
    schemas = ok [];
    parse_tag = no_language;
    bucket_key = λ v. [];
  };
  url = toy;
  service_origin = text "https://plants.example";
  linked_odp = λ target check calls. (ok [], calls);
  decode_filter_page = λ v. err [];
  decode_sort_page = λ v. err [];
  inspect = λ calls. (ok plants, suc calls);
  get_collection = λ id calls. (err (invalid_request id), calls);
  agent_message = λ e. [];
}

abbrev resolved : SearchCapabilityCatalog
resolved = record {
  filters = filter_entries offered;
  issues = [];
  sorts =
      (text "lowest", record { definition = lowest; filters = filter_named (text "price") ∷ [] })
      ∷ [];
}

resolves : (resolve_search_capabilities client none 0).0 ≡ ok resolved
unfolding resolve_search_capabilities resolve_in add_source add_filters add_sorts source_values
    take_filters take_sorts merged remove_names insert_accepted accepted duplicate_ids
    duplicates_from insert_name report_duplicates resolve_sorts resolve_sort available in_order
    insert_entry lookup insert remove text_beq text_leb
resolves = refl

resolve_search_capabilities-IsResolved_example : IsResolved resolved
resolve_search_capabilities-IsResolved_example =
    resolve_search_capabilities-IsResolved client none 0 resolved resolves
