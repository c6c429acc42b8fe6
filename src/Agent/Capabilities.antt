-- ===== src/Agent/Capabilities.antt =====
-- crates/odp-agent/src/capabilities.rs: which filters and sorts a search may use. A `BTreeSet` is the
-- list of its names in order, and the two maps on the sorts, which change together, are one. What the
-- client does elsewhere is the record `Linked`.
pub mod Merged
pub mod Offered
pub mod Sources
pub mod Resolved
mod Tests
use odp_rust.Prelude.{
  ℕ, zero, suc, ◌+◌, Bool, true, false, not, ◌&&◌, ◌||◌, Option, none, some, List, [], ◌∷◌, ◌++◌,
  map, any, Result, ok, err, ◌>>=◌, ◌>>◌, refuse_if, map_err, ◌==◌, nat_eq, if◌then◌else◌, ltb,
  length,
}
use odp_rust.Prelude.Text.{Text, text, text_eq, text_leb, is_empty}
use odp_rust.Prelude.Maps.{Map, lookup, insert, remove, contains_key}
use odp_rust.Core.Json.{Value}
use odp_rust.Core.Models.{Operation, operation_eq, search_offerings}
use odp_rust.Core.References.{is_some}
use odp_rust.Core.References.Url.{UrlLib}
use odp_rust.Core.Documents.Services.{
  ServiceDocument, FilterDefinition, SortDefinition, SortKey, SearchCapabilities, CapabilityLink,
}
use odp_rust.Core.Documents.Resources.{Collection}
use odp_rust.Core.Documents.Searches.{Page}
use odp_rust.Core.Validation.Rules.{contains_name}
use odp_rust.Core.Validation.Parsing.{JsonLib, parse_without_refinement, normalize_agent_response}
use odp_rust.Agent.Redirects.{AgentError, invalid_request, invalid_response, parse_error}

abbrev pub maximum_capability_pages : ℕ
maximum_capability_pages = 16

abbrev pub maximum_filters : ℕ
maximum_filters = 1024

abbrev pub maximum_sorts : ℕ
maximum_sorts = 128

pub data CapabilityScope : Type 0 where
  collection_scope service_scope : CapabilityScope

pub data CapabilityKind : Type 0 where
  filter_kind sort_kind : CapabilityKind

pub record CapabilityIssue : Type 0 where
  pub kind : CapabilityKind
  pub message : Text
  pub scope : CapabilityScope

pub record ResolvedSortDefinition : Type 0 where
  pub definition : SortDefinition
  pub filters : List FilterDefinition

pub record SearchCapabilityCatalog : Type 0 where
  pub filters : Map FilterDefinition
  pub issues : List CapabilityIssue
  pub sorts : Map ResolvedSortDefinition

abbrev pub empty_catalog : SearchCapabilityCatalog
empty_catalog = record { filters = []; issues = []; sorts = [] }

abbrev pub report :
    CapabilityKind → CapabilityScope → Text → SearchCapabilityCatalog → SearchCapabilityCatalog
report kind' scope' message' catalog = record catalog {
  issues = catalog.issues ++ record { kind = kind'; message = message'; scope = scope' } ∷ [];
}

-- `insert` of a `BTreeSet`.
unfoldable pub insert_name : Text → List Text → List Text
insert_name name [] = name ∷ []
insert_name name (other ∷ names) =
    let rest = insert_name name names in
    if name == other
    then other ∷ names
    else if text_leb name other
    then name ∷ (other ∷ names)
    else other ∷ rest

unfoldable pub duplicates_from : (Text → Bool) → List Text → List Text → List Text
duplicates_from existing seen [] = []
duplicates_from existing seen (name ∷ names) =
    let rest = duplicates_from existing (name ∷ seen) names in
    if contains_name seen name || existing name then insert_name name rest else rest

unfoldable pub duplicate_ids {ℓ} : {T : Type ℓ} → List Text → Map T → List Text
duplicate_ids values existing = duplicates_from (λ name. contains_key name existing) [] values

abbrev pub kind_name : CapabilityKind → Text
kind_name filter_kind = text "filters"
kind_name sort_kind = text "sorts"

unfoldable pub joined : List Text → Text
joined [] = []
joined (name ∷ []) = name
joined (name ∷ (other ∷ names)) = let rest = joined (other ∷ names) in name ++ text ", " ++ rest

unfoldable pub report_duplicates :
    List Text → CapabilityKind → CapabilityScope → SearchCapabilityCatalog → SearchCapabilityCatalog
report_duplicates duplicates kind scope catalog =
    if not (is_empty duplicates)
    then report kind scope (text "Duplicate " ++ kind_name kind ++ text ": " ++ joined duplicates)
        catalog
    else catalog

module _ {V : Type 0} where
  unfoldable pub remove_names : List Text → Map V → Map V
  remove_names [] held = held
  remove_names (name ∷ names) held = remove_names names (remove name held)

  -- The values that are not duplicates, each under its identifier.
  unfoldable pub insert_accepted : List Text → List (Text × V) → Map V → Map V
  insert_accepted duplicates [] held = held
  insert_accepted duplicates (value ∷ values) held =
      let held' =
        if not (contains_name duplicates value.0) then insert value.0 value.1 held else held in
      insert_accepted duplicates values held'

  unfoldable pub accepted : List Text → List (Text × V) → ℕ
  accepted duplicates [] = 0
  accepted duplicates (value ∷ values) =
      let rest = accepted duplicates values in
      if not (contains_name duplicates value.0) then suc rest else rest

  -- The values of a source, merged into those of the sources before it; whether there is room.
  unfoldable pub merged : ℕ → List (Text × V) → Map V → Bool × Map V
  merged maximum values held =
      let duplicates = duplicate_ids (map (λ value. value.0) values) held in
      let left = remove_names duplicates held in
      if ltb maximum (length left + accepted duplicates values)
      then (false, left)
      else (true, insert_accepted duplicates values left)

abbrev pub filter_entries : List FilterDefinition → List (Text × FilterDefinition)
filter_entries values = map (λ value. (value.id, value)) values

unfoldable pub take_filters :
    CapabilityScope → List FilterDefinition → SearchCapabilityCatalog → SearchCapabilityCatalog
take_filters scope values catalog =
    let duplicates =
      duplicate_ids (map (λ value. value.0) (filter_entries values)) catalog.filters in
    let (fits, held) = merged maximum_filters (filter_entries values) catalog.filters in
    let catalog' : SearchCapabilityCatalog = record catalog { filters = held } in
    if fits
    then report_duplicates duplicates filter_kind scope catalog'
    else report filter_kind scope (text "Effective filters exceed 1024 entries") catalog'

abbrev pub ScopedSorts : Type 0
ScopedSorts = Map (SortDefinition × CapabilityScope)

abbrev pub sort_entries :
    CapabilityScope → List SortDefinition → List (Text × (SortDefinition × CapabilityScope))
sort_entries scope values = map (λ value. (value.id, (value, scope))) values

unfoldable pub take_sorts :
    CapabilityScope
    → List SortDefinition
    → SearchCapabilityCatalog × ScopedSorts
    → SearchCapabilityCatalog × ScopedSorts
take_sorts scope values (catalog, sorts') =
    let duplicates = duplicate_ids (map (λ value. value.0) (sort_entries scope values)) sorts' in
    let (fits, held) = merged maximum_sorts (sort_entries scope values) sorts' in
    (
      (if fits
          then report_duplicates duplicates sort_kind scope catalog
          else report sort_kind scope (text "Effective sorts exceed 128 entries") catalog),
      held,
    )

-- The filters of the keys that there are, in the order of the keys.
unfoldable pub available : Map FilterDefinition → List SortKey → List FilterDefinition
available filters [] = []
available filters (key ∷ keys) =
    let rest = available filters keys in
    elim (lookup key.filter_id filters) [ none ↦ rest | some value ↦ value ∷ rest ]

unfoldable pub insert_entry {ℓ} : {V : Type ℓ} → Text × V → Map V → Map V
insert_entry entry [] = entry ∷ []
insert_entry entry (other ∷ entries) =
    let rest = insert_entry entry entries in
    if text_leb entry.0 other.0 then entry ∷ (other ∷ entries) else other ∷ rest

-- The entries of a `BTreeMap` in the order of their keys.
unfoldable pub in_order {ℓ} : {V : Type ℓ} → Map V → Map V
in_order [] = []
in_order (entry ∷ entries) = insert_entry entry (in_order entries)

unfoldable pub resolve_sort :
    Text → SortDefinition → CapabilityScope → SearchCapabilityCatalog → SearchCapabilityCatalog
resolve_sort id definition' scope catalog =
    let filters' = available catalog.filters definition'.keys in
    if not (length filters' == length definition'.keys)
    then report sort_kind scope (text "Sort " ++ id ++ text " references an unavailable filter")
        catalog
    else record catalog {
      sorts = insert id (record { definition = definition'; filters = filters' }) catalog.sorts;
    }

unfoldable pub resolve_sorts : ScopedSorts → SearchCapabilityCatalog → SearchCapabilityCatalog
resolve_sorts [] catalog = catalog
resolve_sorts (entry ∷ entries) catalog =
    resolve_sorts entries (resolve_sort entry.0 entry.1.0 entry.1.1 catalog)
