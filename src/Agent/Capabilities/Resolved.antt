-- ===== src/Agent/Capabilities/Resolved.antt =====
-- crates/odp-agent/src/capabilities.rs: what a catalog of capabilities holds once it is resolved.
use odp_rust.Prelude.{
  ℕ, suc, ◌+◌, ◌≡◌, ◌≤◌, refl, ap, sym, subst, Option, none, some, List, [], ◌∷◌, map, All, ok, err,
  any, ◌==◌, nat_eq, length, Bool-cases, Option-cases, Result-cases, inl, inr, arith,
}
use odp_rust.Prelude.Text.{Text, text_eq, is_empty}
use odp_rust.Prelude.Maps.{Map, lookup, insert, length-insert}
use odp_rust.Core.Models.{operation_eq, search_offerings}
use odp_rust.Core.Documents.Services.{
  ServiceDocument, FilterDefinition, SortDefinition, SearchCapabilities,
}
use odp_rust.Core.Documents.Resources.{Collection}
use odp_rust.Agent.Capabilities.{
  SearchCapabilityCatalog, ResolvedSortDefinition, ScopedSorts, CapabilityScope, CapabilityKind,
  empty_catalog, report_duplicates, take_filters, take_sorts, filter_entries, sort_entries, merged,
  maximum_filters, maximum_sorts, available, resolve_sort, resolve_sorts, in_order,
  collection_scope, service_scope, duplicate_ids,
}
use odp_rust.Agent.Capabilities.Merged.{merged_bound, length-in_order, available_lem}
use odp_rust.Agent.Capabilities.Sources.{
  Client, State, add_filters, add_sorts, add_source, resolve_in, resolve_search_capabilities,
  capabilities_of, source_values, load_filter_pages, load_sort_pages,
}

-- The filters of a sort are those of its keys.
abbrev pub IsUsable : Map FilterDefinition → ResolvedSortDefinition → Type 0
IsUsable filters sort =
    map (λ value. some value) sort.filters
    ≡ map (λ key. lookup key.filter_id filters) sort.definition.keys

abbrev pub IsResolved : SearchCapabilityCatalog → Type 0
IsResolved catalog =
    (length catalog.filters ≤ 1024)
    × (length catalog.sorts ≤ 128)
    × All (λ entry. IsUsable catalog.filters entry.1) catalog.sorts

-- What is known before the sorts are resolved.
abbrev IsGathered : State → Type 0
IsGathered state = (length state.0.filters ≤ 1024) × (state.0.sorts ≡ []) × (length state.1 ≤ 128)

module _ (P : Text × ResolvedSortDefinition → Type 0) where
  All-insert :
      (id : Text) (sort : ResolvedSortDefinition) (sorts : Map ResolvedSortDefinition)
      → P (id, sort)
      → All P sorts
      → All P (insert id sort sorts)
  unfolding insert
  All-insert id sort [] p h = (p, tt)
  All-insert id sort (entry ∷ sorts) p (q, h) = elim (Bool-cases (entry.0 == id)) [
    | inl same ↦ rw (insert, same) (p, h)
    | inr other ↦ rw (insert, other) (q, All-insert id sort sorts p h)
  ]

resolve_sort-IsResolved :
    (room : ℕ) (id : Text) (definition : SortDefinition) (scope : CapabilityScope)
    (catalog : SearchCapabilityCatalog)
    → length catalog.sorts + suc room ≤ 128
    → IsResolved catalog
    → (length (resolve_sort id definition scope catalog).sorts + room ≤ 128)
      × IsResolved (resolve_sort id definition scope catalog)
unfolding resolve_sort
resolve_sort-IsResolved room id definition scope catalog low (few, sorted, usable) =
    let filters = available catalog.filters definition.keys in
    elim (Bool-cases (length filters == length definition.keys)) [
      | inl whole ↦
          let same : length filters ≡ length definition.keys = ground arith in
          let sort : ResolvedSortDefinition = record {
            definition = definition;
            filters = filters;
          } in
          let more = length-insert id sort catalog.sorts in
          rw (resolve_sort, whole)
            (
              omega (arith, low, more),
              (
                few,
                omega (arith, low, more),
                All-insert (λ entry. IsUsable catalog.filters entry.1) id sort catalog.sorts
                    (available_lem catalog.filters definition.keys same) usable,
              ),
            )
      | inr part ↦ rw (resolve_sort, part) (omega (arith, low), (few, sorted, usable))
    ]

resolve_sorts-IsResolved :
    (entries : ScopedSorts) (catalog : SearchCapabilityCatalog)
    → length catalog.sorts + length entries ≤ 128
    → IsResolved catalog
    → IsResolved (resolve_sorts entries catalog)
unfolding resolve_sorts
resolve_sorts-IsResolved [] catalog low h = h
resolve_sorts-IsResolved (entry ∷ entries) catalog low h =
    let (left, kept) =
      resolve_sort-IsResolved (length entries) entry.0 entry.1.0 entry.1.1 catalog low h in
    resolve_sorts-IsResolved entries (resolve_sort entry.0 entry.1.0 entry.1.1 catalog) left kept

report_duplicates-IsGathered :
    (duplicates : List Text) (kind : CapabilityKind) (scope : CapabilityScope)
    (catalog : SearchCapabilityCatalog) (sorts : ScopedSorts)
    → IsGathered (catalog, sorts)
    → IsGathered (report_duplicates duplicates kind scope catalog, sorts)
unfolding report_duplicates
report_duplicates-IsGathered duplicates kind scope catalog sorts h =
    elim (Bool-cases (is_empty duplicates)) [
      | inl nothing ↦ rw (report_duplicates, nothing) h
      | inr something ↦ rw (report_duplicates, something) h
    ]

take_filters-IsGathered :
    (scope : CapabilityScope) (values : List FilterDefinition) (catalog : SearchCapabilityCatalog)
    (sorts : ScopedSorts)
    → IsGathered (catalog, sorts)
    → IsGathered (take_filters scope values catalog, sorts)
unfolding take_filters
take_filters-IsGathered scope values catalog sorts (low, fresh, few) =
    let taken = merged maximum_filters (filter_entries values) catalog.filters in
    let fewer : length taken.1 ≤ 1024 =
      merged_bound 1024 (filter_entries values) catalog.filters low in
    elim (Bool-cases taken.0) [
      | inl fits ↦
          rw (take_filters, fits)
            (report_duplicates-IsGathered
              (duplicate_ids (map (λ value. value.0) (filter_entries values)) catalog.filters) _
              scope (record catalog { filters = taken.1 }) sorts (fewer, fresh, few))
      | inr full ↦ rw (take_filters, full) (fewer, fresh, few)
    ]

take_sorts-IsGathered :
    (scope : CapabilityScope) (values : List SortDefinition) (catalog : SearchCapabilityCatalog)
    (sorts : ScopedSorts)
    → IsGathered (catalog, sorts)
    → IsGathered (take_sorts scope values (catalog, sorts))
unfolding take_sorts
take_sorts-IsGathered scope values catalog sorts (low, fresh, few) =
    let taken = merged maximum_sorts (sort_entries scope values) sorts in
    let fewer : length taken.1 ≤ 128 = merged_bound 128 (sort_entries scope values) sorts few in
    elim (Bool-cases taken.0) [
      | inl fits ↦
          rw (take_sorts, fits)
            (report_duplicates-IsGathered
              (duplicate_ids (map (λ value. value.0) (sort_entries scope values)) sorts) _ scope
              catalog taken.1 (low, fresh, fewer))
      | inr full ↦ rw (take_sorts, full) (low, fresh, fewer)
    ]

module _ {W : Type 0} (client : Client W) where
  add_filters-IsGathered :
      (scope : CapabilityScope) (capabilities : SearchCapabilities)
      (catalog : SearchCapabilityCatalog) (sorts : ScopedSorts) (w : W)
      → IsGathered (catalog, sorts)
      → IsGathered (add_filters client scope capabilities (catalog, sorts) w).0
  unfolding add_filters
  add_filters-IsGathered scope capabilities catalog sorts w h =
      elim (Option-cases capabilities.filters) [
        | inl missing ↦ rw (add_filters, missing) h
        | inr (source, e) ↦
            elim (Result-cases
              (source_values client (load_filter_pages client) source.linked source.inline w).0) [
                | inl (values, loaded) ↦
                    rw (add_filters, e, loaded)
                      (take_filters-IsGathered scope values catalog sorts h)
                | inr (error, failed) ↦ rw (add_filters, e, failed) h
              ]
      ]

  add_sorts-IsGathered :
      (scope : CapabilityScope) (capabilities : SearchCapabilities)
      (catalog : SearchCapabilityCatalog) (sorts : ScopedSorts) (w : W)
      → IsGathered (catalog, sorts)
      → IsGathered (add_sorts client scope capabilities (catalog, sorts) w).0
  unfolding add_sorts
  add_sorts-IsGathered scope capabilities catalog sorts w h =
      elim (Option-cases capabilities.sorts) [
        | inl missing ↦ rw (add_sorts, missing) h
        | inr (source, e) ↦
            elim (Result-cases
              (source_values client (load_sort_pages client) source.linked source.inline w).0) [
                | inl (values, loaded) ↦
                    rw (add_sorts, e, loaded) (take_sorts-IsGathered scope values catalog sorts h)
                | inr (error, failed) ↦ rw (add_sorts, e, failed) h
              ]
      ]

  add_source-IsGathered :
      (scope : CapabilityScope) (capabilities : Option SearchCapabilities) (state : State) (w : W)
      → IsGathered state
      → IsGathered (add_source client scope capabilities state w).0
  unfolding add_source
  add_source-IsGathered scope none state w h = h
  add_source-IsGathered scope (some capabilities) state w h =
      let (state', w') = add_filters client scope capabilities state w in
      add_sorts-IsGathered scope capabilities state'.0 state'.1 w'
        (add_filters-IsGathered scope capabilities state.0 state.1 w h)

  resolve_in-IsResolved :
      (document : ServiceDocument) (collection : Option Collection) (w : W)
      → IsResolved (resolve_in client document collection w).0
  unfolding resolve_in
  resolve_in-IsResolved document collection w =
      elim (Bool-cases (any (λ value. value.name == search_offerings) document.operations)) [
        | inl searches ↦
            let (first, w') =
              add_source client service_scope document.search_capabilities (empty_catalog, []) w in
            let (second, w'') =
              add_source client collection_scope (capabilities_of collection) first w' in
            let (few, fresh, sorted) =
              add_source-IsGathered collection_scope (capabilities_of collection) first w' (
                add_source-IsGathered service_scope document.search_capabilities (empty_catalog, [])
                  w (omega arith, refl, omega arith)) in
            let counted = length-in_order second.1 in
            let none_yet : length second.0.sorts ≡ 0 = ap length fresh in
            rw (resolve_in, searches)
              (resolve_sorts-IsResolved (in_order second.1) second.0
                (omega (arith, counted, none_yet, sorted))
                (
                  few,
                  omega (arith, none_yet),
                  subst (λ sorts. All (λ entry. IsUsable second.0.filters entry.1) sorts)
                      (sym fresh) tt,
                ))
        | inr never ↦ elim (Option-cases (capabilities_of collection)) [
          | inl missing ↦ rw (resolve_in, never, missing) (omega arith, omega arith, tt)
          | inr (capabilities, e) ↦ rw (resolve_in, never, e) (omega arith, omega arith, tt)
        ]
      ]

  -- Whatever the Service, the Collection and their links give, a catalog that is resolved has at most
  -- 1024 filters and 128 sorts, and the filters of each sort are those that the catalog has for the
  -- keys of the sort, one for each key and in their order.
  pub resolve_search_capabilities-IsResolved :
      (collection : Option Collection) (w : W) (catalog : SearchCapabilityCatalog)
      → (resolve_search_capabilities client collection w).0 ≡ ok catalog
      → IsResolved catalog
  unfolding resolve_search_capabilities
  resolve_search_capabilities-IsResolved collection w catalog h =
      let (inspection, w') = client.inspect w in
      elim (Result-cases inspection) [
        | inl (document, inspected) ↦
            let found : (resolve_search_capabilities client collection w).0
                ≡ ok (resolve_in client document collection w').0 =
              rw (resolve_search_capabilities, inspected) refl in
            let same : (resolve_in client document collection w').0 ≡ catalog = cc (found, h) in
            subst IsResolved same (resolve_in-IsResolved document collection w')
        | inr (error, failed) ↦
            let found : (resolve_search_capabilities client collection w).0 ≡ err error =
              rw (resolve_search_capabilities, failed) refl in
            absurd (cc (found, h))
      ]
