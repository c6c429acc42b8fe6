-- ===== src/Service/StaticCatalog/Accepted.antt =====
-- crates/odp-service/src/static_catalog.rs: which catalogs are accepted, and what an accepted one
-- answers.
use mathlib.Core.Option
use odp_rust.Prelude.{
  ℕ, ◌≡◌, ◌↔◌, refl, ap, sym, subst, true, false, List, [], ◌∷◌, map, ok, is_ok, is_ok_inv, ◌==◌,
  find, All, arith,
}
use odp_rust.Prelude.Text.{Text, text, text_eq}
use odp_rust.Prelude.Maps.{Map, lookup}
use odp_rust.Core.Documents.Resources.{Collection, Offering}
use odp_rust.Core.Validation.Unique.{Unique}
use odp_rust.Service.Requests.{CatalogRequest}
use odp_rust.Service.Hierarchy.{hierarchy_depths}
use odp_rust.Service.Hierarchy.Depths.{Height}
use odp_rust.Service.Hierarchy.Accepted.{hierarchy_depths_iff}
use odp_rust.Service.StaticCatalog.{
  StaticCatalog, StaticCatalogOptions, CatalogLib, validate_offering, validate_collection, index_by,
  check_references, new_static_catalog, offering_representation,
}
use odp_rust.Service.StaticCatalog.Operations.{get_offering}
use odp_rust.Service.StaticCatalog.WellFormed.{
  by_id, index_by-by_id, index_by-lookup, index_by_iff, check_references_iff, IsReferring,
}

abbrev offering_id : Offering → Text
offering_id value = value.id

abbrev collection_id : Collection → Text
collection_id value = value.id

All-absent : {T : Type 0} (values : List T) → All (λ value. false ≡ false) values
All-absent [] = tt
All-absent (value ∷ values) = (refl, All-absent values)

module _ (lib : CatalogLib) (options : StaticCatalogOptions) where
  abbrev AreValid : Type 0
  AreValid =
      All (λ value. validate_offering lib value ≡ ok tt) options.offerings
      × All (λ value. validate_collection lib value ≡ ok tt) options.collections

  abbrev AreUnique : Type 0
  AreUnique =
      Unique (map offering_id options.offerings) × Unique (map collection_id options.collections)

  abbrev collections_by_id : Map Collection
  collections_by_id = by_id collection_id options.collections

  abbrev IsHierarchy : Type 0
  IsHierarchy = All (λ entry. Height collections_by_id 33 entry.0) collections_by_id

  abbrev offerings_message : Text
  offerings_message = text "Offering identifiers must be unique"

  abbrev collections_message : Text
  collections_message = text "Collection identifiers must be unique"

  -- The steps of a construction that succeeds.
  abbrev Steps : Type 0
  Steps =
      (key : Text) × (lib.fill ≡ ok key)
      × (offering_by_id : Map Offering) × (index_by offering_id (validate_offering lib)
            offerings_message options.offerings []
          ≡ ok offering_by_id)
      × (collection_by_id : Map Collection) × (index_by collection_id (validate_collection lib)
            collections_message options.collections []
          ≡ ok collection_by_id)
      × (check_references collection_by_id options.offerings ≡ ok tt)
      × (depths : Map ℕ) × (hierarchy_depths collection_by_id ≡ ok depths)

  steps_inv : (catalog : StaticCatalog) → new_static_catalog lib options ≡ ok catalog → Steps
  unfolding new_static_catalog
  steps_inv catalog h =
      let ranked : is_ok (hierarchy_depths catalog.collection_by_id) ≡ true = ground arith in
      let (depths, e) = is_ok_inv (hierarchy_depths catalog.collection_by_id) ranked in
      (
        catalog.continuation_key,
        ground arith,
        catalog.offering_by_id,
        ground arith,
        catalog.collection_by_id,
        ground arith,
        ground arith,
        depths,
        e,
      )

  steps_intro : Steps → is_ok (new_static_catalog lib options) ≡ true
  unfolding new_static_catalog
  steps_intro (key, filled, offerings, indexed, collections, indexed', referred, depths, ranked) =
      ground arith

  -- A catalog is made exactly when there is a key, every Offering and Collection is valid, their
  -- identifiers are unique, every Collection that an Offering names is there, and the hierarchy of
  -- the Collections is complete and at most 32 edges deep.
  pub new_static_catalog_iff : (is_ok (new_static_catalog lib options) ≡ true) ↔ (
      (is_ok lib.fill ≡ true)
      × AreValid
      × AreUnique
      × IsReferring collections_by_id options.offerings
      × IsHierarchy)
  unfolding lookup
  new_static_catalog_iff =
      let offerings_iff =
        index_by_iff offering_id (validate_offering lib) offerings_message options.offerings [] in
      let collections_iff =
        index_by_iff collection_id (validate_collection lib) collections_message options.collections
          [] in
      let held =
        index_by-by_id collection_id (validate_collection lib) collections_message
          options.collections [] in
      (
        λ h.
            let (catalog, made) = is_ok_inv (new_static_catalog lib options) h in
            let (key, filled, offerings, indexed, collections, indexed', referred, depths, ranked) =
              steps_inv catalog made in
            let (valid, absent, unique) = offerings_iff.0 (ap is_ok indexed) in
            let (valid', absent', unique') = collections_iff.0 (ap is_ok indexed') in
            let e = held collections indexed' in
            (
              ap is_ok filled,
              (valid, valid'),
              (unique, unique'),
              subst (λ m. IsReferring m options.offerings) e
                  ((check_references_iff collections options.offerings).0 (ap is_ok referred)),
              subst (λ m. All (λ entry. Height m 33 entry.0) m) e
                  ((hierarchy_depths_iff collections).0 (ap is_ok ranked)),
            ),
        λ (filled, valid, unique, referring, hierarchy).
            let (key, e) = is_ok_inv lib.fill filled in
            let (offerings, indexed) =
              is_ok_inv
                (index_by offering_id (validate_offering lib) offerings_message options.offerings
                  [])
                (offerings_iff.1 (valid.0, All-absent options.offerings, unique.0)) in
            let (collections, indexed') =
              is_ok_inv
                (index_by collection_id (validate_collection lib) collections_message
                  options.collections [])
                (collections_iff.1 (valid.1, All-absent options.collections, unique.1)) in
            let same = sym (held collections indexed') in
            let (done, referred) = is_ok_inv (check_references collections options.offerings) (
              (check_references_iff collections options.offerings).1
                (subst (λ m. IsReferring m options.offerings) same referring)) in
            let (depths, ranked) = is_ok_inv (hierarchy_depths collections) (
              (hierarchy_depths_iff collections).1
                (subst (λ m. All (λ entry. Height m 33 entry.0) m) same hierarchy)) in
            steps_intro
              (key, e, offerings, indexed, collections, indexed', referred, depths, ranked),
      )

  -- A catalog that was made answers for an identifier with the representation of the Offering of the
  -- list that has it, and with none where no Offering has it.
  pub get_offering-find :
      (catalog : StaticCatalog)
      → new_static_catalog lib options ≡ ok catalog
      → (id : Text) (request : CatalogRequest)
      → get_offering catalog id request
        ≡ ok (
            Option.map
              (λ value. offering_representation value request.representation false)
              (find (λ value. value.id == id) options.offerings))
  unfolding new_static_catalog get_offering lookup
  get_offering-find catalog h id request =
      let h' : index_by offering_id (validate_offering lib)
            (text "Offering identifiers must be unique") options.offerings []
          ≡ ok catalog.offering_by_id =
        ground arith in
      ap
        (λ found.
          ok (
            Option.map (λ value. offering_representation value request.representation false) found))
        (index_by-lookup offering_id (validate_offering lib)
          (text "Offering identifiers must be unique") options.offerings [] catalog.offering_by_id
          h' id)
