-- ===== src/Service/StaticCatalog/WellFormed.antt =====
-- crates/odp-service/src/static_catalog.rs: which catalogs are accepted, and what they hold.
use mathlib.Core.List.{append_assoc, append-nil}
use odp_rust.Prelude.{
  ◌≡◌, ◌↔◌, refl, ap, sym, subst, ◌∙◌, Bool, true, false, not, Option, none, some, List, [], ◌∷◌,
  ◌++◌, map, Result, ok, err, ◌>>◌, refuse_if, is_ok, ◌==◌, any, find, All, arith, Bool-cases, inl,
  inr,
}
use odp_rust.Prelude.Text.{Text, text_eq, text_eq_iff}
use odp_rust.Prelude.Maps.{Map, lookup, insert, contains_key, lookup-insert}
use odp_rust.Core.Documents.Resources.{Collection, Offering}
use odp_rust.Core.Validation.Unique.{Unique}
use odp_rust.Service.Requests.{ServiceError, invalid_configuration}
use odp_rust.Service.StaticCatalog.{index_by, check_references}

step_iff :
    {E : Type 0} {B : Type 0} (step : Result E (Unit {0})) (failed : Bool) (e : E)
    (next : Result E B)
    → (is_ok (step >> (refuse_if failed e >> next)) ≡ true)
      ↔ ((step ≡ ok tt) × (failed ≡ false) × (is_ok next ≡ true))
step_iff (ok u) true e next = ((λ h. cc h), (λ h. cc (h.1)))
step_iff (ok u) false e next = ((λ h. (refl, refl, h)), (λ h. h.2))
step_iff (err e') failed e next = ((λ h. cc h), (λ h. cc (h.0)))

module _ {T : Type 0} (id_of : T → Text) (validate : T → Result ServiceError (Unit {0}))
    (message : Text) where
  -- What is held already goes before what the list holds, and the first of the list is found.
  abbrev pub found_in : Map T → List T → Text → Option T
  found_in entries values id = elim (lookup id entries) [
    | none ↦ find (λ value. id_of value == id) values
    | some value ↦ some value
  ]

  pub index_by-lookup :
      (values : List T) (entries result : Map T)
      → index_by id_of validate message values entries ≡ ok result
      → (id : Text) → lookup id result ≡ found_in entries values id
  unfolding index_by
  index_by-lookup [] entries result h id = ground arith
  index_by-lookup (value ∷ values) entries result h id =
      let absent : contains_key (id_of value) entries ≡ false = ground arith in
      let h' : index_by id_of validate message values (insert (id_of value) value entries)
          ≡ ok result =
        ground arith in
      let rest = index_by-lookup values (insert (id_of value) value entries) result h' id in
      let read = lookup-insert (id_of value) id value entries in
      elim (Bool-cases (id_of value == id)) [
        | inl same ↦
            let e = (text_eq_iff (id_of value) id).0 same in
            let absent' : contains_key id entries ≡ false =
              subst (λ k. contains_key k entries ≡ false) e absent in
            rest ∙ ground arith
        | inr differ ↦ rest ∙ ground arith
      ]

  abbrev pub Absent : Map T → List T → Type 0
  Absent entries = All (λ value. contains_key (id_of value) entries ≡ false)

  Absent_iff :
      (entries : Map T) (value other : T)
      → (contains_key (id_of other) (insert (id_of value) value entries) ≡ false)
        ↔ ((¬ (id_of value ≡ id_of other)) × (contains_key (id_of other) entries ≡ false))
  Absent_iff entries value other =
      let read = lookup-insert (id_of value) (id_of other) value entries in
      let same = text_eq_iff (id_of value) (id_of other) in
      (λ h. ground (arith, read, same), λ h. ground (arith, read, same))

  Absent-insert_iff :
      (entries : Map T) (value : T) (values : List T)
      → Absent (insert (id_of value) value entries) values
        ↔ (All (λ other. ¬ (id_of value ≡ other)) (map id_of values) × Absent entries values)
  Absent-insert_iff entries value [] = (λ h. (tt, tt), λ h. tt)
  Absent-insert_iff entries value (other ∷ values) =
      let rest = Absent-insert_iff entries value values in
      let read = lookup-insert (id_of value) (id_of other) value entries in
      let here = Absent_iff entries value other in
      (
        λ h.
            let (differ, absent) = here.0 h.0 in
            let (apart, absences) = rest.0 h.1 in ((differ, apart), (absent, absences)),
        λ h. (here.1 (h.0.0, h.1.0), rest.1 (h.0.1, h.1.1)),
      )

  pub index_by_iff :
      (values : List T) (entries : Map T)
      → (is_ok (index_by id_of validate message values entries) ≡ true) ↔ (
          All (λ value. validate value ≡ ok tt) values
          × Absent entries values
          × Unique (map id_of values))
  unfolding index_by
  index_by_iff [] entries = (λ h. (tt, tt, tt), λ h. refl)
  index_by_iff (value ∷ values) entries =
      let rest = index_by_iff values (insert (id_of value) value entries) in
      let new_name = Absent-insert_iff entries value values in
      let here =
        step_iff (validate value) (contains_key (id_of value) entries)
          (invalid_configuration message)
          (index_by id_of validate message values (insert (id_of value) value entries)) in
      (
        λ h.
            let (valid, absent, next) = here.0 h in
            let (valids, absences, unique) = rest.0 next in
            let (apart, absences') = new_name.0 absences in
            ((valid, valids), (absent, absences'), (apart, unique)),
        λ h.
            let absences = new_name.1 (h.2.0, h.1.1) in
            here.1 (h.0.0, h.1.0, rest.1 (h.0.1, absences, h.2.1)),
      )

-- The values under their identifiers, in their order.
abbrev pub by_id {ℓ} : {T : Type ℓ} → (T → Text) → List T → Map T
by_id id_of values = map (λ value. (id_of value, value)) values

insert-absent :
    {T : Type 0} (k : Text) (value : T) (entries : Map T)
    → contains_key k entries ≡ false
    → insert k value entries ≡ entries ++ (k, value) ∷ []
unfolding insert lookup
insert-absent k value [] h = refl
insert-absent k value ((j, held) ∷ entries) h = ground (arith, insert-absent k value entries)

pub index_by-by_id :
    {T : Type 0} (id_of : T → Text) (validate : T → Result ServiceError (Unit {0})) (message : Text)
    (values : List T) (entries result : Map T)
    → index_by id_of validate message values entries ≡ ok result
    → result ≡ entries ++ by_id id_of values
unfolding index_by
index_by-by_id id_of validate message [] entries result h =
    let e : entries ≡ result = cc h in sym e ∙ sym (append-nil entries)
index_by-by_id id_of validate message (value ∷ values) entries result h =
    let absent : contains_key (id_of value) entries ≡ false = ground arith in
    let h' : index_by id_of validate message values (insert (id_of value) value entries)
        ≡ ok result =
      ground arith in
    index_by-by_id id_of validate message values (insert (id_of value) value entries) result h'
    ∙ (ap (λ m. m ++ by_id id_of values) (insert-absent (id_of value) value entries absent)
        ∙ append_assoc entries ((id_of value, value) ∷ []) (by_id id_of values))

-- Every Collection that an Offering names is in the catalog.
abbrev pub IsReferring : Map Collection → List Offering → Type 0
IsReferring collections =
    All (λ value. All (λ id. contains_key id collections ≡ true) value.collection_ids)

unknown_iff :
    (collections : Map Collection) (ids : List Text)
    → (any (λ id. not (contains_key id collections)) ids ≡ false)
      ↔ All (λ id. contains_key id collections ≡ true) ids
unknown_iff collections [] = (λ h. tt, λ h. refl)
unknown_iff collections (id ∷ ids) =
    let rest = unknown_iff collections ids in
    (
      λ h. (ground arith, rest.0 (ground arith)),
      λ h. let e = rest.1 h.1 in let e' = h.0 in ground arith,
    )

pub check_references_iff :
    (collections : Map Collection) (values : List Offering)
    → (is_ok (check_references collections values) ≡ true) ↔ IsReferring collections values
unfolding check_references
check_references_iff collections [] = (λ h. tt, λ h. refl)
check_references_iff collections (value ∷ values) =
    let rest = check_references_iff collections values in
    let here = unknown_iff collections value.collection_ids in
    (
      λ h. (here.0 (ground arith), rest.0 (ground arith)),
      λ h. let e = here.1 h.0 in let e' = rest.1 h.1 in ground arith,
    )
