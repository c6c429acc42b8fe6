-- ===== src/Service/Routing/RoundTrip.antt =====
-- The Service's reading of the paths that references.rs builds.
use odp_rust.Prelude.{
  ℕ, ◌≡◌, ◌≢◌, refl, [], ◌∷◌, ◌++◌, arith, some, none, Option, sym, ◌∙◌, ◌==◌, if◌then◌else◌,
  Option-cases, inl, inr, Bool-cases, subst,
}
use odp_rust.Prelude.Text.{
  Text, text, text_eq, text_beq, text_eq_iff, strip_prefix, strip_suffix, ends_with,
}
use odp_rust.Prelude.Text.Laws.{Lacks, last_inj, strip_suffix-append, strip_suffix_inv}
use odp_rust.Core.Models.{
  Operation, get_collection, get_offering, list_collection_offerings, list_collections,
  list_offerings, search_collections, search_offerings,
}
use odp_rust.Core.References.{operation_method, path_of, or_default}
use odp_rust.Core.References.Paths.{Takes, IsLocal-Lacks}
use odp_rust.Service.Routing.{path_operation}

-- The operation that the Service reads. The paths of the searches are reserved, and the collection
-- called `offerings` has a path that ends like a list of offerings.
abbrev pub dispatched : Operation → Text → Operation
dispatched get_offering id = if id == text "search" then search_offerings else get_offering
dispatched get_collection id =
    if id == text "search"
    then search_collections
    else if id == text "offerings"
    then list_collection_offerings
    else get_collection
dispatched operation id = operation

read_offering :
    (id : Text)
    → path_operation (text "GET") (text "/offerings/" ++ id) ≡ some (dispatched get_offering id)
unfolding path_operation text_beq strip_prefix
read_offering id = ground (arith, text_eq_iff id (text "search"), text_eq_iff (text "search") id)

offerings_suffix :
    strip_suffix (text "/offerings") (text "/collections/offerings") ≡ some (text "/collections")
unfolding strip_suffix
offerings_suffix = refl

-- Where no slash follows, only the collection called `offerings` has such a path.
ends_with_offerings :
    (id : Text)
    → Lacks 47 id
    → ends_with (text "/offerings") (text "/collections/" ++ id) ≡ (id == text "offerings")
ends_with_offerings id h =
    elim (Option-cases (strip_suffix (text "/offerings") (text "/collections/" ++ id))) [
      | inl missed ↦ elim (Bool-cases (id == text "offerings")) [
        | inl same ↦
            let e = (text_eq_iff id (text "offerings")).0 same in
            let clash : none ≡ some (text "/collections") =
              sym (rw e at missed) ∙ offerings_suffix in
            cc clash
        | inr other ↦ ground arith
      ]
      | inr (r, found) ↦
          let e = strip_suffix_inv (text "/offerings") (text "/collections/" ++ id) r found in
          let same = last_inj 47 (text "/collections") id r (text "offerings") h (omega arith) e in
          let named = (text_eq_iff id (text "offerings")).1 same in ground arith
    ]

read_collection :
    (id : Text)
    → Lacks 47 id
    → path_operation (text "GET") (text "/collections/" ++ id) ≡ some (dispatched get_collection id)
unfolding path_operation text_beq strip_prefix
read_collection id h = ground (
  arith,
  text_eq_iff id (text "search"),
  text_eq_iff (text "search") id,
  ends_with_offerings id h,
)

Lacks-append_self : (c : ℕ) (a b : Text) → Lacks c (a ++ c ∷ b) → ⊥
Lacks-append_self c [] b h = h.0 refl
Lacks-append_self c (x ∷ a) b h = Lacks-append_self c a b h.1

not_search : (id : Text) → id ++ text "/offerings" ≢ text "search"
not_search id e =
    Lacks-append_self 47 id (text "offerings") (subst (Lacks 47) (sym e) (omega arith))

read_collection_offerings :
    (id : Text)
    → path_operation (text "GET") (text "/collections/" ++ (id ++ text "/offerings"))
      ≡ some list_collection_offerings
unfolding path_operation text_beq strip_prefix
read_collection_offerings id = ground (
  arith,
  text_eq_iff (id ++ text "/offerings") (text "search"),
  text_eq_iff (text "search") (id ++ text "/offerings"),
  not_search id,
  strip_suffix-append (text "/collections/" ++ id) (text "/offerings"),
)

-- The Service reads the method and path that are built for an operation as that operation, but for
-- an Offering or Collection called `search`, read as the search, and a Collection called
-- `offerings`, read as a list of Offerings.
pub path_operation-operation_path :
    (operation : Operation) (id : Option Text)
    → Takes operation id
    → path_operation (operation_method operation) (path_of operation (or_default id))
      ≡ some (dispatched operation (or_default id))
unfolding operation_method
path_operation-operation_path get_collection (some id) h =
    read_collection id (IsLocal-Lacks id h.1.unreserved).0
path_operation-operation_path get_offering (some id) h = read_offering id
path_operation-operation_path list_collection_offerings (some id) h = read_collection_offerings id
path_operation-operation_path list_collections none h = unfold path_operation text_beq in refl
path_operation-operation_path list_offerings none h = unfold path_operation text_beq in refl
path_operation-operation_path search_collections none h = unfold path_operation text_beq in refl
path_operation-operation_path search_offerings none h = unfold path_operation text_beq in refl
path_operation-operation_path get_collection none h = cc
path_operation-operation_path get_offering none h = cc
path_operation-operation_path list_collection_offerings none h = cc
path_operation-operation_path list_collections (some id) h = cc (h.0)
path_operation-operation_path list_offerings (some id) h = cc (h.0)
path_operation-operation_path search_collections (some id) h = cc (h.0)
path_operation-operation_path search_offerings (some id) h = cc (h.0)
