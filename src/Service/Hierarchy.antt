-- ===== src/Service/Hierarchy.antt =====
-- crates/odp-service/src/static_catalog.rs: how deep a Collection stands in its hierarchy. The set
-- of the Collections that are being visited is a list without repetition. The fuel is what the
-- limit on that set leaves: none is left exactly where the source refuses a 33rd Collection.
pub mod Depths
pub mod Accepted
pub mod Fuel
pub mod Sample
mod Tests
use odp_rust.Prelude.{
  ℕ, zero, suc, ◌+◌, max, Bool, not, ◌||◌, Option, none, some, List, [], ◌∷◌, ◌++◌, Result, ok, err,
  ◌>>=◌, ◌>>◌, refuse_if, ok_or, ◌==◌, if◌then◌else◌, ltb, length, retain,
}
use odp_rust.Prelude.Text.{Text, text, text_eq, text_leb}
use odp_rust.Prelude.Maps.{Map, lookup, insert}
use odp_rust.Core.Documents.Resources.{Collection}
use odp_rust.Core.Validation.Rules.{contains_name}
use odp_rust.Service.Requests.{ServiceError, invalid_configuration}

-- The depth of a Collection, with the depths that are known and the Collections being visited.
abbrev pub Visited : Type 0
Visited = ℕ × Map ℕ × List Text

abbrev pub Visit : Type 0
Visit = Text → Map ℕ → List Text → Result ServiceError Visited

abbrev pub hierarchy_cycle : ServiceError
hierarchy_cycle =
    invalid_configuration (text "Collection hierarchy contains a cycle or exceeds 32 edges")

unfoldable pub parents_depth :
    Visit → List Text → ℕ → Map ℕ → List Text → Result ServiceError Visited
parents_depth visit [] depth depths visiting = ok (depth, depths, visiting)
parents_depth visit (parent ∷ parents) depth depths visiting =
    visit parent depths visiting >>= λ r. parents_depth visit parents (max depth (1 + r.0)) r.1 r.2

unfoldable pub visit_collection : Visit → Map Collection → Visit
visit_collection visit collections id depths visiting = do
  refuse_if (ltb 32 (length visiting) || contains_name visiting id) hierarchy_cycle
  collection ←
      ok_or (lookup id collections)
        (invalid_configuration (text "Unknown parent Collection " ++ id))
  r ← parents_depth visit collection.parent_ids 0 depths (id ∷ visiting)
  refuse_if (ltb 32 r.0) (invalid_configuration (text "Collection hierarchy exceeds 32 edges"))
  ok (r.0, insert id r.0 r.1, retain (λ name. not (name == id)) r.2)

unfoldable pub collection_depth : ℕ → Map Collection → Visit
collection_depth zero collections id depths visiting = elim (lookup id depths) [
  | some depth ↦ ok (depth, depths, visiting)
  | none ↦ err hierarchy_cycle
]
collection_depth (suc fuel) collections id depths visiting =
    let visit = visit_collection (collection_depth fuel collections) collections in
    elim (lookup id depths) [
      | some depth ↦ ok (depth, depths, visiting)
      | none ↦ visit id depths visiting
    ]

abbrev pub hierarchy_limit : ℕ
hierarchy_limit = 33

-- `keys` of a `BTreeMap`, in their order.
unfoldable pub insert_key : Text → List Text → List Text
insert_key k [] = k ∷ []
insert_key k (j ∷ ks) =
    let rest = insert_key k ks in if text_leb k j then k ∷ (j ∷ ks) else j ∷ rest

unfoldable pub keys : Map Collection → List Text
keys [] = []
keys ((k, collection) ∷ entries) = insert_key k (keys entries)

unfoldable pub visit_all : Map Collection → List Text → Map ℕ → Result ServiceError (Map ℕ)
visit_all collections [] depths = ok depths
visit_all collections (id ∷ ids) depths =
    collection_depth hierarchy_limit collections id depths [] >>= λ r. visit_all collections ids r.1

-- The loop of `StaticCatalog::new` over the Collections.
unfoldable pub hierarchy_depths : Map Collection → Result ServiceError (Map ℕ)
hierarchy_depths collections = visit_all collections (keys collections) []
