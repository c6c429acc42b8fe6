-- ===== src/Service/Hierarchy/Tests.antt =====
-- A hierarchy of three Collections, and the theorems at it.
use odp_rust.Prelude.{◌≡◌, ◌↔◌, refl, true, [], ◌∷◌, ok, err, is_ok, All, arith}
use odp_rust.Prelude.Text.{text, text_beq, text_leb}
use odp_rust.Prelude.Maps.{Map, lookup, insert}
use odp_rust.Core.Documents.Resources.{Collection}
use odp_rust.Service.Hierarchy.{
  parents_depth, visit_collection, collection_depth, hierarchy_cycle, insert_key, keys, visit_all,
  hierarchy_depths,
}
use odp_rust.Service.Hierarchy.Sample.{named}
use odp_rust.Service.Hierarchy.Depths.{Height, Known}
use odp_rust.Service.Hierarchy.Accepted.{hierarchy_depths_iff}
use odp_rust.Service.Hierarchy.Fuel.{collection_depth_fuel}

abbrev plants : Map Collection
plants =
    (text "cacti", named (text "cacti") (text "succulents" ∷ (text "plants" ∷ [])))
    ∷ ((text "plants", named (text "plants") [])
        ∷ ((text "succulents", named (text "succulents") (text "plants" ∷ [])) ∷ []))

abbrev loop : Map Collection
loop =
    (text "a", named (text "a") (text "b" ∷ []))
    ∷ ((text "b", named (text "b") (text "a" ∷ [])) ∷ [])

depths_of_plants :
    hierarchy_depths plants
    ≡ ok ((text "plants", 0) ∷ ((text "succulents", 1) ∷ ((text "cacti", 2) ∷ [])))
unfolding parents_depth visit_collection collection_depth insert_key keys visit_all hierarchy_depths
    lookup insert text_beq text_leb
depths_of_plants = refl

depths_of_loop : hierarchy_depths loop ≡ err hierarchy_cycle
unfolding parents_depth visit_collection collection_depth insert_key keys visit_all hierarchy_depths
    lookup insert text_beq text_leb
depths_of_loop = refl

hierarchy_depths_iff_example :
    (is_ok (hierarchy_depths plants) ≡ true) ↔ All (λ entry. Height plants 33 entry.0) plants
hierarchy_depths_iff_example = hierarchy_depths_iff plants

Known-nothing : Known plants []
unfolding lookup
Known-nothing id depth h = cc

visited_cacti :
    collection_depth 33 plants (text "cacti") [] []
    ≡ ok (2, (text "plants", 0) ∷ ((text "succulents", 1) ∷ ((text "cacti", 2) ∷ [])), [])
unfolding parents_depth visit_collection collection_depth lookup insert text_beq
visited_cacti = refl

collection_depth_fuel_example :
    collection_depth 34 loop (text "a") [] [] ≡ collection_depth 33 loop (text "a") [] []
collection_depth_fuel_example = collection_depth_fuel 33 loop (text "a") [] [] (omega arith)
