-- ===== src/Service/Routing/Tests.antt =====
-- Runs of the routing, and its theorem at a concrete operation.
use odp_rust.Prelude.{◌≡◌, refl, some, none}
use odp_rust.Prelude.Text.{text, text_beq, strip_prefix, strip_suffix}
use odp_rust.Core.Models.{get_collection, get_offering, list_collection_offerings, search_offerings}
use odp_rust.Core.References.{operation_method, path_of, is_local_resource_identifier}
use odp_rust.Core.References.Paths.{IsLocal, is_local_resource_identifier_iff}
use odp_rust.Service.Routing.{path_operation}
use odp_rust.Service.Routing.RoundTrip.{path_operation-operation_path}

plant-IsLocal : IsLocal (text "plant-1")
unfolding is_local_resource_identifier text_beq
plant-IsLocal = (is_local_resource_identifier_iff (text "plant-1")).0 refl

offerings-IsLocal : IsLocal (text "offerings")
unfolding is_local_resource_identifier text_beq
offerings-IsLocal = (is_local_resource_identifier_iff (text "offerings")).0 refl

routed :
    (path_operation (text "POST") (text "/offerings/search") ≡ some search_offerings)
    × (path_operation (text "PUT") (text "/offerings/search") ≡ none)
    × (path_operation (text "GET") (text "/collections/plants/offerings")
        ≡ some list_collection_offerings)
    × (path_operation (text "GET") (text "/collections/offerings") ≡ some list_collection_offerings)
    × (path_operation (text "GET") (text "/collections/plants") ≡ some get_collection)
unfolding path_operation text_beq strip_prefix strip_suffix
routed = (refl, refl, refl, refl, refl)

path_operation-operation_path_example :
    path_operation (operation_method get_offering) (path_of get_offering (text "plant-1"))
    ≡ some get_offering
unfolding text_beq
path_operation-operation_path_example =
    path_operation-operation_path get_offering (some (text "plant-1")) (refl, plant-IsLocal)
