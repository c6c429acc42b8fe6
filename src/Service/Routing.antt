-- ===== src/Service/Routing.antt =====
-- The routing of crates/odp-service/src/service.rs: which operation a method and a path name.
pub mod RoundTrip
mod Tests
use odp_rust.Prelude.{
  ℕ, Bool, true, false, ◌&&◌, ◌||◌, List, [], ◌∷◌, Option, none, some, ◌==◌, if◌then◌else◌, any,
}
use odp_rust.Prelude.Text.{
  Text, text, text_eq, text_beq, starts_with, strip_prefix, strip_suffix, ends_with,
}
use odp_rust.Core.Models.{
  Operation, get_collection, get_offering, list_collection_offerings, list_collections,
  list_offerings, search_collections, search_offerings,
}

abbrev pub reserved_paths : List Text
reserved_paths = text "/offerings/search" ∷ text "/collections/search" ∷ []

abbrev pub is_reserved : Text → Bool
is_reserved path = any (λ reserved. reserved == path) reserved_paths

abbrev pub is_search_method : Text → Bool
is_search_method method = method == text "POST" || method == text "GET"

unfoldable pub path_operation : Text → Text → Option Operation
path_operation method path =
    if method == text "GET" && path == text "/offerings"
    then some list_offerings
    else if is_search_method method && path == text "/offerings/search"
    then some search_offerings
    else if method == text "GET" && path == text "/collections"
    then some list_collections
    else if is_search_method method && path == text "/collections/search"
    then some search_collections
    else if is_reserved path
    then none
    else if method == text "GET" && starts_with (text "/offerings/") path
    then some get_offering
    else if method == text "GET"
        && (starts_with (text "/collections/") path && ends_with (text "/offerings") path)
    then some list_collection_offerings
    else if method == text "GET" && starts_with (text "/collections/") path
    then some get_collection
    else none

unfoldable pub allowed_methods : Text → Text
allowed_methods path =
    if path == text "/offerings/search" || path == text "/collections/search"
    then text "POST, GET, HEAD"
    else text "GET, HEAD"
