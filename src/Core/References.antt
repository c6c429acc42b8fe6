-- ===== src/Core/References.antt =====
-- crates/odp-core/src/references.rs: local identifiers, Service origins, resource references and
-- operation URLs.
pub mod Url
pub mod Secure
pub mod Paths
pub mod Toy
mod Tests
use odp_rust.Prelude.{
  ℕ, Bool, true, false, not, ◌&&◌, ◌||◌, Option, none, some, List, [], ◌∷◌, ◌++◌, Result, ok, err,
  ◌>>=◌, ◌>>◌, refuse_if, map_err, ok_or, ◌==◌, nat_eq, leb, length, all, if◌then◌else◌,
}
use odp_rust.Prelude.Text.{
  Text, text, text_eq, text_beq, starts_with, strip_prefix, is_empty, trim_end_matches,
  eq_ignore_ascii_case,
}
use odp_rust.Core.Models.{
  Operation, get_collection, get_offering, list_collection_offerings, list_collections,
  list_offerings, search_collections, search_offerings,
}
use Url.{Host, domain, ip, is_loopback, UrlLib}

pub data ReferenceError : Type 0 where
  invalid_url : Text → ReferenceError
  missing_host user_information insecure_url invalid_reference : ReferenceError
  scheme_relative_reference fragment_error cross_origin_continuation : ReferenceError
  invalid_endpoint_base : ReferenceError
  invalid_resource_identifier unexpected_resource_identifier : Operation → ReferenceError

-- `{:?}` of an operation.
unfoldable pub operation_debug : Operation → Text
operation_debug get_collection = text "GetCollection"
operation_debug get_offering = text "GetOffering"
operation_debug list_collection_offerings = text "ListCollectionOfferings"
operation_debug list_collections = text "ListCollections"
operation_debug list_offerings = text "ListOfferings"
operation_debug search_collections = text "SearchCollections"
operation_debug search_offerings = text "SearchOfferings"

-- `to_string` of an error.
unfoldable pub reference_message : ReferenceError → Text
reference_message (invalid_url e) = text "invalid ODP URL: " ++ e
reference_message missing_host = text "ODP URL must include a host"
reference_message user_information = text "ODP URL cannot contain user information"
reference_message insecure_url = text "ODP URL must use HTTPS except on loopback hosts"
reference_message invalid_reference =
    text "ODP resource reference must be an origin-relative absolute path or secure absolute URL"
reference_message scheme_relative_reference =
    text "ODP resource reference cannot be scheme-relative"
reference_message fragment_error = text "ODP resource reference cannot contain a fragment"
reference_message cross_origin_continuation =
    text "ODP continuation reference must remain on the Service origin"
reference_message invalid_endpoint_base =
    text "ODP endpoint base must be an origin-relative absolute path"
reference_message (invalid_resource_identifier operation) =
    operation_debug operation ++ text " requires a valid local resource identifier"
reference_message (unexpected_resource_identifier operation) =
    operation_debug operation ++ text " does not accept a resource identifier"

abbrev pub is_ascii_alphanumeric : ℕ → Bool
is_ascii_alphanumeric b =
    (leb 48 b && leb b 57) || (leb 65 b && leb b 90) || (leb 97 b && leb b 122)

abbrev pub is_identifier_byte : ℕ → Bool
is_identifier_byte b = is_ascii_alphanumeric b || (b == 46 || b == 95 || b == 126 || b == 45)

unfoldable pub is_local_resource_identifier : Text → Bool
is_local_resource_identifier value =
    not (value == text "." || value == text "..")
    && (not (is_empty value) && (leb (length value) 128 && all is_identifier_byte value))

unfoldable pub operation_method : Operation → Text
operation_method search_collections = text "POST"
operation_method search_offerings = text "POST"
operation_method _ = text "GET"

abbrev pub is_resource : Operation → Bool
is_resource get_collection = true
is_resource get_offering = true
is_resource list_collection_offerings = true
is_resource _ = false

abbrev pub is_some {ℓ} : {A : Type ℓ} → Option A → Bool
is_some none = false
is_some (some a) = true

abbrev pub is_some_and {ℓ} : {A : Type ℓ} → Option A → (A → Bool) → Bool
is_some_and none p = false
is_some_and (some a) p = p a

-- `unwrap_or_default`
abbrev pub or_default : Option Text → Text
or_default none = []
or_default (some a) = a

abbrev pub path_of : Operation → Text → Text
path_of list_collections id = text "/collections"
path_of search_collections id = text "/collections/search"
path_of get_collection id = text "/collections/" ++ id
path_of list_collection_offerings id = text "/collections/" ++ (id ++ text "/offerings")
path_of list_offerings id = text "/offerings"
path_of search_offerings id = text "/offerings/search"
path_of get_offering id = text "/offerings/" ++ id

unfoldable pub operation_path : Operation → Option Text → Result ReferenceError Text
operation_path operation id = do
  refuse_if (is_resource operation && not (is_some_and id is_local_resource_identifier))
      (invalid_resource_identifier operation)
  refuse_if (not (is_resource operation) && is_some id) (unexpected_resource_identifier operation)
  ok (path_of operation (or_default id))

module _ (lib : UrlLib) where
  open lib use {Url, parse, join, username, password, fragment, host, scheme, origin}

  abbrev pub has_user_information : Url → Bool
  has_user_information url = not (is_empty (username url)) || is_some (password url)

  unfoldable pub parse_url : Text → Result ReferenceError Url
  parse_url value = do
    url ← map_err invalid_url (parse value)
    refuse_if (has_user_information url) user_information
    ok url

  abbrev pub is_loopback_host : Host → Bool
  is_loopback_host (domain name) = eq_ignore_ascii_case name (text "localhost")
  is_loopback_host (ip address) = is_loopback address

  unfoldable pub require_secure_url : Url → Result ReferenceError (Unit {0})
  require_secure_url url = do
    found ← ok_or (host url) missing_host
    refuse_if
        (not (scheme url == text "https")
          && not (scheme url == text "http" && is_loopback_host found))
        insecure_url

  unfoldable pub derive_service_origin : Text → Result ReferenceError Text
  derive_service_origin service_document_url = do
    url ← parse_url service_document_url
    require_secure_url url
    ok (origin url)

  -- The spellings of a reference that are resolved at all.
  abbrev pub is_reference : Text → Bool
  is_reference reference =
      starts_with (text "/") reference
      || starts_with (text "https://") reference
      || starts_with (text "http://localhost") reference
      || starts_with (text "http://127.0.0.1") reference
      || starts_with (text "http://[::1]") reference

  unfoldable pub resolve_resource_reference : Text → Text → Result ReferenceError Url
  resolve_resource_reference reference service_origin = do
    refuse_if (starts_with (text "//") reference) scheme_relative_reference
    refuse_if (not (is_reference reference)) invalid_reference
    base ← parse_url service_origin
    resolved ← map_err invalid_url (join base reference)
    refuse_if (has_user_information resolved) user_information
    refuse_if (is_some (fragment resolved)) fragment_error
    require_secure_url resolved
    ok resolved

  unfoldable pub resolve_continuation : Text → Text → Result ReferenceError Url
  resolve_continuation reference service_origin = do
    resolved ← resolve_resource_reference reference service_origin
    expected ← derive_service_origin service_origin
    refuse_if (not (origin resolved == expected)) cross_origin_continuation
    ok resolved

  unfoldable pub build_operation_url :
      Text → Operation → Text → Option Text → Result ReferenceError Url
  build_operation_url endpoint_base operation service_origin id = do
    refuse_if (not (starts_with (text "/") endpoint_base) || starts_with (text "//") endpoint_base)
        invalid_endpoint_base
    path ← operation_path operation id
    resolve_resource_reference (trim_end_matches 47 endpoint_base ++ path) service_origin
