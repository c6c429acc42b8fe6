-- ===== src/Service/Handler/Conditional.antt =====
-- crates/odp-service/src/service.rs: a request that names the entity tag that it would be given.
use odp_rust.Prelude.{
  ◌≡◌, refl, ap, true, not, Option, List, nat_eq, if◌then◌else◌, Option-cases, Result-cases, inl,
  inr, arith, ok,
}
use odp_rust.Prelude.Text.{Text, text, text_eq, text_eq_refl, strip_prefix}
use odp_rust.Prelude.Text.Laws.{Lacks, split-Lacks}
use odp_rust.Prelude.Maps.{Map, lookup}
use odp_rust.Service.Routing.{path_operation}
use odp_rust.Core.References.{is_some_and}
use odp_rust.Service.Requests.{Request, CatalogRequest}
use odp_rust.Service.Queries.{
  catalog_request, validate_search_request, decode_offering_search, decode_collection_search,
}
use odp_rust.Service.Negotiation.{select_language}
use odp_rust.Service.Problems.{problem}
use odp_rust.Service.Answers.{
  ServiceLib, matches_etag, bare_tag, validate_page_envelope, validate_offering_page,
  validate_collection_page,
}
use odp_rust.Service.Handler.{
  Service, is_supported, get_under_collections, get_path, search_offerings_answer,
  search_collections_answer, continue_search, dispatch, defaulted, handle_path, handle_as,
  handle_result,
}

-- A tag without a comma is listed by itself.
pub matches_etag_self : (etag : Text) → Lacks 44 etag → matches_etag etag etag ≡ true
unfolding matches_etag
matches_etag_self etag plain =
    rw (split-Lacks 44 etag plain) (ground (arith, text_eq_refl (bare_tag etag)))

-- The request with other header fields.
abbrev pub with_headers : Request → Map Text → Request
with_headers request headers = record request { headers = headers }

module _ (request : Request) (headers : Map Text)
    (same_language : lookup (text "accept-language") headers
      ≡ lookup (text "accept-language") request.headers)
    (same_type : lookup (text "content-type") headers
      ≡ lookup (text "content-type") request.headers) where
  catalog_request-with_headers :
      (parse_query : Text → List (Text × Text)) (language : Text)
      → catalog_request parse_query (with_headers request headers) language
        ≡ catalog_request parse_query request language
  unfolding catalog_request
  catalog_request-with_headers parse_query language = rw same_language refl

  validate_search_request-with_headers :
      validate_search_request (with_headers request headers) ≡ validate_search_request request
  unfolding validate_search_request
  validate_search_request-with_headers = rw same_type refl

  module _ (lib : ServiceLib) {W : Type 0} (service : Service W) (input : CatalogRequest)
      (language path : Text) (w : W) where
    search_offerings-with_headers :
        search_offerings_answer lib service input (with_headers request headers) language w
        ≡ search_offerings_answer lib service input request language w
    unfolding search_offerings_answer decode_offering_search validate_offering_page
        validate_page_envelope
    search_offerings-with_headers =
        rw (search_offerings_answer, decode_offering_search, validate_search_request-with_headers)
          refl

    search_collections-with_headers :
        search_collections_answer lib service input (with_headers request headers) language w
        ≡ search_collections_answer lib service input request language w
    unfolding search_collections_answer decode_collection_search validate_collection_page
        validate_page_envelope
    search_collections-with_headers =
        rw
          (
            search_collections_answer, decode_collection_search,
            validate_search_request-with_headers,
          )
          refl

    dispatch-with_headers :
        dispatch lib service path input (with_headers request headers) language w
        ≡ dispatch lib service path input request language w
    unfolding dispatch continue_search get_path get_under_collections validate_offering_page
        validate_collection_page validate_page_envelope
    dispatch-with_headers =
        rw (dispatch, search_offerings-with_headers, search_collections-with_headers) refl

  module _ (lib : ServiceLib) {W : Type 0} (service : Service W)
      (same_accept : lookup (text "accept") headers ≡ lookup (text "accept") request.headers)
      (w : W) where
    handle_path-with_headers :
        (path language : Text)
        → handle_path lib service path (with_headers request headers) language w
          ≡ handle_path lib service path request language w
    unfolding handle_path defaulted
    handle_path-with_headers path language =
        let same = catalog_request-with_headers lib.parse_query language in
        elim (Result-cases (catalog_request lib.parse_query request language)) [
          | inl (input, e) ↦
              rw (handle_path, same, e)
                (ap
                  (λ answer.
                    if is_some_and (path_operation request.method path)
                      (λ op. not (is_supported service op))
                    then (
                      ok (
                          problem lib.problem_to_vec 404 (text "NOT_FOUND")
                            (text "ODP operation is not supported")),
                      w,
                    )
                    else answer)
                  (dispatch-with_headers lib service (defaulted lib service path request input)
                    language path w))
          | inr (error, e) ↦ rw (handle_path, same, e) refl
        ]

    handle_as-with_headers :
        (accept : Option Text) (language : Text)
        → handle_as lib service accept language (with_headers request headers) w
          ≡ handle_as lib service accept language request w
    unfolding handle_as
    handle_as-with_headers accept language =
        elim (Option-cases (strip_prefix service.endpoint_base request.path)) [
          | inl outside ↦ rw (handle_as, outside) refl
          | inr (path, e) ↦ rw (handle_as, e, handle_path-with_headers path language) refl
        ]

    pub handle_result-with_headers :
        handle_result lib service (with_headers request headers) w
        ≡ handle_result lib service request w
    unfolding handle_result
    handle_result-with_headers =
        rw (handle_result, same_accept, same_language)
          (handle_as-with_headers (lookup (text "accept") request.headers) (
            select_language lib.floats service.document.language service.document.localizations
              (lookup (text "accept-language") request.headers)))
