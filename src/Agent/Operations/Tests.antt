-- ===== src/Agent/Operations/Tests.antt =====
-- A session with the site of Site.antt.
use mathlib.Core.Option
use odp_rust.Prelude.{◌≡◌, ◌≤◌, arith, refl, List, All, [], ◌∷◌, ◌++◌, ok, err, Result, length, map}
use odp_rust.Prelude.Text.{
  text, strip_suffix, trim_end_matches, rsplit_once, eq_ignore_ascii_case, trim,
}
use odp_rust.Core.References.{
  derive_service_origin, is_local_resource_identifier, operation_path, parse_url,
  require_secure_url, resolve_resource_reference, build_operation_url,
}
use odp_rust.Core.Documents.Resources.{Offering}
use odp_rust.Directory.Transport.{HttpRequest}
use odp_rust.Agent.Cache.{MemoryCache, with_capacity, get, make_room, set}
use odp_rust.Agent.Redirects.{
  AgentError, unsupported_operation, pass_request, request_loop, request_raw, require_within_limit,
  media_type_essence, consume,
}
use odp_rust.Agent.Operations.Calls.{get_offering_of, get_collection_of}
use odp_rust.Agent.Operations.Bounded.{call_bound}
use odp_rust.Agent.Operations.Reached.{Session, opened, called, gets_offering, session-Keeps}
use odp_rust.Agent.Operations.Refused
use odp_rust.Agent.Operations.Refused.{not_offered, call-Fails}
use odp_rust.Core.Documents.Resources.{Collection}
use odp_rust.Agent.Operations.Site.{home, site, lib, client, document, offering, site-ClientLaws}
use odp_rust.Agent.Operations.{
  Inspection, inspection_of, request, inspect, require_operation, get_page_bytes,
}
use odp_rust.Core.Models.{get_collection}
use odp_rust.Agent.Acts.{◌>>=◌, pure}
use odp_rust.Agent.Setup.{fetched, cache_key, request_key}
use odp_rust.Agent.Fetching.{
  keep_response, accept_response, answered, request_past_cache, request_cached,
}
use odp_rust.Agent.Freshness.{cache_directives, no_store, supported_vary, cacheable}
use odp_rust.Agent.Validators.{
  validate_service_document_bytes, validate_offering_bytes, response_validator,
}
use odp_rust.Core.Validation.Parsing.{
  validate_value, parse, normalize_agent_response, parse_service_document,
  parse_agent_service_document, offering_representation_issues, parse_agent_offering,
}
use odp_rust.Core.Validation.Depth.{
  values_in, push_members, check_pending, depth_run, validate_json_depth,
}
use odp_rust.Core.Validation.Rules.{
  repeats, distinct, valid_language_tag, validate_localizations, representation_issues,
  service_document_issues,
}
use odp_rust.Prelude.Maps.{lookup, insert}

abbrev asks :
    MemoryCache → List HttpRequest → Result AgentError Offering × MemoryCache × List HttpRequest
asks = get_offering_of lib client (text "tea")

abbrev IsSentHome : List HttpRequest → Type 0
IsSentHome = All (λ request. derive_service_origin site request.url ≡ ok home)

abbrev empty_cache : MemoryCache
empty_cache = with_capacity 2

abbrev asked : Result AgentError Offering × MemoryCache × List HttpRequest
asked = asks empty_cache []

visit : Session lib client empty_cache [] asked.1 asked.2
visit = called (asks) asked.0 (gets_offering (text "tea")) opened refl

session-Keeps_example : IsSentHome asked.2
session-Keeps_example =
    session-Keeps lib client site-ClientLaws IsSentHome (λ request limit at log sent. (at, sent))
      empty_cache asked.1 [] asked.2 visit tt

calls : Unit {0}
unfolding request inspect require_operation get_page_bytes get_offering_of ◌>>=◌ pure cache_key
    request_key keep_response accept_response answered request_past_cache request_cached
    pass_request request_loop request_raw require_within_limit media_type_essence consume
    cache_directives no_store supported_vary cacheable with_capacity get make_room set
    validate_service_document_bytes validate_offering_bytes response_validator
    is_local_resource_identifier operation_path parse_url require_secure_url derive_service_origin
    resolve_resource_reference build_operation_url validate_value parse normalize_agent_response
    parse_service_document parse_agent_service_document offering_representation_issues
    parse_agent_offering push_members check_pending depth_run validate_json_depth repeats distinct
    valid_language_tag validate_localizations representation_issues service_document_issues
    strip_suffix trim_end_matches rsplit_once eq_ignore_ascii_case trim lookup insert Option.bind
    values_in
calls = tt

finds : asked.0 ≡ ok offering
unfolding calls
finds = refl

addresses :
    map (λ request. request.url) asked.2
    ≡ (home ++ text "/odp/offerings/tea?representation=full")
      ∷ (home ++ text "/.well-known/odp")
      ∷ []
unfolding calls
addresses = refl

abbrev inspection : Inspection
inspection =
    inspection_of lib client
      (record {
        body = text "{}";
        final_url = home ++ text "/.well-known/odp";
        freshness = fetched;
      })
      document

abbrev inspected : Result AgentError Inspection × MemoryCache × List HttpRequest
inspected = inspect lib client empty_cache []

inspects_site : inspected ≡ (ok inspection, inspected.1, inspected.2)
unfolding calls
inspects_site = refl

call-Fails_example :
    get_collection_of lib client (text "teas") empty_cache []
    ≡ (err (unsupported_operation get_collection), inspected.1, inspected.2)
call-Fails_example =
    call-Fails lib client empty_cache inspected.1 [] inspected.2
      (unsupported_operation get_collection) Collection (get_collection_of lib client (text "teas"))
      get_collection (Refused.gets_collection (text "teas"))
      (not_offered inspection inspects_site refl refl)

call_bound_example : length (asks empty_cache []).2 ≤ 102
call_bound_example =
    call_bound lib client (λ log. length log) (λ request limit log. omega arith) Offering asks
      (gets_offering (text "tea")) empty_cache []
