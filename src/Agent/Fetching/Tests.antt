-- ===== src/Agent/Fetching/Tests.antt =====
-- A Service whose answer may be reused for a minute, and a client that asks it.
use mathlib.Core.Option
use odp_rust.Prelude.{ℕ, suc, ◌≡◌, refl, ◌⊎◌, some, none, [], ◌∷◌, ok, arith, Result}
use odp_rust.Prelude.Text.{
  Text, text, text_beq, text_leb, strip_prefix, split, split_once, trim, trim_start_matches,
  trim_end_matches, to_ascii_lowercase, eq_ignore_ascii_case,
}
use odp_rust.Prelude.Maps.{lookup, contains_key, insert, remove}
use odp_rust.Prelude.Numbers.{parse_u64, digits_from, decimal, digits_onto}
use odp_rust.Core.References.{parse_url, require_secure_url, derive_service_origin}
use odp_rust.Core.References.Toy.{ToyUrl, toy, toy_join}
use odp_rust.Directory.Transport.{
  HttpRequest, HttpResponse, TransportError, Transport, send_limited_by, send_to_by, response_limit,
  check_size,
}
use odp_rust.Agent.Cache.{CacheRecord, MemoryCache, with_capacity, make_room, set, get, delete}
use odp_rust.Agent.Freshness.{
  directive, cache_directives, no_store, supported_vary, explicit_freshness, cacheable, age_seconds,
  expiration,
}
use odp_rust.Agent.Redirects.{
  AgentError, request_headers, pass_request, next_target, request_loop, request_raw, media_type,
  media_type_essence, consume, require_within_limit,
}
use odp_rust.Agent.Setup.{
  memory_cache, fetched, fresh, Response, Libs, ServiceClient, default_fallbacks, hex, sha256_hex,
  cache_key, request_key,
}
use odp_rust.Agent.Fetching.{
  conditional_fields, keep_response, accept_response, answered, request_past_cache, request_cached,
}
use odp_rust.Agent.Fetching.Sound.{IsFresh, IsRevalidated, IsFetched, request_cached_inv}
use odp_rust.Agent.Fetching.Reuse.{memory_cache_laws, request_cached_again}

fetching : Unit {0}
unfolding request_loop request_raw next_target pass_request request_headers derive_service_origin
    parse_url require_secure_url toy_join strip_prefix text_beq text_leb lookup contains_key insert
    remove send_limited_by check_size response_limit consume require_within_limit media_type_essence
    eq_ignore_ascii_case split split_once trim trim_start_matches trim_end_matches
    to_ascii_lowercase parse_u64 digits_from decimal digits_onto with_capacity make_room set get
    delete directive cache_directives no_store supported_vary explicit_freshness cacheable
    age_seconds expiration hex sha256_hex cache_key request_key conditional_fields keep_response
    accept_response answered request_past_cache request_cached Option.bind Option.get_or
fetching = tt

abbrev answer : HttpRequest → ℕ → Result TransportError HttpResponse × ℕ
answer request sent = (
  ok (record {
    body = text "{}";
    headers = (text "content-type", media_type) ∷ (text "cache-control", text "max-age=60") ∷ [];
    status = 200;
  }),
  suc sent,
)

abbrev service : Transport ℕ
service = record { send = answer; send_limited = send_limited_by answer; send_to = send_to_by }

abbrev client : ServiceClient ℕ MemoryCache
client = record {
  accept_language = none;
  cache = memory_cache;
  cache_fallbacks = default_fallbacks;
  cache_partition = text "shared";
  service_origin = text "https://shop.example";
  supporting_transport = service;
  transport = service;
}

abbrev libs : Libs
libs = record {
  url_lib = toy;
  parse_http_date = λ value. none;
  time_limit = 100_000_000_000;
  sha256 = λ bytes. [];
  failure_message = λ response. [];
}

abbrev target : ToyUrl
target = record {
  authority = text "shop.example";
  spelling = text "https://shop.example/offerings";
}

abbrev accept_all : Text → Result AgentError (Unit {0})
accept_all body = ok tt

abbrev asks : ℕ → MemoryCache → ℕ → Result AgentError Response × MemoryCache × ℕ
asks = request_cached libs client (text "GET") target [] 100 7 accept_all

abbrev first : Response
first = record {
  body = text "{}";
  final_url = text "https://shop.example/offerings";
  freshness = fetched;
}

answers : (asks 5 (with_capacity 2) 0).0 ≡ ok first
unfolding fetching
answers = refl

abbrev kept : CacheRecord
kept = record {
  body = text "{}";
  etag = none;
  expires_at = 60_000_000_005;
  final_url = text "https://shop.example/offerings";
  last_modified = none;
  status = 200;
  stored_at = 5;
}

keeps :
    get
      (asks 5 (with_capacity 2) 0).1
      (request_key libs client (text "GET") (text "https://shop.example/offerings") [] 7)
    ≡ ok (some kept)
unfolding fetching
keeps = refl

request_cached_inv_example :
    IsFresh libs client (text "GET") target [] 100 7 accept_all 5 (with_capacity 2) 0 first
    ⊎ IsRevalidated libs client (text "GET") target [] 100 7 accept_all 5 (with_capacity 2) 0 first
    ⊎ IsFetched libs client (text "GET") target [] 100 7 accept_all 5 (with_capacity 2) 0 first
request_cached_inv_example =
    request_cached_inv libs client (text "GET") target [] 100 7 accept_all 5 (with_capacity 2) 0
      first answers

abbrev after_first : MemoryCache
after_first = (asks 5 (with_capacity 2) 0).1

request_cached_again_example : asks 9 after_first 1 ≡ (
  ok (record {
    body = text "{}";
    final_url = text "https://shop.example/offerings";
    freshness = fresh;
  }),
  after_first,
  1,
)
unfolding with_capacity
request_cached_again_example =
    request_cached_again libs client memory_cache_laws (text "GET") target [] 100 7 accept_all 5
      (with_capacity 2) (refl, omega arith) 0 first kept 9 1 answers keeps (omega arith)
