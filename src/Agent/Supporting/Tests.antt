-- ===== src/Agent/Supporting/Tests.antt =====
-- A JSON Schema that a site holds.
use mathlib.Core.Option
use odp_rust.Prelude.{ℕ, ◌+◌, ◌≡◌, refl, List, All, none, [], ◌∷◌, ok, arith, length, Result}
use odp_rust.Prelude.Text.{
  Text, text, text_beq, strip_prefix, split_once, trim, eq_ignore_ascii_case,
}
use odp_rust.Prelude.Maps.{lookup, insert}
use odp_rust.Core.Json.{Value, object, empty_object, member_then, string}
use odp_rust.Core.References.Toy.{toy, toy_parse}
use odp_rust.Core.Validation.Depth.{
  validate_json_depth, depth_run, check_pending, push_members, values_in,
}
use odp_rust.Directory.Transport.{HttpRequest, Transport, send_to_by}
use odp_rust.Agent.Cache.{MemoryCache, with_capacity, get, set, make_room}
use odp_rust.Agent.Freshness.{directive, cache_directives, no_store, supported_vary, cacheable}
use odp_rust.Agent.Redirects.{AgentError, media_type_essence}
use odp_rust.Agent.Setup.{Libs, ServiceClient, memory_cache, default_fallbacks}
use odp_rust.Agent.Linked.{
  Wanted, SupportingDocument, decode_json_object, supporting_document, require_https, resumed,
  supporting_request, accept_supporting,
}
use odp_rust.Agent.Supporting.{keep_supporting, settle, supporting_loop, supporting_resource}
use odp_rust.Agent.Supporting.Fetched.{supporting_resource-Keeps}
use odp_rust.Agent.Supporting.Objects.{IsAdmitted}
use odp_rust.Agent.Supporting.Admitted.{supporting_resource-IsAdmitted}

-- The world keeps the requests.
abbrev records : Transport (List HttpRequest)
records = record {
  send =
      λ request log. (ok (record { body = text "{}"; headers = []; status = 200 }), request ∷ log);
  send_limited = λ request limit log. (
    ok (record {
      body = text "{}";
      headers = (text "content-type", text "application/schema+json") ∷ [];
      status = 200;
    }),
    request ∷ log,
  );
  send_to = send_to_by;
}

abbrev libs : Libs
libs = record {
  url_lib = toy;
  parse_http_date = λ value. none;
  time_limit = 100_000_000_000;
  sha256 = λ bytes. [];
  failure_message = λ response. [];
}

abbrev client : ServiceClient (List HttpRequest) MemoryCache
client = record {
  accept_language = none;
  cache = memory_cache;
  cache_fallbacks = default_fallbacks;
  cache_partition = text "shared";
  service_origin = text "https://shop.example";
  supporting_transport = records;
  transport = records;
}

abbrev schema : Value
schema = object (member_then (text "type") (string (text "object")) empty_object)

abbrev reads : Text → Result Text Value
reads bytes = ok schema

abbrev wanted : Wanted
wanted = record {
  target = text "https://schemas.example/tea";
  resource_class = text "schema";
  accept = text "application/schema+json";
  media_types = text "application/schema+json" ∷ [];
  maximum_bytes = 100;
  fallback = 7;
}

abbrev asked : Result AgentError SupportingDocument × MemoryCache × List HttpRequest
asked = supporting_resource libs reads client wanted 5 (with_capacity 2) []

-- What was sent and what is left.
abbrev Counts : ℕ → List HttpRequest → Type 0
Counts n log = (length log + n ≡ 6) × All (λ request. request.method ≡ text "GET") log

supporting_resource-Keeps_example : (n : ℕ) × Counts n asked.2
supporting_resource-Keeps_example =
    supporting_resource-Keeps libs reads client wanted Counts
      (λ target parsed https n request its log k. (omega (arith, k.0), (its.method, k.1))) 5
      (with_capacity 2) [] (refl, tt)

abbrev found : SupportingDocument
found = record { value = schema; final_url = text "https://schemas.example/tea"; bytes = 2 }

supporting : Unit {0}
unfolding supporting_resource toy_parse require_https text_beq get with_capacity lookup
    supporting_loop settle accept_supporting Option.bind eq_ignore_ascii_case media_type_essence
    trim supporting_document decode_json_object validate_json_depth depth_run check_pending
    push_members values_in cacheable supported_vary no_store cache_directives directive
    keep_supporting set make_room insert supporting_request split_once strip_prefix resumed
supporting = tt

finds : asked.0 ≡ ok found
unfolding supporting
finds = refl

supporting_resource-IsAdmitted_example : IsAdmitted libs reads wanted found
unfolding supporting
supporting_resource-IsAdmitted_example =
    supporting_resource-IsAdmitted libs reads client wanted 5 (with_capacity 2) asked.1 [] asked.2
      found refl
