-- ===== src/Agent/Redirects/Tests.antt =====
-- A Service that answers a search with two redirects, and its responses.
use mathlib.Core.Option
use odp_rust.Prelude.{
  ℕ, suc, ◌≡◌, refl, List, All, none, [], ◌∷◌, ok, arith, length, Result, if◌then◌else◌, ◌==◌,
  nat_eq,
}
use odp_rust.Prelude.Text.{
  Text, text, text_beq, strip_prefix, eq_ignore_ascii_case, trim, split_once,
}
use odp_rust.Prelude.Maps.{lookup, insert}
use odp_rust.Core.References.{parse_url, require_secure_url, derive_service_origin}
use odp_rust.Core.References.Toy.{ToyUrl, toy, toy_join}
use odp_rust.Directory.Transport.{
  HttpRequest, HttpResponse, TransportError, Transport, send_limited_by, send_to_by, response_limit,
  check_size,
}
use odp_rust.Agent.Redirects.{
  RawResponse, request_headers, pass_request, next_target, request_loop, request_raw, media_type,
  media_type_essence, consume, require_within_limit,
}
use odp_rust.Agent.Redirects.Origins.{IsAllowed, request_raw-Keeps}
use odp_rust.Agent.Redirects.Judgement.{consume_iff}

redirects : Unit {0}
unfolding request_loop request_raw next_target pass_request request_headers derive_service_origin
    parse_url require_secure_url toy_join strip_prefix text_beq lookup insert send_limited_by
    check_size response_limit consume require_within_limit media_type_essence eq_ignore_ascii_case
redirects = tt

-- The world counts the requests.
abbrev answer : HttpRequest → ℕ → Result TransportError HttpResponse × ℕ
answer request sent =
    if sent == 2
    then (
      ok (record {
        body = text "{}";
        headers = (text "content-type", media_type) ∷ [];
        status = 200;
      }),
      3,
    )
    else (
      ok (record { body = []; headers = (text "location", text "/moved") ∷ []; status = 307 }),
      suc sent,
    )

abbrev service : Transport ℕ
service = record { send = answer; send_limited = send_limited_by answer; send_to = send_to_by }

abbrev start : ToyUrl
start = record { authority = text "shop.example"; spelling = text "https://shop.example/search" }

abbrev final : RawResponse
final = record {
  body = text "{}";
  final_url = text "https://shop.example/moved";
  headers = (text "content-type", media_type) ∷ [];
  status = 200;
}

follows :
    request_raw toy service none
      (text "POST")
      start
      (text "{}")
      []
      (text "https://shop.example")
      100
      0
    ≡ (ok final, 3)
unfolding redirects
follows = refl

abbrev loops : Transport ℕ
loops = record {
  send = answer;
  send_limited = λ request limit sent. (
    ok (record { body = []; headers = (text "location", text "/moved") ∷ []; status = 302 }),
    suc sent,
  );
  send_to = send_to_by;
}

stops :
    (request_raw toy loops none
      (text "POST")
      start
      (text "{}")
      []
      (text "https://shop.example")
      100
      0).1
    ≡ 6
unfolding redirects
stops = refl

-- The world keeps the requests.
abbrev records : Transport (List HttpRequest)
records = record {
  send = λ request log. ((answer request (length log)).0, request ∷ log);
  send_limited = λ request limit log. ((answer request (length log)).0, request ∷ log);
  send_to = send_to_by;
}

abbrev Sent : List HttpRequest → Type 0
Sent = All (
    IsAllowed toy records none [] (text "https://shop.example") 100 (text "POST") start (text "{}"))

request_raw-Keeps_example :
    Sent
      (request_raw toy records none
        (text "POST")
        start
        (text "{}")
        []
        (text "https://shop.example")
        100
        []).1
request_raw-Keeps_example =
    request_raw-Keeps toy records none [] (text "https://shop.example") 100 (text "POST") start
      (text "{}") Sent (λ request allowed log sent. (allowed, sent)) [] tt

abbrev words : RawResponse → Text
words response = []

accepts : consume words final 2 ≡ ok final
unfolding redirects trim split_once Option.bind
accepts = refl

consume_iff_example : consume words final 2 ≡ ok final
unfolding redirects trim split_once Option.bind
consume_iff_example =
    (consume_iff words final 2).1 (omega arith, omega arith, omega arith, tt, refl)

abbrev broken : RawResponse
broken = record { body = text "{}"; final_url = []; headers = []; status = 503 }
