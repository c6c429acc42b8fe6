-- ===== src/Directory/Requests/Tests.antt =====
-- A Directory that moves a search once, and a client whose requests are kept.
use mathlib.Core.Option
use odp_rust.Prelude.{◌≡◌, refl, List, [], ◌∷◌, All, ok, Result, if◌then◌else◌}
use odp_rust.Prelude.Text.{
  Text, text, text_beq, strip_prefix, trim, split_once, is_empty, eq_ignore_ascii_case,
}
use odp_rust.Prelude.Maps.{lookup, insert}
use odp_rust.Core.References.Toy.{ToyUrl, toy, toy_parse, toy_join, authority_of}
use odp_rust.Directory.Transport.{
  HttpRequest, HttpResponse, TransportError, Transport, send_limited_by, send_to_by,
}
use odp_rust.Directory.Requests.{
  json_type, media_type_of, consume_response, directory_request, redirected, request_left, request,
}
use odp_rust.Directory.Requests.Origins.{GoesHome, IsAccepted, request-IsAccepted}

requests : Unit {0}
unfolding trim split_once text_beq strip_prefix eq_ignore_ascii_case lookup insert toy_parse
    toy_join authority_of media_type_of consume_response directory_request redirected request_left
    request Option.bind
requests = tt

abbrev answer :
    HttpRequest → List HttpRequest → Result TransportError HttpResponse × List HttpRequest
answer sent log = (
  ok (
      if is_empty log
      then record { body = []; headers = (text "location", text "/v2/search") ∷ []; status = 308 }
      else record {
        body = text "{}";
        headers = (text "content-type", json_type) ∷ [];
        status = 200;
      }),
  sent ∷ log,
)

abbrev directory : Transport (List HttpRequest)
directory = record { send = answer; send_limited = send_limited_by answer; send_to = send_to_by }

abbrev start : ToyUrl
start = record {
  authority = text "directory.example";
  spelling = text "https://directory.example/v1/search";
}

abbrev words : HttpResponse → Text
words response = []

follows :
    (request toy words directory (text "POST") start (text "{}") []).0
    ≡ ok
        (record { body = text "{}"; headers = (text "content-type", json_type) ∷ []; status = 200 })
unfolding requests
follows = refl

abbrev Home : List HttpRequest → Type 0
Home = All (GoesHome toy words directory start)

request-IsAccepted_example :
    Home (request toy words directory (text "POST") start (text "{}") []).1
    × IsAccepted (request toy words directory (text "POST") start (text "{}") []).0
request-IsAccepted_example =
    request-IsAccepted toy words directory start Home (λ sent home log k. (home, k)) (text "POST")
      (text "{}") [] tt
