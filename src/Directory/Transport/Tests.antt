-- ===== src/Directory/Transport/Tests.antt =====
-- The limits at concrete responses.
use odp_rust.Prelude.{ℕ, ◌≤◌, ◌<◌, ◌≡◌, refl, ◌⊎◌, some, none, ok, [], ◌∷◌, length, Result}
use odp_rust.Prelude.Text.{text, text_beq}
use odp_rust.Prelude.Maps.{insert}
use odp_rust.Core.Addresses.{v4_addr}
use odp_rust.Directory.Transport.{
  HttpRequest, HttpResponse, TransportError, SocketAddr, Incoming, read_chunks, response_limit,
  readable, exchange, maximum_transport_bytes,
}
use odp_rust.Directory.Transport.Limits.{IsPinned, exchange_bounds}

abbrev peer : SocketAddr
peer = record { ip = v4_addr 8 8 8 8; port = 443 }

abbrev incoming : Incoming
incoming = record {
  status = 200;
  remote_addr = some peer;
  headers =
      (text "ETag", some (text "a")) ∷ (text "X-Name", none) ∷ (text "etag", some (text "b")) ∷ [];
  content_length = none;
  chunks = ok (text "ab") ∷ ok (text "c") ∷ [];
}

abbrev response : HttpResponse
response = record { body = text "abc"; headers = (text "etag", text "b") ∷ []; status = 200 }

reads : exchange incoming 3 (some (peer ∷ [])) ≡ ok response
unfolding exchange read_chunks response_limit readable insert text_beq
reads = refl

exchange_bounds_example :
    (length response.body ≤ 3)
    × (length response.body ≤ maximum_transport_bytes)
    × ((response.status < 400) ⊎ (length response.body ≤ 16384))
    × IsPinned (some (peer ∷ [])) incoming.remote_addr
exchange_bounds_example = exchange_bounds incoming 3 (some (peer ∷ [])) response reads

abbrev answer : HttpRequest → ℕ → Result TransportError HttpResponse × ℕ
answer request w = (ok response, w)

abbrev request : HttpRequest
request = record {
  body = [];
  headers = [];
  method = text "GET";
  url = text "https://shop.example/";
}
