-- ===== src/Directory/Transport.antt =====
-- crates/odp-directory/src/transport.rs: the messages, the limits on a response, and the trait.
pub mod Limits
mod Tests
use mathlib.Core.List.{foldl}
use odp_rust.Prelude.{
  ℕ, ◌+◌, ◌*◌, min, Bool, true, false, not, Option, none, some, List, [], ◌∷◌, ◌++◌, Result, ok,
  err, ◌>>=◌, ◌>>◌, refuse_if, ◌==◌, nat_eq, leb, ltb, length, any, if◌then◌else◌, ◌&&◌,
}
use odp_rust.Prelude.Text.{Text, text, text_eq, to_ascii_lowercase}
use odp_rust.Prelude.Maps.{Map, insert}
use odp_rust.Core.Addresses.{IpAddr, octets}

abbrev pub maximum_transport_bytes : ℕ
maximum_transport_bytes = 2 * 1024 * 1024

pub record HttpRequest : Type 0 where
  pub body : Text
  pub headers : Map Text
  pub method : Text
  pub url : Text

pub record HttpResponse : Type 0 where
  pub body : Text
  pub headers : Map Text
  pub status : ℕ

pub record TransportError : Type 0 where
  pub message : Text

pub record SocketAddr : Type 0 where
  pub ip : IpAddr
  pub port : ℕ

unfoldable pub response_limit : ℕ → ℕ → ℕ
response_limit status maximum_bytes =
    if leb 400 status then min maximum_bytes 16384 else maximum_bytes

unfoldable pub check_size : ℕ → ℕ → Result TransportError (Unit {0})
check_size size maximum_bytes =
    refuse_if (ltb maximum_bytes size) (record { message = text "Response exceeds its byte limit" })

-- The trait: a send is a step of the world `W`, which holds the network.
pub record Transport (W : Type 0) : Type 0 where
  pub send : HttpRequest → W → Result TransportError HttpResponse × W
  pub send_limited : HttpRequest → ℕ → W → Result TransportError HttpResponse × W
  pub send_to : HttpRequest → List SocketAddr → ℕ → W → Result TransportError HttpResponse × W

-- `send_limited` as the trait provides it.
unfoldable pub send_limited_by :
    {W : Type 0}
    → (HttpRequest → W → Result TransportError HttpResponse × W)
    → HttpRequest
    → ℕ
    → W
    → Result TransportError HttpResponse × W
send_limited_by send request maximum_bytes w =
    let (sent, w') = send request w in
    (
      (do
        response ← sent
        check_size (length response.body) (response_limit response.status maximum_bytes)
        ok response),
      w',
    )

-- `send_to` as the trait provides it.
unfoldable pub send_to_by :
    {W : Type 0} → HttpRequest → List SocketAddr → ℕ → W → Result TransportError HttpResponse × W
send_to_by request addresses maximum_bytes w =
    (err (record { message = text "Transport does not support pinned destinations" }), w)

-- A response of the HTTP library before its body is read: of each header field the name, and the
-- value where `to_str` gives one. A chunk may fail to arrive.
pub record Incoming : Type 0 where
  pub status : ℕ
  pub remote_addr : Option SocketAddr
  pub headers : List (Text × Option Text)
  pub content_length : Option ℕ
  pub chunks : List (Result Text Text)

-- `while let Some(chunk) = response.chunk()`.
unfoldable pub read_chunks : ℕ → Text → List (Result Text Text) → Result TransportError Text
read_chunks maximum_bytes body [] = ok body
read_chunks maximum_bytes body (err e ∷ chunks) = err (record { message = e })
read_chunks maximum_bytes body (ok chunk ∷ chunks) =
    let rest = read_chunks maximum_bytes (body ++ chunk) chunks in
    if ltb maximum_bytes (length body + length chunk)
    then err (record { message = text "ODP response exceeds what the transport will read" })
    else rest

-- `filter_map` over the header fields: those with a value, under their names in lower case.
unfoldable pub readable : List (Text × Option Text) → List (Text × Text)
readable [] = []
readable ((name, none) ∷ fields) = readable fields
readable ((name, some value) ∷ fields) = (to_ascii_lowercase name, value) ∷ readable fields

-- `collect`: a later field of one name replaces an earlier one.
abbrev pub collect_fields : List (Text × Text) → Map Text
collect_fields = foldl (λ m p. insert p.0 p.1 m) []

abbrev pub declares_more : Option ℕ → ℕ → Bool
declares_more none maximum_bytes = false
declares_more (some value) maximum_bytes = ltb maximum_bytes value

-- `==` of the standard library's socket addresses.
abbrev pub same_peer : SocketAddr → SocketAddr → Bool
same_peer a b = octets a.ip == octets b.ip && a.port == b.port

-- `remote_addr().is_none_or(|peer| !addresses.contains(&peer))`, where addresses are pinned.
abbrev pub wrong_peer : Option (List SocketAddr) → Option SocketAddr → Bool
wrong_peer none peer = false
wrong_peer (some addresses) none = true
wrong_peer (some addresses) (some peer) = not (any (λ a. same_peer a peer) addresses)

-- `exchange` after the library has sent the request.
unfoldable pub exchange :
    Incoming → ℕ → Option (List SocketAddr) → Result TransportError HttpResponse
exchange response maximum_bytes addresses = do
  refuse_if (wrong_peer addresses response.remote_addr)
      (record { message = text "Connected peer is not a pinned destination" })
  let limit = response_limit response.status (min maximum_bytes maximum_transport_bytes)
  refuse_if (declares_more response.content_length limit)
      (record { message = text "ODP response declares more than the transport will read" })
  body ← read_chunks limit [] response.chunks
  ok (record {
    body = body;
    headers = collect_fields (readable response.headers);
    status = response.status;
  })
