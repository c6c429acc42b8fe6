-- ===== src/Agent/Destinations.antt =====
-- crates/odp-agent/src/destinations.rs: where an Agent is willing to connect. Name resolution is a
-- step of the world `W`; the reading of a URL's host and port and of an address are parameters.
pub mod Judged
mod Tests
use odp_rust.Prelude.{
  ℕ, ◌*◌, Bool, true, false, not, ◌&&◌, ◌||◌, Option, none, some, List, [], ◌∷◌, ◌++◌, map, Result,
  ok, err, ◌>>=◌, ◌>>◌, map_err, refuse_if, ok_or, if◌then◌else◌, ◌==◌,
}
use odp_rust.Prelude.Text.{
  Text, text, text_eq, is_empty, eq_ignore_ascii_case, trim_start_matches, trim_end_matches,
}
use odp_rust.Core.Addresses.{IpAddr, is_public}
use odp_rust.Core.References.Url.{UrlLib, is_loopback}
use odp_rust.Directory.Transport.{HttpRequest, HttpResponse, TransportError, SocketAddr, Transport}

-- Name resolution fails where its thread does, or where the lookup does.
pub data LookupError : Type 0 where
  join_error io_error : Text → LookupError

pub record Resolver (W : Type 0) : Type 1 where
  pub url_lib : UrlLib
  pub host_str : url_lib.Url → Option Text
  pub port_or_known_default : url_lib.Url → Option ℕ
  pub parse_address : Text → Option IpAddr
  pub to_socket_addrs : Text → ℕ → W → Result LookupError (List IpAddr) × W

unfoldable pub is_local_development_host : Text → Bool
is_local_development_host host =
    eq_ignore_ascii_case host (text "localhost")
    || host == text "127.0.0.1"
    || host == text "::1"
    || host == text "[::1]"

abbrev pub lookup_failure : LookupError → TransportError
lookup_failure (join_error e) = record { message = e }
lookup_failure (io_error e) = record { message = text "ODP request host did not resolve: " ++ e }

-- The loop over the addresses.
unfoldable pub judge : Bool → Text → List IpAddr → Result TransportError (Unit {0})
judge loopback_only host [] = ok tt
judge loopback_only host (address ∷ addresses) =
    let rest = judge loopback_only host addresses in
    if loopback_only
    then (if not (is_loopback address)
        then err (record {
          message = text "ODP local-development host resolved outside the loopback network";
        })
        else rest)
    else if not (is_public address)
    then err (record {
      message = text "ODP request host " ++ host ++ text " resolved to a non-public address";
    })
    else rest

-- What follows the resolution of a host.
unfoldable pub judged_destinations :
    Bool → Text → ℕ → List IpAddr → Result TransportError (List SocketAddr)
judged_destinations allow_local_network host port addresses = do
  refuse_if (is_empty addresses)
      (record { message = text "ODP request host " ++ host ++ text " did not resolve" })
  judge (is_local_development_host host && allow_local_network) host addresses
  ok (map (λ address. record { ip = address; port = port }) addresses)

abbrev pub or_https : Option ℕ → ℕ
or_https none = 443
or_https (some port) = port

module _ {W : Type 0} (resolver : Resolver W) where
  open resolver use {url_lib, host_str, port_or_known_default, parse_address, to_socket_addrs}

  unfoldable pub resolve : Text → ℕ → W → Result TransportError (List IpAddr) × W
  resolve host port w = elim (parse_address (trim_end_matches 93 (trim_start_matches 91 host))) [
    | some address ↦ (ok (address ∷ []), w)
    | none ↦ let (found, w') = to_socket_addrs host port w in (map_err lookup_failure found, w')
  ]

  -- The host and the port of a target.
  unfoldable pub endpoint : Text → Result TransportError (Text × ℕ)
  endpoint target = do
    url ← map_err (λ e. record { message = e }) (url_lib.parse target)
    host ← ok_or (host_str url) (record { message = text "ODP request target must name a host" })
    ok (host, or_https (port_or_known_default url))

  unfoldable pub public_destinations : Text → Bool → W → Result TransportError (List SocketAddr) × W
  public_destinations target allow_local_network w = elim (endpoint target) [
    | err e ↦ (err e, w)
    | ok named ↦
        let (addresses, w') = resolve named.0 named.1 w in
        (addresses >>= judged_destinations allow_local_network named.0 named.1, w')
  ]

  unfoldable pub require_public_destination : Text → Bool → W → Result TransportError (Unit {0}) × W
  require_public_destination target allow_local_network w =
      let (addresses, w') = public_destinations target allow_local_network w in
      (addresses >>= (λ found. ok tt), w')

  -- `impl Transport for SecureTransport`, over the transport that it wraps.
  module _ (allow_local_network : Bool) (inner : Transport W) where
    unfoldable pub secure_send_limited :
        HttpRequest → ℕ → W → Result TransportError HttpResponse × W
    secure_send_limited request maximum_bytes w =
        let (addresses, w') = public_destinations request.url allow_local_network w in
        elim addresses [
          | err e ↦ (err e, w')
          | ok destinations ↦ inner.send_to request destinations maximum_bytes w'
        ]

    unfoldable pub secure_send : HttpRequest → W → Result TransportError HttpResponse × W
    secure_send request = secure_send_limited request (2 * 1024 * 1024)
