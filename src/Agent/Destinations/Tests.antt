-- ===== src/Agent/Destinations/Tests.antt =====
-- A resolver that knows one public address, and a transport that keeps what it connects to.
use odp_rust.Prelude.{◌≡◌, refl, true, false, some, none, List, [], ◌∷◌, All, ok, err}
use odp_rust.Prelude.Text.{
  Text, text, text_beq, strip_prefix, eq_ignore_ascii_case, trim_start_matches, trim_end_matches,
}
use odp_rust.Core.Addresses.{IpAddr, v4_addr, is_public, contains, matches_bits, non_public, unmap}
use odp_rust.Core.References.Toy.{toy, toy_parse}
use odp_rust.Directory.Transport.{HttpRequest, HttpResponse, SocketAddr, Transport}
use odp_rust.Agent.Destinations.{
  Resolver, is_local_development_host, judge, judged_destinations, resolve, endpoint,
  public_destinations, secure_send_limited,
}
use odp_rust.Agent.Destinations.Judged.{ArePermitted, secure_send_limited-Keeps}

destinations : Unit {0}
unfolding toy_parse strip_prefix text_beq eq_ignore_ascii_case trim_start_matches trim_end_matches
    is_public contains matches_bits non_public unmap is_local_development_host judge
    judged_destinations resolve endpoint public_destinations secure_send_limited
destinations = tt

abbrev Log : Type 0
Log = List (List SocketAddr)

abbrev resolver : IpAddr → Resolver Log
resolver address = record {
  url_lib = toy;
  host_str = λ url. some url.authority;
  port_or_known_default = λ url. none;
  parse_address = λ host. none;
  to_socket_addrs = λ host port log. (ok (address ∷ []), log);
}

abbrev peer : SocketAddr
peer = record { ip = v4_addr 93 184 216 34; port = 443 }

finds :
    public_destinations
      (resolver (v4_addr 93 184 216 34))
      (text "https://shop.example/odp")
      false
      []
    ≡ (ok (peer ∷ []), [])
unfolding destinations
finds = refl

refuses :
    (public_destinations
      (resolver (v4_addr 169 254 169 254))
      (text "https://shop.example/odp")
      true
      []).0
    ≡ err
        (record { message = text "ODP request host shop.example resolved to a non-public address" })
unfolding destinations
refuses = refl

abbrev empty : HttpResponse
empty = record { body = []; headers = []; status = 204 }

abbrev recorder : Transport Log
recorder = record {
  send = λ request log. (ok empty, log);
  send_limited = λ request limit log. (ok empty, log);
  send_to = λ request found limit log. (ok empty, found ∷ log);
}

abbrev request : HttpRequest
request = record {
  body = [];
  headers = [];
  method = text "GET";
  url = text "https://shop.example/odp";
}

abbrev Permitted : Log → Type 0
Permitted = All (λ found. (host : Text) × ArePermitted false host found)

secure_send_limited-Keeps_example :
    Permitted
      (secure_send_limited (resolver (v4_addr 93 184 216 34)) false recorder request 100 []).1
secure_send_limited-Keeps_example =
    secure_send_limited-Keeps (resolver (v4_addr 93 184 216 34)) false recorder Permitted
      (λ host port log k. k) (λ sent found limit guarded log k. ((guarded.0.0, guarded.2), k))
      request 100 [] tt
