-- ===== src/Agent/Destinations/Judged.antt =====
-- crates/odp-agent/src/destinations.rs: the addresses that a secure transport connects to.
use odp_rust.Prelude.{
  ℕ, ◌≡◌, ◌⊎◌, Bool, true, false, ◌&&◌, List, [], ◌∷◌, map, All, ok, arith, Result-cases, inl, inr,
  Option-cases, subst,
}
use odp_rust.Prelude.Text.{Text, trim_end_matches, trim_start_matches}
use odp_rust.Core.Addresses.{IpAddr, is_public}
use odp_rust.Core.References.Url.{is_loopback}
use odp_rust.Directory.Transport.{HttpRequest, SocketAddr, Transport}
use odp_rust.Agent.Destinations.{
  Resolver, is_local_development_host, judge, judged_destinations, resolve, endpoint,
  public_destinations, secure_send_limited,
}

-- An address that the public internet routes; or, of a host of local development where that is
-- allowed, a loopback address.
abbrev pub IsPermitted : Bool → Text → IpAddr → Type 0
IsPermitted allow_local_network host address =
    (((is_local_development_host host && allow_local_network) ≡ false) × (is_public address ≡ true))
    ⊎ (((is_local_development_host host && allow_local_network) ≡ true)
        × (is_loopback address ≡ true))

abbrev pub ArePermitted : Bool → Text → List SocketAddr → Type 0
ArePermitted allow_local_network host = All (λ a. IsPermitted allow_local_network host a.ip)

judge_inv :
    (allow : Bool) (host : Text) (port : ℕ) (addresses : List IpAddr)
    → judge (is_local_development_host host && allow) host addresses ≡ ok tt
    → ArePermitted allow host (map (λ address. record { ip = address; port = port }) addresses)
unfolding judge
judge_inv allow host port [] h = tt
judge_inv allow host port (address ∷ addresses) h =
    (ground arith, judge_inv allow host port addresses (ground arith))

judged_destinations_inv :
    (allow : Bool) (host : Text) (port : ℕ) (addresses : List IpAddr) (found : List SocketAddr)
    → judged_destinations allow host port addresses ≡ ok found
    → ArePermitted allow host found
unfolding judged_destinations
judged_destinations_inv allow host port addresses found h =
    let fine : judge (is_local_development_host host && allow) host addresses ≡ ok tt =
      ground arith in
    let same : map (λ address. record { ip = address; port = port }) addresses ≡ found =
      ground arith in
    subst (ArePermitted allow host) same (judge_inv allow host port addresses fine)

module _ {W : Type 0} (resolver : Resolver W) (allow : Bool) where
  -- The destinations are permitted for the host that the target names.
  abbrev pub IsGuarded : Text → List SocketAddr → Type 0
  IsGuarded target destinations =
      (named : Text × ℕ) × (endpoint resolver target ≡ ok named)
      × ArePermitted allow named.0 destinations

  -- The addresses that a target resolves to are returned only if every one of them is public, or
  -- loopback for a host of local development where that is allowed.
  pub public_destinations-IsGuarded :
      (target : Text) (w : W) (found : List SocketAddr)
      → (public_destinations resolver target allow w).0 ≡ ok found
      → IsGuarded target found
  unfolding public_destinations
  public_destinations-IsGuarded target w found h = elim (Result-cases (endpoint resolver target)) [
    | inr (e, refused) ↦ absurd (ground arith)
    | inl (named, given) ↦ elim (Result-cases (resolve resolver named.0 named.1 w).0) [
      | inr (e, failed) ↦ absurd (ground arith)
      | inl (addresses, resolved) ↦ (
        named,
        given,
        judged_destinations_inv allow named.0 named.1 addresses found (ground arith),
      )
    ]
  ]

  resolve-Keeps :
      (K : W → Type 0)
      (resolves : (host : Text) (port : ℕ) (w : W)
        → K w
        → K (resolver.to_socket_addrs host port w).1)
      (host : Text) (port : ℕ) (w : W)
      → K w
      → K (resolve resolver host port w).1
  unfolding resolve
  resolve-Keeps K resolves host port w k =
      elim (Option-cases
        (resolver.parse_address (trim_end_matches 93 (trim_start_matches 91 host)))) [
          | inl name ↦ rw (resolve, name) (resolves host port w k)
          | inr (address, literal) ↦ rw (resolve, literal) k
        ]

  public_destinations-Keeps :
      (K : W → Type 0)
      (resolves : (host : Text) (port : ℕ) (w : W)
        → K w
        → K (resolver.to_socket_addrs host port w).1)
      (target : Text) (w : W)
      → K w
      → K (public_destinations resolver target allow w).1
  unfolding public_destinations
  public_destinations-Keeps K resolves target w k = elim (Result-cases (endpoint resolver target)) [
    | inr (e, refused) ↦ rw (public_destinations, refused) k
    | inl (named, given) ↦
        rw (public_destinations, given) (resolve-Keeps K resolves named.0 named.1 w k)
  ]

  module _ (inner : Transport W) where
    -- Whatever holds of the world and is kept by name resolution, and by each send to destinations
    -- that are each public, or each loopback for a host of local development where that is allowed,
    -- is kept by the sends of the secure transport.
    pub secure_send_limited-Keeps :
        (K : W → Type 0)
        (resolves : (host : Text) (port : ℕ) (w : W)
          → K w
          → K (resolver.to_socket_addrs host port w).1)
        (sends : (request : HttpRequest) (destinations : List SocketAddr) (maximum : ℕ)
          → IsGuarded request.url destinations
          → (w : W) → K w
          → K (inner.send_to request destinations maximum w).1)
        (request : HttpRequest) (maximum : ℕ) (w : W)
        → K w
        → K (secure_send_limited resolver allow inner request maximum w).1
    unfolding secure_send_limited
    secure_send_limited-Keeps K resolves sends request maximum w k =
        let after = (public_destinations resolver request.url allow w).1 in
        let k' = public_destinations-Keeps K resolves request.url w k in
        elim (Result-cases (public_destinations resolver request.url allow w).0) [
          | inr (e, refused) ↦ rw (secure_send_limited, refused) k'
          | inl (found, judged) ↦
              rw (secure_send_limited, judged)
                (sends request found maximum
                  (public_destinations-IsGuarded request.url w found judged) after k')
        ]
