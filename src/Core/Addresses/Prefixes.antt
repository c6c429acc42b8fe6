-- ===== src/Core/Addresses/Prefixes.antt =====
-- Which addresses a prefix of the table covers.
use odp_rust.Prelude.{ℕ, ◌*◌, ◌≤◌, ◌≡◌, refl, ◌↔◌, true, arith, length, All}
use odp_rust.Core.Addresses.{
  IpAddr, v4_addr, v6_addr, IsAddress, octets, Prefix, non_public, contains,
}
use odp_rust.Core.Addresses.Bits.{Agree, IsByte, matches_bits_iff}

-- One family, and the leading bits of the network.
abbrev pub CoversNetwork : IpAddr → IpAddr → ℕ → Type 0
CoversNetwork (v4_addr a b c d) (v4_addr e f g h) bits =
    Agree bits (octets (v4_addr a b c d)) (octets (v4_addr e f g h))
CoversNetwork (v6_addr a b c d e f g h) (v6_addr i j k l m n o p) bits =
    Agree bits (octets (v6_addr a b c d e f g h)) (octets (v6_addr i j k l m n o p))
CoversNetwork _ _ bits = ⊥

abbrev pub Covers : Prefix → IpAddr → Type 0
Covers prefix address = CoversNetwork prefix.network address prefix.bits

-- A prefix of octets in range that is no longer than its network.
abbrev pub IsPrefix : Prefix → Type 0
IsPrefix p = IsAddress p.network × (p.bits ≤ 8 * length (octets p.network))

octets-IsByte : (a : IpAddr) → IsAddress a → All IsByte (octets a)
octets-IsByte (v4_addr a b c d) h = omega arith
octets-IsByte (v6_addr s0 s1 s2 s3 s4 s5 s6 s7) h = omega arith

contains_network_iff :
    (network address : IpAddr) (bits : ℕ)
    → IsAddress network
    → IsAddress address
    → bits ≤ 8 * length (octets network)
    → (contains (record { bits = bits; network = network }) address ≡ true)
      ↔ CoversNetwork network address bits
unfolding contains
contains_network_iff (v4_addr a b c d) (v4_addr e f g h) bits hn ha fits =
    matches_bits_iff _ _ bits (octets-IsByte (v4_addr a b c d) hn)
      (octets-IsByte (v4_addr e f g h) ha) refl fits
contains_network_iff (v6_addr a b c d e f g h) (v6_addr i j k l m n o p) bits hn ha fits =
    matches_bits_iff _ _ bits (octets-IsByte (v6_addr a b c d e f g h) hn)
      (octets-IsByte (v6_addr i j k l m n o p) ha) refl fits
contains_network_iff (v4_addr a b c d) (v6_addr i j k l m n o p) bits hn ha fits =
    (λ h. cc, λ h. absurd h)
contains_network_iff (v6_addr a b c d e f g h) (v4_addr i j k l) bits hn ha fits =
    (λ h. cc, λ h. absurd h)

pub contains_iff :
    (p : Prefix) (a : IpAddr) → IsPrefix p → IsAddress a → (contains p a ≡ true) ↔ Covers p a
contains_iff p a hp ha = contains_network_iff p.network a p.bits hp.0 ha hp.1

pub non_public-IsPrefix : All IsPrefix non_public
unfolding non_public
non_public-IsPrefix = omega arith
