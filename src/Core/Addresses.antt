-- ===== src/Core/Addresses.antt =====
-- crates/odp-core/src/addresses.rs: the addresses the public internet does not route.
-- An address is its octets or segments, each below its modulus in `IsAddress`.
pub mod Bits
pub mod Prefixes
pub mod Judgement
mod Tests
use Prim.Native.Nat.{bit_and}
use mathlib.Core.Option
use odp_rust.Prelude.{
  ℕ, ◌+◌, ◌-◌, ◌*◌, ◌/◌, ◌%◌, ◌^◌, ◌<◌, Bool, true, false, not, ◌&&◌, List, [], ◌∷◌, Option, none,
  some, ◌==◌, nat_eq, if◌then◌else◌, take, get_elem?, any,
}
use odp_rust.Prelude.Text.{text_beq, text_eq}

-- `std::net::IpAddr`.
pub data IpAddr : Type 0 where
  v4_addr : (a b c d : ℕ) → IpAddr
  v6_addr : (s0 s1 s2 s3 s4 s5 s6 s7 : ℕ) → IpAddr

-- The ranges of `u8` and `u16`.
abbrev pub IsAddress : IpAddr → Type 0
IsAddress (v4_addr a b c d) = (a < 256) × (b < 256) × (c < 256) × (d < 256)
IsAddress (v6_addr s0 s1 s2 s3 s4 s5 s6 s7) =
    (s0 < 65536)
    × (s1 < 65536)
    × (s2 < 65536)
    × (s3 < 65536)
    × (s4 < 65536)
    × (s5 < 65536)
    × (s6 < 65536)
    × (s7 < 65536)

-- `octets()`, most significant first.
abbrev pub octets : IpAddr → List ℕ
octets (v4_addr a b c d) = a ∷ b ∷ c ∷ d ∷ []
octets (v6_addr s0 s1 s2 s3 s4 s5 s6 s7) =
    (s0 / 256)
    ∷ (s0 % 256)
    ∷ (s1 / 256)
    ∷ (s1 % 256)
    ∷ (s2 / 256)
    ∷ (s2 % 256)
    ∷ (s3 / 256)
    ∷ (s3 % 256)
    ∷ (s4 / 256)
    ∷ (s4 % 256)
    ∷ (s5 / 256)
    ∷ (s5 % 256)
    ∷ (s6 / 256)
    ∷ (s6 % 256)
    ∷ (s7 / 256)
    ∷ (s7 % 256)
    ∷ []

pub record Prefix : Type 0 where
  pub bits : ℕ
  pub network : IpAddr

abbrev pub v4 : ℕ → ℕ → ℕ → ℕ → ℕ → Prefix
v4 a b c d bits = record { bits = bits; network = v4_addr a b c d }

abbrev pub v6 : ℕ → ℕ → ℕ → ℕ → ℕ → ℕ → ℕ → ℕ → ℕ → Prefix
v6 s0 s1 s2 s3 s4 s5 s6 s7 bits = record { bits = bits; network = v6_addr s0 s1 s2 s3 s4 s5 s6 s7 }

unfoldable pub non_public : List Prefix
non_public =
    v4 0 0 0 0 8
    ∷ v4 10 0 0 0 8
    ∷ v4 100 64 0 0 10
    ∷ v4 127 0 0 0 8
    ∷ v4 169 254 0 0 16
    ∷ v4 172 16 0 0 12
    ∷ v4 192 0 0 0 24
    ∷ v4 192 0 2 0 24
    ∷ v4 192 31 196 0 24
    ∷ v4 192 88 99 0 24
    ∷ v4 192 168 0 0 16
    ∷ v4 192 175 48 0 24
    ∷ v4 198 18 0 0 15
    ∷ v4 198 51 100 0 24
    ∷ v4 203 0 113 0 24
    ∷ v4 224 0 0 0 4
    ∷ v4 240 0 0 0 4
    ∷ v6 0 0 0 0 0 0 0 0 96
    ∷ v6 0x64 0xff9b 0 0 0 0 0 0 96
    ∷ v6 0x64 0xff9b 1 0 0 0 0 0 48
    ∷ v6 0x100 0 0 0 0 0 0 0 64
    ∷ v6 0x2001 0 0 0 0 0 0 0 32
    ∷ v6 0x2001 2 0 0 0 0 0 0 48
    ∷ v6 0x2001 3 0 0 0 0 0 0 32
    ∷ v6 0x2001 4 0x112 0 0 0 0 0 48
    ∷ v6 0x2001 0x10 0 0 0 0 0 0 28
    ∷ v6 0x2001 0x20 0 0 0 0 0 0 28
    ∷ v6 0x2001 0x30 0 0 0 0 0 0 28
    ∷ v6 0x2001 0xdb8 0 0 0 0 0 0 32
    ∷ v6 0x2002 0 0 0 0 0 0 0 16
    ∷ v6 0x2620 0x4f 0x8000 0 0 0 0 0 48
    ∷ v6 0x5f00 0 0 0 0 0 0 0 16
    ∷ v6 0xfc00 0 0 0 0 0 0 0 7
    ∷ v6 0xfe80 0 0 0 0 0 0 0 10
    ∷ v6 0xfec0 0 0 0 0 0 0 0 10
    ∷ v6 0xff00 0 0 0 0 0 0 0 8
    ∷ []

-- `network[i]`, which the prefixes of the table keep in range.
abbrev pub byte_at : List ℕ → ℕ → ℕ
byte_at l i = Option.get_or (get_elem? l i) 0

-- `0xffu8 << (8 - remainder)`: the bits shifted out of the byte are dropped.
abbrev pub mask_of : ℕ → ℕ
mask_of remainder = 255 * 2 ^ (8 - remainder) % 256

unfoldable pub matches_bits : List ℕ → List ℕ → ℕ → Bool
unfolding text_beq
matches_bits network address bits =
    let whole = bits / 8 in
    let remainder = bits % 8 in
    if not (take whole network == take whole address)
    then false
    else if remainder == 0
    then true
    else bit_and (byte_at network whole) (mask_of remainder)
      == bit_and (byte_at address whole) (mask_of remainder)

abbrev pub contains_network : IpAddr → IpAddr → ℕ → Bool
contains_network (v4_addr a b c d) (v4_addr e f g h) bits =
    matches_bits (octets (v4_addr a b c d)) (octets (v4_addr e f g h)) bits
contains_network (v6_addr a b c d e f g h) (v6_addr i j k l m n o p) bits =
    matches_bits (octets (v6_addr a b c d e f g h)) (octets (v6_addr i j k l m n o p)) bits
contains_network _ _ bits = false

unfoldable pub contains : Prefix → IpAddr → Bool
contains prefix address = contains_network prefix.network address prefix.bits

-- `to_ipv4_mapped`: `::ffff:a.b.c.d`.
abbrev pub mapped_segments : ℕ → ℕ → ℕ → ℕ → ℕ → ℕ → Bool
mapped_segments s0 s1 s2 s3 s4 s5 =
    s0 == 0 && s1 == 0 && s2 == 0 && s3 == 0 && s4 == 0 && s5 == 0xffff

unfoldable pub unmap : IpAddr → IpAddr
unmap (v6_addr s0 s1 s2 s3 s4 s5 s6 s7) =
    if mapped_segments s0 s1 s2 s3 s4 s5
    then v4_addr (s6 / 256) (s6 % 256) (s7 / 256) (s7 % 256)
    else v6_addr s0 s1 s2 s3 s4 s5 s6 s7
unmap (v4_addr a b c d) = v4_addr a b c d

unfoldable pub is_public : IpAddr → Bool
unfolding non_public contains unmap
is_public address =
    let judged = unmap address in not (any (λ prefix. contains prefix judged) non_public)
