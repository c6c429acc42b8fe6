-- ===== src/Core/Addresses/Tests.antt =====
-- Runs of addresses.rs, and its theorems at concrete addresses.
use odp_rust.Prelude.{◌≡◌, refl, ◌↔◌, true, false, arith, All}
use odp_rust.Core.Addresses.{
  v4_addr, v6_addr, v4, non_public, contains, unmap, is_public, matches_bits,
}
use odp_rust.Core.Addresses.Prefixes.{Covers}
use odp_rust.Core.Addresses.Judgement.{is_public_iff}

judged :
    (is_public (v4_addr 8 8 8 8) ≡ true)
    × (is_public (v4_addr 169 254 169 254) ≡ false)
    × (is_public (v4_addr 198 19 0 1) ≡ false)
    × (is_public (v6_addr 0x2001 0x4860 0x4860 0 0 0 0 0x8888) ≡ true)
    × (is_public (v6_addr 0xfd12 0 0 0 0 0 0 1) ≡ false)
    × (contains (v4 10 0 0 0 8) (v6_addr 0 0 0 0 0 0 0 1) ≡ false)
unfolding is_public matches_bits
judged = (refl, refl, refl, refl, refl, refl)

is_public_iff_example :
    (is_public (v4_addr 8 8 8 8) ≡ true)
    ↔ All (λ p. ¬ Covers p (unmap (v4_addr 8 8 8 8))) non_public
is_public_iff_example = is_public_iff (v4_addr 8 8 8 8) (omega arith)
