-- ===== src/Core/Addresses/Judgement.antt =====
-- Which addresses are judged public.
use odp_rust.Prelude.{
  ℕ, zero, suc, ◌+◌, ◌*◌, ◌/◌, ◌%◌, ◌<◌, ◌≡◌, refl, ◌↔◌, Bool, true, false, not, List, [], ◌∷◌,
  some, arith, All, any, get_elem?, Bool-cases, inl, inr, ap,
}
use odp_rust.Core.Addresses.{
  IpAddr, v4_addr, v6_addr, v6, IsAddress, Prefix, non_public, contains, unmap, is_public,
  matches_bits,
}
use odp_rust.Core.Addresses.Prefixes.{Covers, IsPrefix, contains_iff, non_public-IsPrefix}

unmap-IsAddress : (a : IpAddr) → IsAddress a → IsAddress (unmap a)
unfolding unmap
unmap-IsAddress (v4_addr a b c d) h = h
unmap-IsAddress (v6_addr s0 s1 s2 s3 s4 s5 s6 s7) h = ground arith

none-Covers_iff :
    (a : IpAddr) (table : List Prefix)
    → IsAddress a
    → All IsPrefix table
    → (any (λ p. contains p a) table ≡ false) ↔ All (λ p. ¬ Covers p a) table
none-Covers_iff a [] ha hp = (λ _. tt, λ _. refl)
none-Covers_iff a (p ∷ table) ha (hp, hs) =
    let here = contains_iff p a hp ha in
    let (sound, complete) = none-Covers_iff a table ha hs in
    elim (Bool-cases (contains p a)) [
      | inl covered ↦ rw covered ((λ h. cc), λ h. absurd (h.0 (here.0 covered)))
      | inr missed ↦ rw missed ((λ h. ((λ c. cc (here.1 c)), sound h)), λ h. complete h.1)
    ]

-- An address is public exactly when no special-purpose prefix of its family covers it, where an
-- IPv4-mapped address is judged as the IPv4 address that it carries.
pub is_public_iff :
    (a : IpAddr) → IsAddress a → (is_public a ≡ true) ↔ All (λ p. ¬ Covers p (unmap a)) non_public
unfolding is_public
is_public_iff a h =
    let (sound, complete) =
      none-Covers_iff (unmap a) non_public (unmap-IsAddress a h) non_public-IsPrefix in
    ((λ e. sound (ground arith)), (λ k. rw (complete k)))

-- `::ffff:a.b.c.d` is public exactly when `a.b.c.d` is, for all octets.
pub is_public-mapped :
    (a b c d : ℕ)
    → a < 256
    → b < 256
    → c < 256
    → d < 256
    → is_public (v6_addr 0 0 0 0 0 0xffff (a * 256 + b) (c * 256 + d)) ≡ is_public (v4_addr a b c d)
unfolding is_public unmap
is_public-mapped a b c d ha hb hc hd =
    let e0 : (a * 256 + b) / 256 ≡ a = omega arith in
    let e1 : (a * 256 + b) % 256 ≡ b = omega arith in
    let e2 : (c * 256 + d) / 256 ≡ c = omega arith in
    let e3 : (c * 256 + d) % 256 ≡ d = omega arith in rw (e0, e1, e2, e3)

any_at {ℓ} :
    {A : Type ℓ} (p : A → Bool) (l : List A) (i : ℕ) (x : A)
    → get_elem? l i ≡ some x
    → p x ≡ true
    → any p l ≡ true
any_at p [] i x e h = cc
any_at p (y ∷ l) zero x e h = ground arith
any_at p (y ∷ l) (suc i) x e h = ground (arith, any_at p l i x e h)

not_public_at :
    (a : IpAddr) (i : ℕ) (p : Prefix)
    → get_elem? non_public i ≡ some p
    → contains p (unmap a) ≡ true
    → is_public a ≡ false
unfolding is_public
not_public_at a i p listed covered =
    ap not (any_at (λ q. contains q (unmap a)) non_public i p listed covered)

-- No address of the NAT64, Teredo and 6to4 transition ranges is public, whatever IPv4 address it
-- embeds.
pub is_public-transition :
    (s1 s2 s3 s4 s5 s6 s7 : ℕ)
    → (is_public (v6_addr 0x64 0xff9b 0 0 0 0 s6 s7) ≡ false)
      × (is_public (v6_addr 0x2001 0 s2 s3 s4 s5 s6 s7) ≡ false)
      × (is_public (v6_addr 0x2002 s1 s2 s3 s4 s5 s6 s7) ≡ false)
unfolding is_public matches_bits
is_public-transition s1 s2 s3 s4 s5 s6 s7 = (
  not_public_at (v6_addr 0x64 0xff9b 0 0 0 0 s6 s7) 18 (v6 0x64 0xff9b 0 0 0 0 0 0 96) refl refl,
  not_public_at (v6_addr 0x2001 0 s2 s3 s4 s5 s6 s7) 21 (v6 0x2001 0 0 0 0 0 0 0 32) refl refl,
  not_public_at (v6_addr 0x2002 s1 s2 s3 s4 s5 s6 s7) 29 (v6 0x2002 0 0 0 0 0 0 0 16) refl refl,
)
