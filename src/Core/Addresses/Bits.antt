-- ===== src/Core/Addresses/Bits.antt =====
-- The leading bits of an address, as a list, and what the byte masks of addresses.rs compare.
use Prim.Native.Nat.{bit_and}
use odp_rust.Prelude.{
  ℕ, zero, suc, ◌+◌, ◌*◌, ◌/◌, ◌%◌, ◌≤◌, ◌<◌, ◌≡◌, refl, ◌↔◌, Bool, true, false, not, ◌&&◌, List,
  [], ◌∷◌, arith, ◌==◌, nat_eq, nat_eq_iff, if◌then◌else◌, take, length, All, subst,
}
use odp_rust.Prelude.Text.{text_beq, text_eq}
use odp_rust.Core.Addresses.{matches_bits, mask_of, byte_at}

-- The bits of a sequence of octets, most significant first.
abbrev pub bits_of : List ℕ → List ℕ
bits_of [] = []
bits_of (x ∷ xs) =
    (x / 128 % 2)
    ∷ (x / 64 % 2)
    ∷ (x / 32 % 2)
    ∷ (x / 16 % 2)
    ∷ (x / 8 % 2)
    ∷ (x / 4 % 2)
    ∷ (x / 2 % 2)
    ∷ (x % 2)
    ∷ bits_of xs

-- The two octet sequences agree in their first `bits` bits.
abbrev pub Agree : ℕ → List ℕ → List ℕ → Type 0
Agree bits network address = take bits (bits_of network) ≡ take bits (bits_of address)

abbrev pub IsByte : ℕ → Type 0
IsByte x = x < 256

-- A test that passes at every byte below `n`, found by running it.
passes : (ℕ → Bool) → ℕ → Bool
passes test zero = true
passes test (suc n) = passes test n && test n

passes_at : (test : ℕ → Bool) (n x : ℕ) → passes test n ≡ true → x < n → test x ≡ true
unfolding passes
passes_at test zero x h lt = absurd (omega arith)
passes_at test (suc n) x h lt = ground (arith, passes_at test n x)

-- `body` of `matches_bits`, over the whole bytes and the bits left.
matches_from : ℕ → ℕ → List ℕ → List ℕ → Bool
matches_from whole remainder network address =
    if not (take whole network == take whole address)
    then false
    else if remainder == 0
    then true
    else bit_and (byte_at network whole) (mask_of remainder)
      == bit_and (byte_at address whole) (mask_of remainder)

matches_from-suc :
    (w r x y : ℕ) (n a : List ℕ)
    → matches_from (suc w) r (x ∷ n) (y ∷ a) ≡ (x == y && matches_from w r n a)
unfolding matches_from text_beq
matches_from-suc w r x y n a = ground arith

cons_inj : {x y : ℕ} {xs ys : List ℕ} → x ∷ xs ≡ y ∷ ys → (x ≡ y) × (xs ≡ ys)
cons_inj h = (cc, cc)

count : ℕ → ℕ → ℕ
count zero r = r
count (suc w) r = suc (suc (suc (suc (suc (suc (suc (suc (count w r))))))))

count_lem : (w r : ℕ) → count w r ≡ 8 * w + r
unfolding count
count_lem zero r = omega arith
count_lem (suc w) r = omega (arith, count_lem w r)

mask_1 : (x : ℕ) → x < 256 → bit_and x (mask_of 1) ≡ x / 128 * 128
unfolding passes
mask_1 x h =
    (nat_eq_iff _ _).0 (passes_at (λ x. bit_and x (mask_of 1) == x / 128 * 128) 256 x refl h)

mask_2 : (x : ℕ) → x < 256 → bit_and x (mask_of 2) ≡ x / 64 * 64
unfolding passes
mask_2 x h = (nat_eq_iff _ _).0 (passes_at (λ x. bit_and x (mask_of 2) == x / 64 * 64) 256 x refl h)

mask_3 : (x : ℕ) → x < 256 → bit_and x (mask_of 3) ≡ x / 32 * 32
unfolding passes
mask_3 x h = (nat_eq_iff _ _).0 (passes_at (λ x. bit_and x (mask_of 3) == x / 32 * 32) 256 x refl h)

mask_4 : (x : ℕ) → x < 256 → bit_and x (mask_of 4) ≡ x / 16 * 16
unfolding passes
mask_4 x h = (nat_eq_iff _ _).0 (passes_at (λ x. bit_and x (mask_of 4) == x / 16 * 16) 256 x refl h)

mask_5 : (x : ℕ) → x < 256 → bit_and x (mask_of 5) ≡ x / 8 * 8
unfolding passes
mask_5 x h = (nat_eq_iff _ _).0 (passes_at (λ x. bit_and x (mask_of 5) == x / 8 * 8) 256 x refl h)

mask_6 : (x : ℕ) → x < 256 → bit_and x (mask_of 6) ≡ x / 4 * 4
unfolding passes
mask_6 x h = (nat_eq_iff _ _).0 (passes_at (λ x. bit_and x (mask_of 6) == x / 4 * 4) 256 x refl h)

mask_7 : (x : ℕ) → x < 256 → bit_and x (mask_of 7) ≡ x / 2 * 2
unfolding passes
mask_7 x h = (nat_eq_iff _ _).0 (passes_at (λ x. bit_and x (mask_of 7) == x / 2 * 2) 256 x refl h)

part_1 :
    (x y : ℕ) (n a : List ℕ)
    → x < 256
    → y < 256
    → (matches_from 0 1 (x ∷ n) (y ∷ a) ≡ true) ↔ Agree 1 (x ∷ n) (y ∷ a)
unfolding matches_from text_beq
part_1 x y n a hx hy = (
  (λ h. ground (arith, mask_1 x hx, mask_1 y hy)),
  (λ h. ground (arith, mask_1 x hx, mask_1 y hy)),
)

part_2 :
    (x y : ℕ) (n a : List ℕ)
    → x < 256
    → y < 256
    → (matches_from 0 2 (x ∷ n) (y ∷ a) ≡ true) ↔ Agree 2 (x ∷ n) (y ∷ a)
unfolding matches_from text_beq
part_2 x y n a hx hy = (
  (λ h. ground (arith, mask_2 x hx, mask_2 y hy)),
  (λ h. ground (arith, mask_2 x hx, mask_2 y hy)),
)

part_3 :
    (x y : ℕ) (n a : List ℕ)
    → x < 256
    → y < 256
    → (matches_from 0 3 (x ∷ n) (y ∷ a) ≡ true) ↔ Agree 3 (x ∷ n) (y ∷ a)
unfolding matches_from text_beq
part_3 x y n a hx hy = (
  (λ h. ground (arith, mask_3 x hx, mask_3 y hy)),
  (λ h. ground (arith, mask_3 x hx, mask_3 y hy)),
)

part_4 :
    (x y : ℕ) (n a : List ℕ)
    → x < 256
    → y < 256
    → (matches_from 0 4 (x ∷ n) (y ∷ a) ≡ true) ↔ Agree 4 (x ∷ n) (y ∷ a)
unfolding matches_from text_beq
part_4 x y n a hx hy = (
  (λ h. ground (arith, mask_4 x hx, mask_4 y hy)),
  (λ h. ground (arith, mask_4 x hx, mask_4 y hy)),
)

part_5 :
    (x y : ℕ) (n a : List ℕ)
    → x < 256
    → y < 256
    → (matches_from 0 5 (x ∷ n) (y ∷ a) ≡ true) ↔ Agree 5 (x ∷ n) (y ∷ a)
unfolding matches_from text_beq
part_5 x y n a hx hy = (
  (λ h. ground (arith, mask_5 x hx, mask_5 y hy)),
  (λ h. ground (arith, mask_5 x hx, mask_5 y hy)),
)

part_6 :
    (x y : ℕ) (n a : List ℕ)
    → x < 256
    → y < 256
    → (matches_from 0 6 (x ∷ n) (y ∷ a) ≡ true) ↔ Agree 6 (x ∷ n) (y ∷ a)
unfolding matches_from text_beq
part_6 x y n a hx hy = (
  (λ h. ground (arith, mask_6 x hx, mask_6 y hy)),
  (λ h. ground (arith, mask_6 x hx, mask_6 y hy)),
)

part_7 :
    (x y : ℕ) (n a : List ℕ)
    → x < 256
    → y < 256
    → (matches_from 0 7 (x ∷ n) (y ∷ a) ≡ true) ↔ Agree 7 (x ∷ n) (y ∷ a)
unfolding matches_from text_beq
part_7 x y n a hx hy = (
  (λ h. ground (arith, mask_7 x hx, mask_7 y hy)),
  (λ h. ground (arith, mask_7 x hx, mask_7 y hy)),
)

matches_from_part :
    (r : ℕ) (n a : List ℕ)
    → r < 8
    → r ≤ 8 * length n
    → length n ≡ length a
    → All IsByte n
    → All IsByte a
    → (matches_from 0 r n a ≡ true) ↔ Agree r n a
unfolding matches_from text_beq
matches_from_part zero n a lt fits same hn ha = (λ _. refl, λ _. refl)
matches_from_part (suc zero) (x ∷ n) (y ∷ a) lt fits same hn ha = part_1 x y n a hn.0 ha.0
matches_from_part (suc (suc zero)) (x ∷ n) (y ∷ a) lt fits same hn ha = part_2 x y n a hn.0 ha.0
matches_from_part (suc (suc (suc zero))) (x ∷ n) (y ∷ a) lt fits same hn ha =
    part_3 x y n a hn.0 ha.0
matches_from_part (suc (suc (suc (suc zero)))) (x ∷ n) (y ∷ a) lt fits same hn ha =
    part_4 x y n a hn.0 ha.0
matches_from_part (suc (suc (suc (suc (suc zero))))) (x ∷ n) (y ∷ a) lt fits same hn ha =
    part_5 x y n a hn.0 ha.0
matches_from_part (suc (suc (suc (suc (suc (suc zero)))))) (x ∷ n) (y ∷ a) lt fits same hn ha =
    part_6 x y n a hn.0 ha.0
matches_from_part (suc (suc (suc (suc (suc (suc (suc zero))))))) (x ∷ n) (y ∷ a) lt fits same hn
      ha =
    part_7 x y n a hn.0 ha.0
matches_from_part (suc (suc (suc (suc (suc (suc (suc (suc r)))))))) n a lt fits same hn ha =
    absurd (omega arith)
matches_from_part (suc r) [] a lt fits same hn ha = absurd (omega arith)
matches_from_part (suc r) (x ∷ n) [] lt fits same hn ha = absurd (omega arith)

byte_eq_of_bits :
    (x y : ℕ) (n a : List ℕ) (k : ℕ)
    → Agree (suc (suc (suc (suc (suc (suc (suc (suc k)))))))) (x ∷ n) (y ∷ a)
    → x < 256
    → y < 256
    → (x ≡ y) × Agree k n a
byte_eq_of_bits x y n a k h hx hy = (ground arith, cc)

matches_from_iff :
    (w r : ℕ) (n a : List ℕ)
    → r < 8
    → count w r ≤ 8 * length n
    → length n ≡ length a
    → All IsByte n
    → All IsByte a
    → (matches_from w r n a ≡ true) ↔ Agree (count w r) n a
unfolding count
matches_from_iff zero r n a lt fits same hn ha = matches_from_part r n a lt fits same hn ha
matches_from_iff (suc w) r (x ∷ n) (y ∷ a) lt fits same hn ha =
    let ih = matches_from_iff w r n a lt (omega arith) (omega arith) hn.1 ha.1 in
    (
      (λ h. ground (arith, matches_from-suc w r x y n a, ih)),
      (λ h.
          let (e, rest) = byte_eq_of_bits x y n a (count w r) h hn.0 ha.0 in
          rw (matches_from-suc w r x y n a) (ground (arith, ih.1 rest))),
    )
matches_from_iff (suc w) r [] a lt fits same hn ha = absurd (omega arith)
matches_from_iff (suc w) r (x ∷ n) [] lt fits same hn ha = absurd (omega arith)

-- Byte comparison and masking decide whether the first `bits` bits of two octet sequences of one
-- length agree, whenever the sequences are that long.
pub matches_bits_iff :
    (network address : List ℕ) (bits : ℕ)
    → All IsByte network
    → All IsByte address
    → length network ≡ length address
    → bits ≤ 8 * length network
    → (matches_bits network address bits ≡ true) ↔ Agree bits network address
unfolding matches_bits matches_from
matches_bits_iff network address bits hn ha same fits =
    let e = count_lem (bits / 8) (bits % 8) in
    let whole : count (bits / 8) (bits % 8) ≡ bits = omega (arith, e) in
    subst
      (λ k. (matches_from (bits / 8) (bits % 8) network address ≡ true) ↔ Agree k network address)
      whole
      (matches_from_iff (bits / 8) (bits % 8) network address (omega arith) (omega arith) same hn
        ha)
