-- ===== src/Prelude/Numbers.antt =====
-- `parse::<u64>()` and `parse::<usize>()` of the standard library.
use Prim.Native.Nat.{ℕ, zero, suc, ◌/◌, ◌%◌, ◌+◌, ◌*◌, ◌-◌, ◌^◌}
use mathlib.Core.Bool.{true, false, ◌&&◌}
use mathlib.Core.Option.{Option, none, some}
use mathlib.Core.List.{[], ◌∷◌}
use odp_rust.Prelude.Tests.{nat_eq, ◌==◌, leb, ltb, if◌then◌else◌}
use odp_rust.Prelude.Text.{Text}

abbrev pub u64_max : ℕ
u64_max = 2 ^ 64 - 1

unfoldable pub digits_from : ℕ → Text → Option ℕ
digits_from n [] = if leb n u64_max then some n else none
digits_from n (c ∷ cs) = if leb 48 c && leb c 57 then digits_from (n * 10 + (c - 48)) cs else none

-- One `+` is allowed, and at least one digit is wanted.
unfoldable pub parse_u64 : Text → Option ℕ
unfolding digits_from
parse_u64 [] = none
parse_u64 (c ∷ []) = digits_from 0 (c ∷ [])
parse_u64 (c ∷ (d ∷ cs)) = if c == 43 then digits_from 0 (d ∷ cs) else digits_from 0 (c ∷ (d ∷ cs))

-- The decimal digits of a number before what is already written, for fuel above its digits.
unfoldable pub digits_onto : ℕ → ℕ → Text → Text
digits_onto zero n after = after
digits_onto (suc fuel) n after = elim (ltb n 10) [
  | true ↦ (48 + n) ∷ after
  | false ↦ digits_onto fuel (n / 10) ((48 + n % 10) ∷ after)
]

-- `to_string` of an unsigned integer of at most 128 bits.
unfoldable pub decimal : ℕ → Text
decimal n = digits_onto 39 n []
