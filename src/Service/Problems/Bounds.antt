-- ===== src/Service/Problems/Bounds.antt =====
-- crates/odp-service/src/service.rs: a problem keeps its own limits, and says when to come back.
use odp_rust.Prelude.{
  ℕ, zero, suc, ◌+◌, ◌-◌, ◌≡◌, ◌≤◌, ◌<◌, refl, ◌||◌, Option, none, some, [], ◌∷◌, ◌++◌, arith, ◌==◌,
  nat_eq, leb, if◌then◌else◌, Bool-cases, inl, inr,
}
use odp_rust.Prelude.Text.{Text, text, text_eq, text_beq, char_count}
use odp_rust.Prelude.Maps.{lookup, insert}
use odp_rust.Prelude.Numbers.{decimal}
use odp_rust.Service.Problems.{take_chars, bounded, ellipsis, problem_details, problem_headers}

char_count-append : (xs ys : Text) → char_count (xs ++ ys) ≡ char_count xs + char_count ys
unfolding char_count
char_count-append [] ys = omega arith
char_count-append (x ∷ xs) ys = ground (arith, char_count-append xs ys)

take_chars_bound : (n : ℕ) (s : Text) → char_count (take_chars n s) ≤ n
unfolding take_chars char_count
take_chars_bound n [] = omega arith
take_chars_bound zero (c ∷ s) = ground (arith, take_chars_bound zero s)
take_chars_bound (suc n) (c ∷ s) = ground (arith, take_chars_bound (suc n) s, take_chars_bound n s)

pub bounded_bound :
    (value : Text) (maximum : ℕ) → 0 < maximum → char_count (bounded value maximum) ≤ maximum
unfolding bounded char_count
bounded_bound value maximum positive = elim (Bool-cases (leb (char_count value) maximum)) [
  | inl short ↦ rw (bounded, short) (ground arith)
  | inr long ↦
      let cut = take_chars_bound (maximum - 1) value in
      let whole = char_count-append (take_chars (maximum - 1) value) ellipsis in
      rw (bounded, long) (omega (arith, cut, whole))
]

pub problem_details_bound :
    (status : ℕ) (code detail : Text)
    → (char_count (problem_details status code detail).detail ≤ 2048)
      × (char_count (problem_details status code detail).title ≤ 128)
unfolding problem_details
problem_details_bound status code detail =
    (bounded_bound detail 2048 (omega arith), bounded_bound detail 128 (omega arith))

-- A problem says when to come back where the failure named a time, and names one second for a
-- 429 or a 503 that did not; otherwise it says nothing of it.
pub problem_headers_lem :
    (status : ℕ) (seconds : Option ℕ)
    → lookup (text "retry-after") (problem_headers status seconds) ≡ (elim seconds [
      | some n ↦ some (decimal n)
      | none ↦ if status == 429 || status == 503 then some (decimal 1) else none
    ])
unfolding problem_headers lookup insert text_beq
problem_headers_lem status none = elim (Bool-cases (status == 429 || status == 503)) [
  | inl later ↦ rw (problem_headers, later) refl
  | inr never ↦ rw (problem_headers, never) refl
]
problem_headers_lem status (some n) = elim (Bool-cases (status == 429 || status == 503)) [
  | inl later ↦ rw (problem_headers, later) refl
  | inr never ↦ rw (problem_headers, never) refl
]
