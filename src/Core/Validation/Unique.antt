-- ===== src/Core/Validation/Unique.antt =====
-- crates/odp-core/src/validation.rs: what the sets of names decide.
use odp_rust.Prelude.{
  ◌≡◌, ◌≤◌, ◌↔◌, refl, Bool, false, ◌||◌, List, [], ◌∷◌, length, All, arith, ◌==◌, Bool-cases, inl,
  inr, sym, nat_eq,
}
use odp_rust.Prelude.Text.{Text, text_eq, text_eq_iff}
use odp_rust.Core.Validation.Rules.{contains_name, repeats, distinct}

-- No two of the names are the same.
abbrev pub Unique : List Text → Type 0
Unique [] = Unit
Unique (name ∷ names) = All (λ other. ¬ (name ≡ other)) names × Unique names

or_false_iff : (a b : Bool) → ((a || b) ≡ false) ↔ ((a ≡ false) × (b ≡ false))
or_false_iff a b = (λ h. ground arith, λ h. ground arith)

text_differs_iff : (x y : Text) → ((x == y) ≡ false) ↔ (¬ (x ≡ y))
text_differs_iff x y = (λ h. ground (arith, text_eq_iff x y), λ h. ground (arith, text_eq_iff x y))

-- The names are all outside a set that has one more name exactly when they differ from the name and
-- are outside the set.
pub All-contains_iff :
    (x : Text) (seen names : List Text)
    → All (λ name. contains_name (x ∷ seen) name ≡ false) names
      ↔ (All (λ name. ¬ (x ≡ name)) names × All (λ name. contains_name seen name ≡ false) names)
All-contains_iff x seen [] = (λ h. (tt, tt), λ h. tt)
All-contains_iff x seen (y ∷ names) =
    let rest = All-contains_iff x seen names in
    let here = or_false_iff (x == y) (contains_name seen y) in
    let other = text_differs_iff x y in
    (
      λ h. let (a, b) = here.0 h.0 in let (p, q) = rest.0 h.1 in ((other.0 a, p), (b, q)),
      λ h. (here.1 (other.1 h.0.0, h.1.0), rest.1 (h.0.1, h.1.1)),
    )

repeats_from_iff :
    (seen names : List Text)
    → (repeats seen names ≡ false)
      ↔ (All (λ name. contains_name seen name ≡ false) names × Unique names)
unfolding repeats
repeats_from_iff seen [] = (λ h. (tt, tt), λ h. refl)
repeats_from_iff seen (x ∷ names) =
    let rest = repeats_from_iff (x ∷ seen) names in
    let here = or_false_iff (contains_name seen x) (repeats (x ∷ seen) names) in
    let split = All-contains_iff x seen names in
    (
      λ h.
          let (a, b) = here.0 h in
          let (p, q) = rest.0 b in let (c, d) = split.0 p in ((a, d), (c, q)),
      λ h. here.1 (h.0.0, rest.1 (split.1 (h.1.0, h.0.1), h.1.1)),
    )

pub All-nothing_seen : (names : List Text) → All (λ name. contains_name [] name ≡ false) names
All-nothing_seen [] = tt
All-nothing_seen (x ∷ names) = (refl, All-nothing_seen names)

-- A set that refuses no name of a list shows that the names are unique, and the other way round.
pub repeats_iff : (names : List Text) → (repeats [] names ≡ false) ↔ Unique names
repeats_iff names =
    let both = repeats_from_iff [] names in
    (λ h. (both.0 h).1, λ h. both.1 (All-nothing_seen names, h))

contains_false_iff :
    (x : Text) (names : List Text)
    → (contains_name names x ≡ false) ↔ All (λ name. ¬ (x ≡ name)) names
contains_false_iff x [] = (λ h. tt, λ h. refl)
contains_false_iff x (y ∷ names) =
    let rest = contains_false_iff x names in
    let here = or_false_iff (y == x) (contains_name names x) in
    let other = text_differs_iff y x in
    (
      λ h. let (a, b) = here.0 h in ((λ e. other.0 a (sym e)), rest.0 b),
      λ h. here.1 (other.1 (λ e. h.0 (sym e)), rest.1 h.1),
    )

pub contains_name-distinct :
    (x : Text) (names : List Text) → contains_name (distinct names) x ≡ contains_name names x
unfolding distinct
contains_name-distinct x [] = refl
contains_name-distinct x (y ∷ names) =
    let ih = contains_name-distinct x names in
    elim (Bool-cases (y == x)) [
      | inl same ↦
          let e : y ≡ x = (text_eq_iff y x).0 same in
          let at_y : contains_name (distinct names) x ≡ contains_name (distinct names) y =
            rw e refl in
          ground arith
      | inr other ↦ ground arith
    ]

length-distinct : (names : List Text) → length (distinct names) ≤ length names
unfolding distinct
length-distinct [] = omega arith
length-distinct (y ∷ names) = ground (arith, length-distinct names)

-- A set has as many names as the list exactly when the names of the list are unique.
pub length-distinct_iff :
    (names : List Text) → (length (distinct names) ≡ length names) ↔ Unique names
unfolding distinct
length-distinct_iff [] = (λ h. tt, λ h. refl)
length-distinct_iff (y ∷ names) =
    let rest = length-distinct_iff names in
    let bound = length-distinct names in
    let same = contains_name-distinct y names in
    let outside = contains_false_iff y names in
    (
      λ h. elim (Bool-cases (contains_name names y)) [
        | inl again ↦ absurd (ground arith)
        | inr new ↦ (outside.0 new, rest.0 (ground arith))
      ],
      λ h. let new = outside.1 h.0 in let all = rest.1 h.1 in ground arith,
    )
