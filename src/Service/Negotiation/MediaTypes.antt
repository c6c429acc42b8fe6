-- ===== src/Service/Negotiation/MediaTypes.antt =====
-- crates/odp-service/src/service.rs: which media types are accepted.
use odp_rust.Prelude.{
  ℕ, ◌≡◌, ◌⊎◌, refl, ap, ◌∙◌, Bool, true, false, Option, none, some, List, [], ◌∷◌, arith, ◌==◌,
  nat_eq, if◌then◌else◌, Bool-cases, inl, inr,
}
use odp_rust.Prelude.Text.{Text, text, text_eq, split, is_empty, trim, eq_ignore_ascii_case}
use odp_rust.Service.Queries.{media_type}
use odp_rust.Service.Negotiation.{
  Floats, quality, specificity, more_specific, best_range, accepts_odp,
}

-- The parameters of the first entry that is so specific.
abbrev has_specificity : ℕ → Text → Bool
has_specificity n media_range = elim (specificity (trim media_range)) [
  | none ↦ false
  | some found ↦ found == n
]

unfoldable pub first_at : ℕ → List Text → Option (List Text)
first_at n [] = none
first_at n (entry ∷ entries) =
    let rest = first_at n entries in
    elim (split 59 entry) [
      | [] ↦ rest
      | media_range ∷ parameters ↦ if has_specificity n media_range then some parameters else rest
    ]

specificity_cases :
    (media_range : Text)
    → (specificity media_range ≡ none)
      ⊎ (specificity media_range ≡ some 0)
      ⊎ (specificity media_range ≡ some 1)
      ⊎ (specificity media_range ≡ some 2)
unfolding specificity
specificity_cases media_range = elim (Bool-cases (eq_ignore_ascii_case media_range media_type)) [
  | inl exact ↦ inr (inr (inr (rw (specificity, exact) refl)))
  | inr other ↦ elim (Bool-cases (eq_ignore_ascii_case media_range (text "application/*"))) [
    | inl wide ↦ inr (inr (inl (rw (specificity, other, wide) refl)))
    | inr narrow ↦ elim (Bool-cases (media_range == text "*/*")) [
      | inl every ↦ inr (inl (rw (specificity, other, narrow, every) refl))
      | inr neither ↦ inl (rw (specificity, other, narrow, neither) refl)
    ]
  ]
]

module _ (floats : Floats) where
  abbrev Best : Type 0
  Best = Option (ℕ × floats.F32)

  abbrev prefer : ℕ → Option (List Text) → Best → Best → Best
  prefer n none best other = other
  prefer n (some parameters) best other =
      if more_specific floats n best then some (n, quality floats parameters) else other

  -- The best of three candidates and what is held, the most specific first.
  abbrev preferred : Option (List Text) → Option (List Text) → Option (List Text) → Best → Best
  preferred exact wide every best =
      prefer 2 exact best (prefer 1 wide best (prefer 0 every best best))

  abbrev taken : ℕ → List Text → Best → Best
  taken n parameters best =
      if more_specific floats n best then some (n, quality floats parameters) else best

  preferred-exact :
      (parameters : List Text) (exact wide every : Option (List Text)) (best : Best)
      → preferred exact wide every (taken 2 parameters best)
        ≡ preferred (some parameters) wide every best
  preferred-exact parameters exact wide every none = ground arith
  preferred-exact parameters exact wide every (some (held, weight)) = ground arith

  preferred-wide :
      (parameters : List Text) (exact wide every : Option (List Text)) (best : Best)
      → preferred exact wide every (taken 1 parameters best)
        ≡ preferred exact (some parameters) every best
  preferred-wide parameters exact wide every none = ground arith
  preferred-wide parameters exact wide every (some (held, weight)) = ground arith

  preferred-every :
      (parameters : List Text) (exact wide every : Option (List Text)) (best : Best)
      → preferred exact wide every (taken 0 parameters best)
        ≡ preferred exact wide (some parameters) best
  preferred-every parameters exact wide every none = ground arith
  preferred-every parameters exact wide every (some (held, weight)) = ground arith

  if-best_range :
      (b : Bool) (entries : List Text) (x y : Best)
      → (if b then best_range floats entries x else best_range floats entries y)
        ≡ best_range floats entries (if b then x else y)
  if-best_range true entries x y = refl
  if-best_range false entries x y = refl

  abbrev range_of : List Text → List Text → Best → Best
  range_of [] entries best = best_range floats entries best
  range_of (media_range ∷ parameters) entries best = elim (specificity (trim media_range)) [
    | none ↦ best_range floats entries best
    | some found ↦
        if more_specific floats found best
        then best_range floats entries (some (found, quality floats parameters))
        else best_range floats entries best
  ]

  abbrev first_of : ℕ → List Text → List Text → Option (List Text)
  first_of n [] entries = first_at n entries
  first_of n (media_range ∷ parameters) entries =
      if has_specificity n media_range then some parameters else first_at n entries

  range_of_lem :
      (entries : List Text)
      → ((best : Best)
          → best_range floats entries best
            ≡ preferred (first_at 2 entries) (first_at 1 entries) (first_at 0 entries) best)
      → (parts : List Text) (best : Best)
      → range_of parts entries best
        ≡ preferred
            (first_of 2 parts entries)
            (first_of 1 parts entries)
            (first_of 0 parts entries)
            best
  range_of_lem entries rest [] best = rest best
  range_of_lem entries rest (media_range ∷ parameters) best =
      let exact = first_at 2 entries in
      let wide = first_at 1 entries in
      let every = first_at 0 entries in
      elim (specificity_cases (trim media_range)) [
        | inl other ↦ rw (range_of, first_of, has_specificity, other) (rest best)
        | inr (inl e) ↦
            rw (range_of, first_of, has_specificity, e)
              (if-best_range (more_specific floats 0 best) entries
                  (some (0, quality floats parameters)) best
                ∙ (rest (taken 0 parameters best)
                    ∙ preferred-every parameters exact wide every best))
        | inr (inr (inl e)) ↦
            rw (range_of, first_of, has_specificity, e)
              (if-best_range (more_specific floats 1 best) entries
                  (some (1, quality floats parameters)) best
                ∙ (rest (taken 1 parameters best)
                    ∙ preferred-wide parameters exact wide every best))
        | inr (inr (inr e)) ↦
            rw (range_of, first_of, has_specificity, e)
              (if-best_range (more_specific floats 2 best) entries
                  (some (2, quality floats parameters)) best
                ∙ (rest (taken 2 parameters best)
                    ∙ preferred-exact parameters exact wide every best))
      ]

  best_range_lem :
      (entries : List Text) (best : Best)
      → best_range floats entries best
        ≡ preferred (first_at 2 entries) (first_at 1 entries) (first_at 0 entries) best
  unfolding best_range first_at split
  best_range_lem [] best = refl
  best_range_lem (entry ∷ entries) best =
      range_of_lem entries (best_range_lem entries) (split 59 entry) best

abbrev or_else : Option (List Text) → Option (List Text) → Option (List Text)
or_else none other = other
or_else (some parameters) other = some parameters

-- The first of the most specific entries of a field.
unfoldable pub deciding : List Text → Option (List Text)
deciding entries = or_else (first_at 2 entries) (or_else (first_at 1 entries) (first_at 0 entries))

module _ (floats : Floats) where
  abbrev pub weighs_more : Option (List Text) → Bool
  weighs_more none = false
  weighs_more (some parameters) = floats.is_positive (quality floats parameters)

  abbrev verdict : Best floats → Bool
  verdict none = false
  verdict (some best) = floats.is_positive best.1

  preferred-deciding :
      (exact wide every : Option (List Text))
      → verdict (preferred floats exact wide every none)
        ≡ weighs_more (or_else exact (or_else wide every))
  preferred-deciding (some ps) wide every = refl
  preferred-deciding none (some ps) every = refl
  preferred-deciding none none (some ps) = refl
  preferred-deciding none none none = refl

  -- An Accept field that is not blank permits the representation exactly when the first of its
  -- most specific entries that match weighs more than zero: an entry of the media type itself
  -- decides over one of its type, and that over one of all types, wherever they stand.
  pub accepts_odp-deciding :
      (value : Text)
      → is_empty (trim value) ≡ false
      → accepts_odp floats (some value) ≡ weighs_more (deciding (split 44 value))
  unfolding accepts_odp deciding
  accepts_odp-deciding value filled = rw filled (
      ap verdict (best_range_lem floats (split 44 value) none)
      ∙ preferred-deciding (first_at 2 (split 44 value)) (first_at 1 (split 44 value))
          (first_at 0 (split 44 value)))
