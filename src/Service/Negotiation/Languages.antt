-- ===== src/Service/Negotiation/Languages.antt =====
-- crates/odp-service/src/service.rs: which language is chosen.
use mathlib.Core.List.{append_assoc}
use odp_rust.Prelude.{
  ℕ, zero, suc, ◌+◌, ◌≡◌, ◌≢◌, ◌<◌, ◌⊎◌, refl, ap, subst, ◌∙◌, true, some, List, [], ◌∷◌, ◌++◌, map,
  find, All, length, length-append, arith, ◌==◌, nat_eq, Bool-cases, Option-cases, inl, inr,
}
use odp_rust.Prelude.Text.{
  Text, text, text_eq, text_eq_iff, text_eq_refl, split, rsplit_once, eq_ignore_ascii_case,
}
use odp_rust.Prelude.Text.Laws.{rsplit_once_inv}
use odp_rust.Core.Validation.Rules.{contains_name}
use odp_rust.Service.Negotiation.{
  Floats, weighted_range, weighted_ranges, insert_range, sort_ranges, ranges_by_weight,
  without_extension, shorter, same_tag, look_up, select_from, select_language,
}

-- A text that goes on after a hyphen.
abbrev pub CutAt : Text → Text → Type 0
CutAt whole part = (rest : Text) × (whole ≡ part ++ 45 ∷ rest)

-- A text that is the whole, or goes on after a hyphen.
abbrev pub IsCut : Text → Text → Type 0
IsCut whole part = (whole ≡ part) ⊎ CutAt whole part

CutAt-trans : (a b c : Text) → CutAt a b → CutAt b c → CutAt a c
CutAt-trans a b c (r, e) (r', e') =
    (r' ++ 45 ∷ r, e ∙ (ap (λ s. s ++ 45 ∷ r) e' ∙ append_assoc c (45 ∷ r') (45 ∷ r)))

CutAt-IsCut : (a b c : Text) → CutAt a b → IsCut b c → CutAt a c
CutAt-IsCut a b c cut (inl e) = subst (CutAt a) e cut
CutAt-IsCut a b c cut (inr cut') = CutAt-trans a b c cut cut'

without_extension-IsCut : (candidate : Text) → IsCut candidate (without_extension candidate)
without_extension-IsCut candidate = elim (Option-cases (rsplit_once 45 candidate)) [
  | inl none_left ↦ rw (without_extension, none_left) (inl refl)
  | inr (part, e) ↦ elim (Bool-cases (length part.1 == 1)) [
    | inl one ↦ rw (without_extension, e, one) (inr (part.1, rsplit_once_inv 45 candidate part e))
    | inr more ↦ rw (without_extension, e, more) (inl refl)
  ]
]

shorter-CutAt :
    (candidate candidate' : Text) → shorter candidate ≡ some candidate' → CutAt candidate candidate'
unfolding shorter
shorter-CutAt candidate candidate' h = elim (Option-cases (rsplit_once 45 candidate)) [
  | inl none_left ↦ absurd (ground arith)
  | inr (part, e) ↦
      let cut = without_extension-IsCut part.0 in
      let e' : without_extension part.0 ≡ candidate' = ground arith in
      CutAt-IsCut candidate part.0 candidate' (part.1, rsplit_once_inv 45 candidate part e)
        (subst (IsCut part.0) e' cut)
]

CutAt-lt : (whole part : Text) → CutAt whole part → length part < length whole
CutAt-lt whole part (rest, e) =
    let size = ap length e ∙ length-append part (45 ∷ rest) in omega (arith, size)

-- A language that is offered and is what the range is cut to.
abbrev pub Matches : List Text → Text → Text → Type 0
Matches localizations range found =
    (contains_name localizations found ≡ true)
    × (candidate : Text) × IsCut range candidate
    × (eq_ignore_ascii_case found candidate ≡ true)

find_inv :
    (candidate found : Text) (localizations : List Text)
    → find (same_tag candidate) localizations ≡ some found
    → (contains_name localizations found ≡ true) × (eq_ignore_ascii_case found candidate ≡ true)
find_inv candidate found [] h = absurd (ground arith)
find_inv candidate found (value ∷ values) h = elim (Bool-cases (same_tag candidate value)) [
  | inl same ↦
      let e : value ≡ found = ground arith in
      (
        ground (arith, text_eq_iff value found),
        subst (λ v. eq_ignore_ascii_case v candidate ≡ true) e same,
      )
  | inr other ↦
      let (held, same) = find_inv candidate found values (ground arith) in (ground arith, same)
]

look_up-Matches :
    (fuel : ℕ) (localizations : List Text) (candidate found : Text)
    → look_up fuel localizations candidate ≡ some found
    → Matches localizations candidate found
unfolding look_up
look_up-Matches zero localizations candidate found h = absurd (ground arith)
look_up-Matches (suc fuel) localizations candidate found h =
    elim (Option-cases (find (same_tag candidate) localizations)) [
      | inr (value, e) ↦
          let e' : find (same_tag candidate) localizations ≡ some found = ground arith in
          let (held, same) = find_inv candidate found localizations e' in
          (held, candidate, inl refl, same)
      | inl none_here ↦ elim (Option-cases (shorter candidate)) [
        | inl none_left ↦ absurd (ground arith)
        | inr (candidate', e) ↦
            let h' : look_up fuel localizations candidate' ≡ some found = ground arith in
            let (held, part, cut, same) = look_up-Matches fuel localizations candidate' found h' in
            (
              held,
              part,
              inr (
                  CutAt-IsCut candidate candidate' part (shorter-CutAt candidate candidate' e) cut),
              same,
            )
      ]
    ]

-- Each step cuts the range, so fuel above its length is enough.
pub look_up_fuel :
    (fuel : ℕ) (localizations : List Text) (candidate : Text)
    → length candidate < fuel
    → look_up (suc fuel) localizations candidate ≡ look_up fuel localizations candidate
unfolding look_up
look_up_fuel zero localizations candidate enough = absurd (omega arith)
look_up_fuel (suc fuel) localizations candidate enough =
    elim (Option-cases (find (same_tag candidate) localizations)) [
      | inr (value, e) ↦ rw (look_up, e) refl
      | inl none_here ↦ elim (Option-cases (shorter candidate)) [
        | inl none_left ↦ rw (look_up, none_here, none_left) refl
        | inr (candidate', e) ↦
            let less = CutAt-lt candidate candidate' (shorter-CutAt candidate candidate' e) in
            let rest = look_up_fuel fuel localizations candidate' (omega arith) in
            rw (look_up, none_here, e) rest
      ]
    ]

module _ (floats : Floats) where
  -- A range that an entry of the list gives a weight above zero.
  abbrev pub Weighs : List Text → Text → Type 0
  Weighs entries range =
      (entry : Text) × (contains_name entries entry ≡ true)
      × (weight : floats.F32) × (weighted_range floats entry ≡ some (range, weight))
      × (floats.is_positive weight ≡ true)

  abbrev RangesWeigh : List Text → List (Text × floats.F32) → Type 0
  RangesWeigh entries = All (λ range. Weighs entries range.0)

  weighted_range-is_positive :
      (entry : Text) (range : Text × floats.F32)
      → weighted_range floats entry ≡ some range
      → floats.is_positive range.1 ≡ true
  unfolding weighted_range
  weighted_range-is_positive entry range h = ground arith

  Weighs-cons :
      (entry : Text) (entries : List Text) (range : Text)
      → Weighs entries range
      → Weighs (entry ∷ entries) range
  Weighs-cons entry entries range (e, held, weight, weighed, positive) =
      (e, ground arith, weight, weighed, positive)

  RangesWeigh-cons :
      (entry : Text) (entries : List Text) (ranges : List (Text × floats.F32))
      → RangesWeigh entries ranges
      → RangesWeigh (entry ∷ entries) ranges
  RangesWeigh-cons entry entries [] h = tt
  RangesWeigh-cons entry entries (range ∷ ranges) (w, h) =
      (Weighs-cons entry entries range.0 w, RangesWeigh-cons entry entries ranges h)

  weighted_ranges-RangesWeigh :
      (entries : List Text) → RangesWeigh entries (weighted_ranges floats entries)
  unfolding weighted_ranges
  weighted_ranges-RangesWeigh [] = tt
  weighted_ranges-RangesWeigh (entry ∷ entries) =
      let rest =
        RangesWeigh-cons entry entries (weighted_ranges floats entries)
          (weighted_ranges-RangesWeigh entries) in
      elim (Option-cases (weighted_range floats entry)) [
        | inl dropped ↦ rw (weighted_ranges, dropped) rest
        | inr (range, e) ↦
            let here : Weighs (entry ∷ entries) range.0 = (
              entry,
              ground (arith, text_eq_refl entry),
              range.1,
              e,
              weighted_range-is_positive entry range e,
            ) in
            rw (weighted_ranges, e) (here, rest)
      ]

  insert_range-All :
      (P : Text × floats.F32 → Type 0) (range : Text × floats.F32)
      (ranges : List (Text × floats.F32))
      → P range
      → All P ranges
      → All P (insert_range floats range ranges)
  unfolding insert_range
  insert_range-All P range [] p h = (p, tt)
  insert_range-All P range (other ∷ ranges) p (q, h) =
      elim (Bool-cases (floats.total_leb other.1 range.1)) [
        | inl before ↦ rw (insert_range, before) (p, (q, h))
        | inr after ↦ rw (insert_range, after) (q, insert_range-All P range ranges p h)
      ]

  sort_ranges-All :
      (P : Text × floats.F32 → Type 0) (ranges : List (Text × floats.F32))
      → All P ranges
      → All P (sort_ranges floats ranges)
  unfolding sort_ranges
  sort_ranges-All P [] h = tt
  sort_ranges-All P (range ∷ ranges) (p, h) =
      insert_range-All P range (sort_ranges floats ranges) p (sort_ranges-All P ranges h)

  All-names :
      (entries : List Text) (ranges : List (Text × floats.F32))
      → RangesWeigh entries ranges
      → All (Weighs entries) (map (λ range. range.0) ranges)
  All-names entries [] h = tt
  All-names entries (range ∷ ranges) (w, h) = (w, All-names entries ranges h)

  abbrev pub IsChosen : Text → List Text → Text → Text → Type 0
  IsChosen default localizations header chosen =
      (chosen ≡ default)
      ⊎ ((range : Text) × Weighs (split 44 header) range
          × (range ≢ text "*")
          × Matches localizations range chosen)

  select_from-IsChosen :
      (default header : Text) (localizations ranges : List Text)
      → All (Weighs (split 44 header)) ranges
      → IsChosen default localizations header (select_from default localizations ranges)
  unfolding select_from
  select_from-IsChosen default header localizations [] h = inl refl
  select_from-IsChosen default header localizations (range ∷ ranges) (w, h) =
      elim (Bool-cases (range == text "*")) [
        | inl any_range ↦ rw (select_from, any_range) (inl refl)
        | inr named ↦ elim (Option-cases (look_up (length range + 1) localizations range)) [
          | inl none_found ↦
              rw (select_from, named, none_found)
                (select_from-IsChosen default header localizations ranges h)
          | inr (found, e) ↦
              rw (select_from, named, e)
                (inr (
                  range,
                  w,
                  (λ e'. ground (arith, text_eq_iff range (text "*"))),
                  look_up-Matches (length range + 1) localizations range found e,
                ))
        ]
      ]

  -- The language that is chosen for a field Accept-Language is the default or one of the
  -- localizations, and that only for a range which some entry of the field weighs above zero and
  -- which is the localization or goes on after it by a hyphen, whatever the case of its letters.
  pub select_language-IsChosen :
      (default header : Text) (localizations : List Text)
      → IsChosen default localizations header
          (select_language floats default localizations (some header))
  unfolding select_language ranges_by_weight
  select_language-IsChosen default header localizations =
      let entries = split 44 header in
      select_from-IsChosen default header localizations (ranges_by_weight floats header) (
        All-names entries (sort_ranges floats (weighted_ranges floats entries)) (
          sort_ranges-All (λ range. Weighs entries range.0) (weighted_ranges floats entries)
            (weighted_ranges-RangesWeigh entries)))
