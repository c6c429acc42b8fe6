-- ===== src/Service/Negotiation.antt =====
-- crates/odp-service/src/service.rs: the choice of a language and of a media type. The numbers `f32`
-- of the standard library are a parameter; `sort_by` is an insertion sort, which is stable too.
pub mod Languages
pub mod MediaTypes
mod Tests
use odp_rust.Prelude.{
  ℕ, zero, suc, ◌+◌, Bool, true, false, ◌&&◌, Option, none, some, List, [], ◌∷◌, map, find, ◌==◌,
  nat_eq, ltb, if◌then◌else◌, length,
}
use odp_rust.Prelude.Text.{
  Text, text, text_eq, text_beq, is_empty, split, split_once, rsplit_once, trim,
  eq_ignore_ascii_case,
}
use odp_rust.Service.Queries.{media_type}

pub record Floats : Type 1 where
  pub F32 : Type 0
  pub zero_weight : F32
  pub full_weight : F32
  pub parse_f32 : Text → Option F32
  pub is_positive : F32 → Bool
  pub total_leb : F32 → F32 → Bool

module _ (floats : Floats) where
  unfoldable pub quality : List Text → floats.F32
  quality [] = floats.full_weight
  quality (parameter ∷ parameters) =
      let rest = quality parameters in
      elim (split_once 61 parameter) [
        | none ↦ rest
        | some part ↦
            if eq_ignore_ascii_case (trim part.0) (text "q")
            then elim (floats.parse_f32 (trim part.1)) [
              | none ↦ floats.zero_weight
              | some weight ↦ weight
            ]
            else rest
      ]

  -- The range of an entry and its weight, where the entry is acceptable at all.
  unfoldable pub weighted_range : Text → Option (Text × floats.F32)
  weighted_range entry = elim (split 59 entry) [
    | [] ↦ none
    | range ∷ parameters ↦
        if is_empty (trim range)
        then none
        else if floats.is_positive (quality parameters)
        then some (trim range, quality parameters)
        else none
  ]

  unfoldable pub weighted_ranges : List Text → List (Text × floats.F32)
  weighted_ranges [] = []
  weighted_ranges (entry ∷ entries) =
      let rest = weighted_ranges entries in
      elim (weighted_range entry) [ none ↦ rest | some range ↦ range ∷ rest ]

  unfoldable pub insert_range :
      Text × floats.F32 → List (Text × floats.F32) → List (Text × floats.F32)
  insert_range range [] = range ∷ []
  insert_range range (other ∷ ranges) =
      let rest = insert_range range ranges in
      if floats.total_leb other.1 range.1 then range ∷ (other ∷ ranges) else other ∷ rest

  unfoldable pub sort_ranges : List (Text × floats.F32) → List (Text × floats.F32)
  sort_ranges [] = []
  sort_ranges (range ∷ ranges) = insert_range range (sort_ranges ranges)

  unfoldable pub ranges_by_weight : Text → List Text
  ranges_by_weight header = map (λ range. range.0) (sort_ranges (weighted_ranges (split 44 header)))

-- A range without its last subtag, and without the single character that then ends it.
abbrev pub without_extension : Text → Text
without_extension candidate = elim (rsplit_once 45 candidate) [
  | none ↦ candidate
  | some part ↦ if length part.1 == 1 then part.0 else candidate
]

unfoldable pub shorter : Text → Option Text
shorter candidate = elim (rsplit_once 45 candidate) [
  | none ↦ none
  | some part ↦ some (without_extension part.0)
]

abbrev pub same_tag : Text → Text → Bool
same_tag candidate value = eq_ignore_ascii_case value candidate

-- The loop over a range and what it is cut to, for fuel above its length.
unfoldable pub look_up : ℕ → List Text → Text → Option Text
look_up zero localizations candidate = none
look_up (suc fuel) localizations candidate = elim (find (same_tag candidate) localizations) [
  | some found ↦ some found
  | none ↦ elim (shorter candidate) [
    | none ↦ none
    | some candidate' ↦ look_up fuel localizations candidate'
  ]
]

unfoldable pub select_from : Text → List Text → List Text → Text
select_from default localizations [] = default
select_from default localizations (range ∷ ranges) =
    let rest = select_from default localizations ranges in
    if range == text "*"
    then default
    else elim (look_up (length range + 1) localizations range) [ some found ↦ found | none ↦ rest ]

unfoldable pub select_language : Floats → Text → List Text → Option Text → Text
select_language floats default localizations none = default
select_language floats default localizations (some header) =
    select_from default localizations (ranges_by_weight floats header)

unfoldable pub specificity : Text → Option ℕ
specificity media_range =
    if eq_ignore_ascii_case media_range media_type
    then some 2
    else if eq_ignore_ascii_case media_range (text "application/*")
    then some 1
    else if media_range == text "*/*"
    then some 0
    else none

module _ (floats : Floats) where
  abbrev pub more_specific : ℕ → Option (ℕ × floats.F32) → Bool
  more_specific found none = true
  more_specific found (some best) = ltb best.0 found

  unfoldable pub best_range : List Text → Option (ℕ × floats.F32) → Option (ℕ × floats.F32)
  best_range [] best = best
  best_range (entry ∷ entries) best = elim (split 59 entry) [
    | [] ↦ best_range entries best
    | media_range ∷ parameters ↦ elim (specificity (trim media_range)) [
      | none ↦ best_range entries best
      | some found ↦
          if more_specific found best
          then best_range entries (some (found, quality floats parameters))
          else best_range entries best
    ]
  ]

  unfoldable pub accepts_odp : Option Text → Bool
  accepts_odp none = true
  accepts_odp (some value) =
      if is_empty (trim value) then true else elim (best_range (split 44 value) none) [
        | none ↦ false
        | some best ↦ floats.is_positive best.1
      ]
