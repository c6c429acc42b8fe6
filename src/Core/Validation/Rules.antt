-- ===== src/Core/Validation/Rules.antt =====
-- crates/odp-core/src/validation.rs: the rules that compare one member of a document with another.
-- The language_tags crate is a parameter.
use mathlib.Core.List.{foldr}
use odp_rust.Prelude.{
  ℕ, ◌+◌, Bool, true, false, not, ◌&&◌, ◌||◌, Option, none, some, List, [], ◌∷◌, ◌++◌, map, any,
  length, if◌then◌else◌, ltb, ◌==◌, nat_eq,
}
use odp_rust.Prelude.Text.{
  Text, text, text_eq, is_empty, split_once, trim_start_matches, trim_end_matches,
  to_ascii_lowercase, char_count,
}
use odp_rust.Prelude.Maps.{contains_key}
use odp_rust.Prelude.Numbers.{decimal}
use odp_rust.Core.References.{is_some}
use odp_rust.Core.Models.{operation_eq, search_offerings}
use odp_rust.Core.Json.{Value}
use odp_rust.Core.Documents.Enums.{
  PriceType, range, FilterType, string_filter, boolean_filter, decimal_filter, integer_filter,
  number_filter, FilterOperator, greater_than, greater_than_or_equal, less_than, less_than_or_equal,
}
use odp_rust.Core.Documents.Services.{FilterDefinition, ServiceDocument}
use odp_rust.Core.Documents.Resources.{
  Collection, Offering, PricePreview, ProblemDetails, ResourceImage,
}
use odp_rust.Core.Documents.Searches.{RefinementGroup}
use odp_rust.Core.Validation.{ValidationIssue, issue}

abbrev pub contains_name : List Text → Text → Bool
contains_name names name = any (λ n. n == name) names

-- `any(|name| !seen.insert(name))`, from a set of names on.
unfoldable pub repeats : List Text → List Text → Bool
repeats seen [] = false
repeats seen (name ∷ names) = contains_name seen name || repeats (name ∷ seen) names

abbrev pub issue_if : Bool → ValidationIssue → List ValidationIssue
issue_if failed found = if failed then found ∷ [] else []

-- The digits of a decimal: the whole part without leading zeros, the fraction without trailing ones.
unfoldable pub split_decimal : Text → Text × Text
split_decimal value = elim (split_once 46 value) [
  | none ↦ (trim_start_matches 48 value, trim_end_matches 48 [])
  | some parts ↦ (trim_start_matches 48 parts.0, trim_end_matches 48 parts.1)
]

pub data Ordering : Type 0 where
  less same greater : Ordering

abbrev pub then_with : Ordering → Ordering → Ordering
then_with same next = next
then_with first next = first

unfoldable pub cmp : ℕ → ℕ → Ordering
cmp m n = if ltb m n then less else if ltb n m then greater else same

-- `str` is ordered byte by byte, a prefix first.
unfoldable pub cmp_text : Text → Text → Ordering
cmp_text [] [] = same
cmp_text [] (y ∷ ys) = less
cmp_text (x ∷ xs) [] = greater
cmp_text (x ∷ xs) (y ∷ ys) = then_with (cmp x y) (cmp_text xs ys)

unfoldable pub compare_decimals : Text → Text → Ordering
compare_decimals left right =
    let l = split_decimal left in
    let r = split_decimal right in
    then_with (cmp (length l.0) (length r.0)) (then_with (cmp_text l.0 r.0) (cmp_text l.1 r.1))

abbrev pub is_greater : Ordering → Bool
is_greater greater = true
is_greater _ = false

abbrev pub is_range : PriceType → Bool
is_range range = true
is_range _ = false

abbrev pub has_bad_range : Option PricePreview → Bool
has_bad_range none = false
has_bad_range (some price) =
    is_range price.price_type && is_greater (compare_decimals price.minimum price.maximum)

abbrev pub action_ids : Offering → List Text
action_ids offering = map (λ action. action.id) offering.actions

unfoldable pub offering_issues : Offering → List ValidationIssue
offering_issues offering =
    issue_if (repeats [] (action_ids offering)) (
      issue (text "/actions") (text "unique-action-id")
        (text "must contain unique Action identifiers"))
    ++ issue_if (has_bad_range offering.price) (
        issue (text "/price/minimum") (text "price-range")
          (text "must be less than or equal to maximum"))

unfoldable pub collection_issues : Collection → List ValidationIssue
collection_issues collection =
    issue_if (contains_name collection.parent_ids collection.id)
      (issue (text "/parent_ids") (text "self-parent") (text "must not name the Collection itself"))

-- `replace('_', "-")`
abbrev pub dashes : Text → Text
dashes value = map (λ c. if c == 95 then 45 else c) value

abbrev pub problem_type_of : Text → Text
problem_type_of code =
    text "https://offeringprotocol.org/problems/" ++ dashes (to_ascii_lowercase code)

unfoldable pub problem_details_issues : ProblemDetails → List ValidationIssue
problem_details_issues problem =
    issue_if (not (problem.problem_type == problem_type_of problem.code))
      (issue (text "/type") (text "problem-type") (text "must correspond to the problem code"))

abbrev pub is_ordering_operator : FilterOperator → Bool
is_ordering_operator greater_than = true
is_ordering_operator greater_than_or_equal = true
is_ordering_operator less_than = true
is_ordering_operator less_than_or_equal = true
is_ordering_operator _ = false

abbrev pub is_unordered : FilterType → Bool
is_unordered string_filter = true
is_unordered boolean_filter = true
is_unordered _ = false

abbrev pub is_numeric : FilterType → Bool
is_numeric decimal_filter = true
is_numeric integer_filter = true
is_numeric number_filter = true
is_numeric _ = false

unfoldable pub filter_definition_issues : FilterDefinition → List ValidationIssue
filter_definition_issues definition =
    issue_if (is_unordered definition.filter_type && any is_ordering_operator definition.operators)
      (issue (text "/operators") (text "operator-type")
        (text "contains an operator incompatible with the Filter type"))
    ++ issue_if (not (is_numeric definition.filter_type) && is_some definition.unit)
        (issue (text "/unit") (text "unit-type") (text "must not appear on a non-numeric Filter"))

-- `bucket_key` prints a number as serde_json and the standard library do, and is a parameter.
module _ (bucket_key : Value → Text) where
  abbrev pub bucket_keys : RefinementGroup → List Text
  bucket_keys group = map (λ bucket. bucket_key bucket.value) group.values

  -- The loop over the groups, from an index on.
  unfoldable pub bucket_issues : ℕ → List RefinementGroup → List ValidationIssue
  bucket_issues index [] = []
  bucket_issues index (group ∷ groups) =
      issue_if (repeats [] (bucket_keys group)) (
        issue (text "/refinements/" ++ decimal index ++ text "/values") (text "unique-bucket-value")
          (text "must contain unique Refinement Bucket values"))
      ++ bucket_issues (index + 1) groups

  unfoldable pub refinement_issues : List RefinementGroup → List ValidationIssue
  refinement_issues groups =
      issue_if (repeats [] (map (λ group. group.filter_id) groups)) (
        issue (text "/refinements") (text "unique-filter-id")
          (text "must contain unique Refinement Group identifiers"))
      ++ bucket_issues 0 groups

-- A language tag as the crate parses it: its variants, and the singletons of its extensions.
pub record LanguageTag : Type 0 where
  pub variant_subtags : List Text
  pub extension_singletons : List Text

-- The distinct names of a list, as a set holds them.
unfoldable pub distinct : List Text → List Text
distinct [] = []
distinct (name ∷ names) =
    let rest = distinct names in if contains_name rest name then rest else name ∷ rest

module _ (parse_tag : Text → Option LanguageTag) where
  unfoldable pub valid_language_tag : Text → Bool
  valid_language_tag value = elim (parse_tag value) [
    | none ↦ false
    | some tag ↦
        not (repeats [] (map to_ascii_lowercase tag.variant_subtags))
        && not (repeats [] (map to_ascii_lowercase tag.extension_singletons))
  ]

  unfoldable pub validate_localizations : Text → List Text → Bool → List ValidationIssue
  validate_localizations language localizations require_default =
      if any (λ tag. not (valid_language_tag tag)) localizations
      then issue (text "/localizations") (text "language-tag")
          (text "must contain only language tags")
        ∷ []
      else (let folded = distinct (map to_ascii_lowercase localizations) in
          issue_if (not (length folded == length localizations)) (
            issue (text "/localizations") (text "unique-language-tag")
              (text "must be unique without regard to case"))
          ++ issue_if
              ((require_default || (not (is_empty language) && not (is_empty localizations)))
                && not (contains_name folded (to_ascii_lowercase language)))
              (if require_default
                then issue (text "/localizations") (text "contains-default-language")
                    (text "must contain the default language")
                else issue (text "/localizations") (text "contains-language")
                    (text "must contain the representation language")))

  unfoldable pub representation_issues :
      Text → List Text → List ResourceImage → List ValidationIssue
  representation_issues language localizations images =
      issue_if (not (is_empty language) && not (valid_language_tag language))
        (issue (text "/language") (text "language-tag") (text "must be a language tag"))
      ++ validate_localizations language localizations false
      ++ issue_if (repeats [] (map (λ image. image.src) images)) (
          issue (text "/images") (text "unique-image-source")
            (text "must contain unique image sources"))

  abbrev pub keyword_points : List Text → ℕ
  keyword_points = foldr (λ keyword total. char_count keyword + total) 0

  unfoldable pub service_document_issues : ServiceDocument → List ValidationIssue
  service_document_issues document =
      issue_if (contains_key (text "id") document.additional)
        (issue (text "/id") (text "prohibited") (text "must not appear in a Service Document"))
      ++ issue_if (contains_key (text "web_url") document.additional) (
          issue (text "/web_url") (text "prohibited")
            (text "must not appear in a Service Document"))
      ++ issue_if (not (valid_language_tag document.language))
          (issue (text "/language") (text "language-tag") (text "must be a language tag"))
      ++ validate_localizations document.language document.localizations true
      ++ issue_if (ltb 1024 (keyword_points document.keywords)) (
          issue (text "/keywords") (text "max-code-points")
            (text "must contain no more than 1024 code points in total"))
      ++ issue_if
          (is_some document.search_capabilities
            && not (any (λ operation. operation.name == search_offerings) document.operations))
          (issue (text "/search_capabilities") (text "operation-support")
            (text "requires the search-offerings operation"))
