-- ===== src/Core/Validation/Issues.antt =====
-- crates/odp-core/src/validation.rs: which documents have no issue.
use odp_rust.Prelude.{
  ◌≡◌, ◌↔◌, ◌⊎◌, refl, Bool, true, false, not, Option, List, [], ◌∷◌, ◌++◌, map, any, length, All,
  arith, nat_eq,
}
use odp_rust.Prelude.Text.{Text, text, is_empty, to_ascii_lowercase}
use odp_rust.Core.Documents.Resources.{Offering}
use odp_rust.Core.Validation.{ValidationIssue, issue}
use odp_rust.Core.Validation.Rules.{
  contains_name, repeats, issue_if, offering_issues, action_ids, has_bad_range, LanguageTag,
  valid_language_tag, validate_localizations,
}
use odp_rust.Core.Validation.Unique.{
  Unique, repeats_iff, contains_name-distinct, length-distinct_iff,
}

issue_if_iff :
    (b : Bool) (found : ValidationIssue) (rest : List ValidationIssue)
    → (issue_if b found ++ rest ≡ []) ↔ ((b ≡ false) × (rest ≡ []))
issue_if_iff true found rest = (λ h. cc, λ h. cc)
issue_if_iff false found rest = (λ h. (refl, h), λ h. h.1)

last_issue_iff : (b : Bool) (found : ValidationIssue) → (issue_if b found ≡ []) ↔ (b ≡ false)
last_issue_iff true found = (λ h. cc, λ h. cc)
last_issue_iff false found = (λ h. refl, λ h. refl)

-- An Offering has no issue exactly when the identifiers of its Actions are unique and no range of
-- prices has a minimum above its maximum.
pub offering_issues_iff :
    (offering : Offering)
    → (offering_issues offering ≡ [])
      ↔ (Unique (action_ids offering) × (has_bad_range offering.price ≡ false))
unfolding offering_issues
offering_issues_iff offering =
    let ids = repeats_iff (action_ids offering) in
    let both =
      issue_if_iff (repeats [] (action_ids offering))
        (issue (text "/actions") (text "unique-action-id")
          (text "must contain unique Action identifiers"))
        (issue_if (has_bad_range offering.price) (
          issue (text "/price/minimum") (text "price-range")
            (text "must be less than or equal to maximum"))) in
    let price = last_issue_iff (has_bad_range offering.price) (
      issue (text "/price/minimum") (text "price-range")
        (text "must be less than or equal to maximum")) in
    (λ h. let (a, b) = both.0 h in (ids.0 a, price.0 b), λ h. both.1 (ids.1 h.0, price.1 h.1))

length-map : (f : Text → Text) (names : List Text) → length (map f names) ≡ length names
length-map f [] = refl
length-map f (x ∷ names) = omega (arith, length-map f names)

any-not_iff :
    (p : Text → Bool) (names : List Text)
    → (any (λ n. not (p n)) names ≡ false) ↔ All (λ n. p n ≡ true) names
any-not_iff p [] = (λ h. tt, λ h. refl)
any-not_iff p (x ∷ names) =
    let rest = any-not_iff p names in
    (
      λ h. (ground arith, rest.0 (ground arith)),
      λ h. let r = rest.1 h.1 in let here = h.0 in ground arith,
    )

module _ (parse_tag : Text → Option LanguageTag) where
  -- Whether the localizations must name a language, and whether they do.
  abbrev pub NamesLanguage : Text → List Text → Bool → Type 0
  NamesLanguage language localizations require_default =
      ((require_default ≡ false) × ((is_empty language ≡ true) ⊎ (is_empty localizations ≡ true)))
      ⊎ (contains_name (map to_ascii_lowercase localizations) (to_ascii_lowercase language) ≡ true)

  -- Localizations have no issue exactly when each is a language tag, no two are the same without
  -- regard to case, and they name the language where they must: a default language always, and
  -- another one where neither it nor they are empty.
  pub validate_localizations_iff :
      (language : Text) (localizations : List Text) (require_default : Bool)
      → (validate_localizations parse_tag language localizations require_default ≡ []) ↔ (
          All (λ tag. valid_language_tag parse_tag tag ≡ true) localizations
          × Unique (map to_ascii_lowercase localizations)
          × NamesLanguage language localizations require_default)
  unfolding validate_localizations
  validate_localizations_iff language localizations require_default =
      let folded = map to_ascii_lowercase localizations in
      let tags = any-not_iff (valid_language_tag parse_tag) localizations in
      let unique = length-distinct_iff folded in
      let mapped = length-map to_ascii_lowercase localizations in
      let named = contains_name-distinct (to_ascii_lowercase language) folded in
      (
        λ h. (tags.0 ground arith, unique.0 ground arith, ground arith),
        λ h. let valid = tags.1 h.0 in let all = unique.1 h.1 in let n = h.2 in ground arith,
      )
