-- ===== src/Service/Negotiation/Tests.antt =====
-- The choices of a language and of a media type, made.
use odp_rust.Prelude.{◌≡◌, refl, false, some, List, [], ◌∷◌}
use odp_rust.Prelude.Text.{
  Text, text, split, trim, trim_start, text_beq, split_once, rsplit_once, eq_ignore_ascii_case,
}
use odp_rust.Prelude.Numbers.{parse_u64}
use odp_rust.Service.Toy.{toy_floats}
use odp_rust.Service.Negotiation.{
  select_language, accepts_odp, best_range, specificity, quality, weighted_range, weighted_ranges,
  sort_ranges, insert_range, ranges_by_weight, look_up, shorter, select_from,
}
use odp_rust.Service.Negotiation.Languages.{IsChosen, select_language-IsChosen}
use odp_rust.Service.Negotiation.MediaTypes.{deciding, weighs_more, accepts_odp-deciding}

abbrev asked_languages : Text
asked_languages = text "de;q=0, fr-CH, en"

abbrev published_languages : List Text
published_languages = text "en" ∷ (text "fr" ∷ [])

chooses_french :
    select_language toy_floats (text "en") published_languages (some asked_languages) ≡ text "fr"
unfolding select_language ranges_by_weight sort_ranges insert_range weighted_ranges weighted_range
    quality select_from look_up shorter split trim trim_start split_once rsplit_once
    eq_ignore_ascii_case text_beq parse_u64
chooses_french = refl

select_language-IsChosen_example :
    IsChosen toy_floats
      (text "en")
      published_languages
      asked_languages
      (select_language toy_floats (text "en") published_languages (some asked_languages))
select_language-IsChosen_example =
    select_language-IsChosen toy_floats (text "en") asked_languages published_languages

abbrev refusing : Text
refusing = text "*/*, application/odp+json;q=0"

refuses : accepts_odp toy_floats (some refusing) ≡ false
unfolding accepts_odp best_range specificity quality split trim trim_start split_once
    eq_ignore_ascii_case text_beq parse_u64
refuses = refl

accepts_odp-deciding_example :
    accepts_odp toy_floats (some refusing) ≡ weighs_more toy_floats (deciding (split 44 refusing))
unfolding trim trim_start
accepts_odp-deciding_example = accepts_odp-deciding toy_floats refusing refl
