-- ===== src/Service/Answers/Tests.antt =====
-- A page of one Offering, checked.
use odp_rust.Prelude.{refl, false, [], ◌∷◌, All}
use odp_rust.Prelude.Text.{text, text_beq}
use odp_rust.Prelude.Maps.{lookup}
use odp_rust.Core.Json.{get, get_member, set_member}
use odp_rust.Core.Models.{terse}
use odp_rust.Core.Validation.Depth.{validate_json_depth, depth_run, check_pending, values_in}
use odp_rust.Core.Validation.Rules.{
  representation_issues, validate_localizations, distinct, repeats, offering_issues,
  valid_language_tag,
}
use odp_rust.Core.Validation.Parsing.{
  parse_offering, parse, validate_value, offering_representation_issues, compatible,
  is_minor_version, parse_page, parse_without_refinement,
}
use odp_rust.Service.Answers.{
  validate_offering_page, validate_page_envelope, validate_offerings,
  validate_offering_representation,
}
use odp_rust.Service.Answers.Checked.{
  IsEnvelope, IsValid, IsRepresented, validate_offering_page_inv,
}
use odp_rust.Service.Toy.{toy_service_lib, fern, fern_page, request_for}

validate_offering_page_inv_example :
    IsEnvelope [] 1 20 (request_for (text "GET") (text "/odp/offerings"))
    × All
        (λ value. IsValid toy_service_lib (text "1.0") value × IsRepresented terse value)
        (fern ∷ [])
unfolding validate_offering_page validate_page_envelope validate_offerings
    validate_offering_representation text_beq parse_offering parse validate_value
    validate_json_depth depth_run check_pending values_in lookup offering_representation_issues
    representation_issues validate_localizations distinct repeats offering_issues get get_member
    set_member compatible is_minor_version valid_language_tag parse_page parse_without_refinement
validate_offering_page_inv_example =
    validate_offering_page_inv toy_service_lib fern_page false terse 20
      (request_for (text "GET") (text "/odp/offerings")) refl
