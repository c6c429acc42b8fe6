-- ===== src/Service/Builder/Tests.antt =====
-- A Service of one Offering, built.
use odp_rust.Prelude.{◌≡◌, refl, ok, List, [], ◌∷◌}
use odp_rust.Prelude.Text.{text, text_beq, trim_end_matches, trim_start_matches}
use odp_rust.Prelude.Maps.{lookup}
use odp_rust.Core.Json.{get, get_member, set_member}
use odp_rust.Core.Models.{list_offerings, get_offering}
use odp_rust.Core.Documents.Enums.{optional, required}
use odp_rust.Core.Validation.Depth.{validate_json_depth, depth_run, check_pending, values_in}
use odp_rust.Core.Validation.Rules.{
  service_document_issues, validate_localizations, distinct, repeats, valid_language_tag,
}
use odp_rust.Core.Validation.Parsing.{
  parse_service_document, parse, validate_value, compatible, is_minor_version,
}
use odp_rust.Service.Catalogs.{default_catalog}
use odp_rust.Service.Toy.{toy_service_lib, toy_catalog, toy_service, garden}
use odp_rust.Service.Builder.{new_service, build, authenticate, authentication_of}
use odp_rust.Service.Builder.Authentications.{
  BuilderCall, set_authentication, set_localizations, run_calls,
}
use odp_rust.Service.Builder.Published.{IsPublished, asked_for, build-IsPublished}

-- The last of the two calls for the listing counts, whatever is set between them.
abbrev calls : List BuilderCall
calls =
    set_authentication list_offerings optional
    ∷ set_localizations (text "en" ∷ [])
    ∷ set_authentication list_offerings required
    ∷ []

builds : build toy_service_lib (run_calls calls garden) toy_catalog ≡ ok toy_service
unfolding new_service run_calls authenticate authentication_of parse_service_document parse
    validate_value validate_json_depth depth_run check_pending values_in lookup
    service_document_issues validate_localizations distinct repeats valid_language_tag compatible
    is_minor_version get get_member set_member text_beq trim_end_matches trim_start_matches
    default_catalog
builds = refl

build-IsPublished_example :
    IsPublished toy_service_lib toy_catalog
      (asked_for (run_calls calls garden).document calls (list_offerings ∷ (get_offering ∷ [])))
      toy_service
build-IsPublished_example =
    build-IsPublished toy_service_lib toy_catalog (text "Garden") (text "Ferns") (text "en")
      (text "/odp/") calls toy_service builds
