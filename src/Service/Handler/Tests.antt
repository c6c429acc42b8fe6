-- ===== src/Service/Handler/Tests.antt =====
-- Requests of a Service of one Offering, answered.
use odp_rust.Prelude.{◌≡◌, refl, [], ◌∷◌, ◌==◌, nat_eq, if◌then◌else◌, ap}
use odp_rust.Prelude.Text.{Text, text, text_beq, eq_ignore_ascii_case, split, trim, trim_start}
use odp_rust.Prelude.Text.Laws.{Lacks-all}
use odp_rust.Prelude.Maps.{lookup, insert}
use odp_rust.Core.Validation.Depth.{validate_json_depth, depth_run, check_pending, values_in}
use odp_rust.Service.Requests.{Request, Response}
use odp_rust.Service.Problems.{response_of}
use odp_rust.Service.Answers.{entity_tag, hex_digits, represent, json_response, versioned}
use odp_rust.Service.Negotiation.{accepts_odp, best_range, specificity, quality, select_language}
use odp_rust.Service.Toy.{toy_service_lib, toy_service, request_for}
use odp_rust.Service.Handler.{handle, handle_result, handle_as, if_none_match, without_body}
use odp_rust.Service.Handler.Heads.{got, headers_only, handle-headers_only}
use odp_rust.Service.Handler.Replayed.{naming, handle-naming}

abbrev shadow : Request
shadow = request_for (text "head") (text "/odp/offerings/fern")

handle-headers_only_example :
    ((handle toy_service_lib toy_service shadow 0).0 ≡ (
      if (handle toy_service_lib toy_service (got shadow) 0).0.status == 304
      then (handle toy_service_lib toy_service (got shadow) 0).0
      else headers_only (handle toy_service_lib toy_service (got shadow) 0).0))
    × ((handle toy_service_lib toy_service shadow 0).1
        ≡ (handle toy_service_lib toy_service (got shadow) 0).1)
unfolding eq_ignore_ascii_case text_beq
handle-headers_only_example = handle-headers_only toy_service_lib toy_service shadow 0 refl

abbrev well_known : Request
well_known = request_for (text "GET") (text "/.well-known/odp")

abbrev garden_tag : Text
garden_tag = text "\"09\""

abbrev answered : Response
answered = record {
  body = text "Garden";
  headers =
      (text "content-type", text "application/odp+json")
      ∷ ((text "content-language", text "en")
          ∷ ((text "vary", text "Accept-Language") ∷ ((text "etag", garden_tag) ∷ [])));
  status = 200;
}

answers_first : (handle toy_service_lib toy_service well_known 0).0 ≡ answered
unfolding handle handle_result handle_as accepts_odp best_range specificity quality select_language
    represent json_response versioned validate_json_depth depth_run check_pending values_in
    entity_tag hex_digits insert lookup split trim trim_start eq_ignore_ascii_case text_beq
    if_none_match without_body response_of
answers_first = refl

handle-naming_example :
    ((handle toy_service_lib toy_service (naming garden_tag well_known) 0).0.status ≡ 304)
    × ((handle toy_service_lib toy_service (naming garden_tag well_known) 0).0.body ≡ [])
    × ((handle toy_service_lib toy_service (naming garden_tag well_known) 0).1
        ≡ (handle toy_service_lib toy_service well_known 0).1)
unfolding lookup eq_ignore_ascii_case text_beq
handle-naming_example =
    handle-naming toy_service_lib toy_service well_known 0 garden_tag (Lacks-all 44 garden_tag refl)
      refl (ap (λ r. r.status) answers_first)
      (ap (λ r. lookup (text "etag") r.headers) answers_first)
