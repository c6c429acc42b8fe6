-- ===== src/Agent/Wording/Tests.antt =====
-- A problem whose detail tries to begin a new line of a log.
use mathlib.Core.Option
use odp_rust.Prelude.{◌≡◌, refl, none, [], ◌∷◌, ◌++◌, false, ok, err, Result}
use odp_rust.Prelude.Text.{Text, text, text_beq, split_once, trim, eq_ignore_ascii_case}
use odp_rust.Prelude.Maps.{lookup}
use odp_rust.Prelude.Chars.{
  chars, concat, is_control, is_whitespace, split_at_whitespace, nonempty, split_whitespace,
  join_words,
}
use odp_rust.Core.Json.{Value, object, member_then, number, empty_object}
use odp_rust.Core.Documents.Resources.{ProblemDetails}
use odp_rust.Core.Validation.Parsing.{
  JsonLib, normalize_agent_response, parse_problem_response, parse_problem_details, parse,
  validate_value,
}
use odp_rust.Core.Validation.Depth.{
  validate_json_depth, depth_run, check_pending, push_members, values_in,
}
use odp_rust.Core.Validation.Rules.{problem_details_issues}
use odp_rust.Agent.Redirects.{
  RawResponse, request_error, is_success, require_within_limit, media_type_essence, consume,
}
use odp_rust.Agent.Wording.{problem_media_type, printable, failure_message}
use odp_rust.Agent.Wording.Flattened.{IsTold, consume-IsTold}

abbrev forged : Text
forged = text "Sold out." ++ ((10 ∷ []) ++ (text "INFO  all is " ++ (194 ∷ 133 ∷ text "well")))

flattens : printable forged ≡ text "Sold out. INFO all is well"
unfolding printable chars concat is_control is_whitespace split_at_whitespace nonempty
    split_whitespace join_words
flattens = refl

abbrev problem : ProblemDetails
problem = record {
  code = text "NOT_FOUND";
  detail = forged;
  instance = [];
  invalid_params = [];
  status = 404;
  title = text "Not found";
  problem_type = text "https://offeringprotocol.org/problems/not-found";
  additional = [];
}

abbrev json : JsonLib
json = record {
  from_slice =
      λ bytes. ok (object (member_then (text "status") (number (text "404")) empty_object));
  to_text = λ v. [];
  schemas = ok ((text "problem-details.schema.json", λ v. []) ∷ []);
  parse_tag = λ value. none;
  bucket_key = λ v. [];
}

abbrev decode : Value → Result Text ProblemDetails
decode v = ok problem

abbrev response : RawResponse
response = record {
  body = text "{}";
  final_url = text "https://shop.example/offerings/tea";
  headers = (text "content-type", problem_media_type) ∷ [];
  status = 404;
}

fails :
    consume (failure_message json decode) response 100
    ≡ err (request_error (text "Sold out. INFO all is well") 404)
unfolding consume require_within_limit Option.bind lookup text_beq failure_message
    eq_ignore_ascii_case media_type_essence trim split_once normalize_agent_response
    validate_json_depth depth_run check_pending push_members values_in parse_problem_response
    parse_problem_details parse validate_value problem_details_issues printable chars concat
    is_control is_whitespace split_at_whitespace nonempty split_whitespace join_words
fails = refl

consume-IsTold_example :
    (response.status ≡ 404)
    × (is_success 404 ≡ false)
    × IsTold json decode response (text "Sold out. INFO all is well")
consume-IsTold_example =
    consume-IsTold json decode response 100 (text "Sold out. INFO all is well") 404 fails
