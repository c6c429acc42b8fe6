-- ===== src/Core/Validation/Tests.antt =====
-- Small documents, and the theorems at them.
use mathlib.Core.Option
use odp_rust.Prelude.{
  ◌↔◌, ◌≡◌, ◌==◌, if◌then◌else◌, List, refl, false, Option, some, none, [], ◌∷◌, ok, err, Result,
}
use odp_rust.Prelude.Text.{
  Text, text, text_beq, text_eq, strip_prefix, split, split_once, trim_start_matches,
  trim_end_matches,
}
use odp_rust.Prelude.Maps.{lookup}
use odp_rust.Core.Json.{
  Value, null, number, string, array, object, empty_array, value_then, empty_object, member_then,
  get, get_member, set_member, remove_member, retain_values, all_keys,
}
use odp_rust.Core.References.{is_some_and}
use odp_rust.Core.Documents.Enums.{required, invoke, range}
use odp_rust.Core.Documents.Resources.{Action, Offering, PricePreview, ProblemDetails}
use odp_rust.Core.Validation.Depth.{
  depth_run, validate_json_depth, check_pending, push_values, push_members, values_in, too_deep,
  nesting, validate_json_depth_lem,
}
use odp_rust.Core.Validation.Filters.{
  text_at, on_member, retain_list, is_recognized, filter_list, has_unknown_authentication,
}
use odp_rust.Core.Validation.Normalize.{
  normalize_offering, known_action, drop_extended_schema, drop_unknown_price,
}
use odp_rust.Core.Validation.Rules.{
  repeats, split_decimal, cmp, cmp_text, compare_decimals, offering_issues,
  filter_definition_issues, distinct, valid_language_tag, validate_localizations, LanguageTag,
  problem_details_issues,
}
use odp_rust.Core.Validation.Parsing.{
  JsonLib, SchemaError, is_minor_version, compatible, validate_value, parse, parse_problem_details,
  parse_problem_response,
}
use odp_rust.Core.Validation.Accepted.{IsDocument, parse_iff}

rules : Unit {0}
unfolding text_beq strip_prefix split split_once trim_start_matches trim_end_matches lookup
    get_member get set_member remove_member retain_values all_keys depth_run validate_json_depth
    check_pending push_values push_members values_in nesting on_member retain_list is_recognized
    filter_list has_unknown_authentication normalize_offering known_action drop_extended_schema
    drop_unknown_price repeats split_decimal cmp cmp_text compare_decimals offering_issues
    filter_definition_issues distinct valid_language_tag validate_localizations
    problem_details_issues is_minor_version compatible validate_value parse parse_problem_details
    parse_problem_response Option.bind
rules = tt

abbrev nested : Value
nested =
    array
      (value_then (object (member_then (text "id") (array empty_array) empty_object)) empty_array)

validate_json_depth_lem_example : validate_json_depth nested 2 ≡ err too_deep
unfolding nesting
validate_json_depth_lem_example = (validate_json_depth_lem nested 2).1

abbrev action : Text → Action
action id = record {
  authentication = required;
  description = [];
  http = none;
  id = id;
  openapi = none;
  rel = invoke;
}

abbrev priced : Text → Text → PricePreview
priced minimum maximum = record {
  amount = [];
  currency = text "EUR";
  maximum = maximum;
  minimum = minimum;
  price_type = range;
  unit = [];
  additional = [];
}

abbrev offering : Offering
offering = record {
  actions = action (text "buy") ∷ action (text "rent") ∷ [];
  auth_expands = false;
  attributes = [];
  collection_ids = [];
  description = [];
  detail_fields = [];
  id = text "a";
  images = [];
  language = [];
  localizations = [];
  name = text "A";
  odp_version = text "1.0";
  price = some (priced (text "09.50") (text "10.05"));
  schema = none;
  web_url = [];
  additional = [];
}

abbrev plain_tag : Text → Option LanguageTag
plain_tag value = some (record { variant_subtags = []; extension_singletons = [] })

abbrev problem_value : Value
problem_value = object (
    member_then (text "status") (number (text "404"))
      (member_then (text "odp_version") (string (text "1.20")) empty_object))

-- An error unless the version is 1.0.
abbrev check_version : Value → List SchemaError
check_version v =
    if is_some_and (text_at (text "odp_version" ∷ []) v) (λ value. value == text "1.0")
    then []
    else record { schema_path = []; message = []; instance_path = [] } ∷ []

abbrev problem : ProblemDetails
problem = record {
  code = text "NOT_FOUND";
  detail = [];
  instance = [];
  invalid_params = [];
  status = 404;
  title = text "Not found";
  problem_type = text "https://offeringprotocol.org/problems/not-found";
  additional = [];
}

abbrev lib : JsonLib
lib = record {
  from_slice = λ bytes. ok problem_value;
  to_text = λ v. [];
  schemas = ok ((text "problem-details.schema.json", check_version) ∷ []);
  parse_tag = plain_tag;
  bucket_key = λ v. [];
}

abbrev read_problem : Value → Result Text ProblemDetails
read_problem v = ok problem

parses : parse_problem_response lib read_problem (text "{}") 404 ≡ ok problem
unfolding rules
parses = refl

parses_details :
    parse lib read_problem
      (text "{}")
      (text "problem-details.schema.json")
      (text "Problem Details")
      problem_details_issues
    ≡ ok problem
unfolding rules
parses_details = refl

parse_iff_example :
    (parse lib read_problem
        (text "{}")
        (text "problem-details.schema.json")
        (text "Problem Details")
        problem_details_issues
      ≡ ok problem)
    ↔ IsDocument lib read_problem
        (text "{}")
        (text "problem-details.schema.json")
        problem_details_issues
        problem
parse_iff_example =
    parse_iff lib read_problem (text "{}") (text "problem-details.schema.json")
      (text "Problem Details") problem_details_issues problem

abbrev asking : Text → Value
asking authentication' = object (
    member_then (text "id") (string (text "buy"))
      (member_then (text "authentication") (string authentication') empty_object))

abbrev shop : Value
shop = object (
    member_then (text "actions")
      (array (
        value_then (asking (text "required")) (
          value_then (asking (text "retina"))
            (value_then (object (member_then (text "secret") null empty_object)) empty_array))))
      empty_object)

-- Of three Actions, one has an unknown authentication and one an unknown member.
sells :
    get (text "actions") (normalize_offering shop)
    ≡ some (array (value_then (asking (text "required")) empty_array))
unfolding rules
sells = refl
