-- ===== src/Service/Problems.antt =====
-- crates/odp-service/src/service.rs: how a failure is described. The JSON of a problem is a parameter.
pub mod Bounds
use odp_rust.Prelude.{
  ℕ, zero, suc, ◌+◌, ◌-◌, ◌||◌, Bool, ◌&&◌, Option, none, some, List, [], ◌∷◌, ◌++◌, map, Result,
  ok, err, ◌==◌, nat_eq, leb, if◌then◌else◌,
}
use odp_rust.Prelude.Text.{Text, text, text_eq, char_count, to_ascii_lowercase}
use odp_rust.Prelude.Maps.{Map, insert}
use odp_rust.Prelude.Numbers.{decimal}
use odp_rust.Core.Documents.Resources.{ProblemDetails}
use odp_rust.Service.Requests.{Response, ServiceError, request_failure, service_message}

abbrev pub problem_media_type : Text
problem_media_type = text "application/problem+json"

abbrev pub maximum_title_characters : ℕ
maximum_title_characters = 128

abbrev pub maximum_detail_characters : ℕ
maximum_detail_characters = 2048

abbrev pub default_retry_after : ℕ
default_retry_after = 1

-- A byte that continues a character.
abbrev pub continues_char : ℕ → Bool
continues_char c = leb 128 c && leb c 191

-- `chars().take(n)`: the bytes of so many characters.
unfoldable pub take_chars : ℕ → Text → Text
take_chars n [] = []
take_chars zero (c ∷ s) = let rest = take_chars zero s in if continues_char c then c ∷ rest else []
take_chars (suc n) (c ∷ s) =
    let same = take_chars (suc n) s in
    let next = take_chars n s in if continues_char c then c ∷ same else c ∷ next

-- The ellipsis.
abbrev pub ellipsis : Text
ellipsis = 226 ∷ (128 ∷ (166 ∷ []))

unfoldable pub bounded : Text → ℕ → Text
bounded value maximum =
    if leb (char_count value) maximum then value else take_chars (maximum - 1) value ++ ellipsis

abbrev pub hyphens : Text → Text
hyphens value = map (λ c. if c == 95 then 45 else c) value

unfoldable pub problem_details : ℕ → Text → Text → ProblemDetails
problem_details status code detail = record {
  code = code;
  detail = bounded detail maximum_detail_characters;
  instance = [];
  invalid_params = [];
  status = status;
  title = bounded detail maximum_title_characters;
  problem_type = text "https://offeringprotocol.org/problems/" ++ hyphens (to_ascii_lowercase code);
  additional = [];
}

unfoldable pub problem_headers : ℕ → Option ℕ → Map Text
problem_headers status seconds =
    let headers : Map Text = (text "content-type", problem_media_type) ∷ [] in
    if status == 429 || status == 503
    then insert (text "retry-after")
        (decimal (elim seconds [ none ↦ default_retry_after | some n ↦ n ])) headers
    else elim seconds [ none ↦ headers | some n ↦ insert (text "retry-after") (decimal n) headers ]

module _ (problem_to_vec : ProblemDetails → Result Text Text) where
  unfoldable pub problem_with_retry : ℕ → Text → Text → Option ℕ → Response
  problem_with_retry status code detail seconds = record {
    body = elim (problem_to_vec (problem_details status code detail)) [
      | ok bytes ↦ bytes
      | err e ↦ text "{\"status\":500}"
    ];
    headers = problem_headers status seconds;
    status = status;
  }

  abbrev pub problem : ℕ → Text → Text → Response
  problem status code detail = problem_with_retry status code detail none

  unfoldable pub method_not_allowed : Text → Response
  method_not_allowed allow =
      let response =
        problem 405 (text "METHOD_NOT_ALLOWED") (text "ODP operation uses a fixed HTTP method") in
      record response { headers = insert (text "allow") allow response.headers }

  -- What `handle` makes of the outcome of `handle_result`.
  unfoldable pub response_of : Result ServiceError Response → Response
  response_of (ok response) = response
  response_of (err (request_failure code message seconds status)) =
      problem_with_retry status code message seconds
  response_of (err e) = problem 500 (text "INTERNAL_ERROR") (service_message e)
