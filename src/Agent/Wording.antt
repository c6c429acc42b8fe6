-- ===== src/Agent/Wording.antt =====
-- crates/odp-agent/src/client.rs: what a failed request is said to have failed with.
pub mod Flattened
mod Tests
use odp_rust.Prelude.{Bool, not, Option, List, [], ◌∷◌, map, Result, ok, err, ◌>>=◌, if◌then◌else◌}
use odp_rust.Prelude.Text.{Text, text, is_empty, eq_ignore_ascii_case}
use odp_rust.Prelude.Chars.{chars, concat, is_control, split_whitespace, join_words}
use odp_rust.Core.Json.{Value}
use odp_rust.Core.Documents.Resources.{ProblemDetails}
use odp_rust.Core.Validation.Parsing.{JsonLib, normalize_agent_response, parse_problem_response}
use odp_rust.Agent.Redirects.{RawResponse, media_type_essence}

abbrev pub problem_media_type : Text
problem_media_type = text "application/problem+json"

abbrev pub absent : Text
absent = text "the Service supplied no Problem Details"

abbrev pub soften : Text → Text
soften c = if is_control c then 32 ∷ [] else c

-- The characters are not put together and taken apart again between the two steps.
unfoldable pub printable : Text → Text
printable value = concat (join_words (split_whitespace (map soften (chars value))))

-- The field of a problem that is quoted.
abbrev pub quoted : ProblemDetails → Text
quoted problem = if is_empty problem.detail then problem.title else problem.detail

-- `ABSENT` for a text that is empty.
abbrev pub or_absent : Text → Text
or_absent detail = if is_empty detail then absent else detail

module _ (json : JsonLib) (decode : Value → Result Text ProblemDetails) where
  unfoldable pub failure_message : RawResponse → Text
  failure_message response =
      if not (eq_ignore_ascii_case (media_type_essence response.headers) problem_media_type)
      then absent
      else elim (normalize_agent_response json response.body (text "problem") >>= λ document.
          parse_problem_response json decode document response.status) [
            | err e ↦ absent
            | ok problem ↦ or_absent (printable (quoted problem))
          ]
