-- ===== src/Agent/Redirects.antt =====
-- crates/odp-agent/src/client.rs: one request with its redirects, and the judgement of the response.
-- The `url` crate, the transport and its world `W` are parameters. `failure_message` words the
-- error of a failed request and is a parameter too.
pub mod Origins
pub mod Judgement
mod Tests
use mathlib.Core.List.{foldl}
use mathlib.Core.Option
use odp_rust.Prelude.{
  ℕ, zero, suc, ◌+◌, Bool, true, false, not, ◌&&◌, ◌||◌, Option, none, some, List, [], ◌∷◌, Result,
  ok, err, ◌>>=◌, ◌>>◌, refuse_if, map_err, ok_or, ◌==◌, nat_eq, leb, ltb, length, if◌then◌else◌,
}
use odp_rust.Prelude.Text.{
  Text, text, text_eq, text_beq, is_empty, split_once, trim, eq_ignore_ascii_case,
}
use odp_rust.Prelude.Maps.{Map, lookup, insert}
use odp_rust.Prelude.Numbers.{parse_u64}
use odp_rust.Core.Models.{Operation}
use odp_rust.Core.Validation.{ParseError}
use odp_rust.Core.References.{derive_service_origin}
use odp_rust.Core.References.Url.{UrlLib}
use odp_rust.Directory.Transport.{HttpRequest, HttpResponse, TransportError, Transport}

pub data AgentError : Type 0 where
  cache_error directory_error invalid_request invalid_response : Text → AgentError
  parse_error : ParseError → AgentError
  request_error : Text → ℕ → AgentError
  transport_error : TransportError → AgentError
  unsupported_operation : Operation → AgentError

abbrev pub media_type : Text
media_type = text "application/odp+json"

abbrev pub max_problem_bytes : ℕ
max_problem_bytes = 16_384

abbrev pub max_redirects : ℕ
max_redirects = 5

pub record RawResponse : Type 0 where
  pub body : Text
  pub final_url : Text
  pub headers : Map Text
  pub status : ℕ

-- `matches!(status, 301 | 302 | 303 | 307 | 308)`
abbrev pub is_redirect : ℕ → Bool
is_redirect status =
    status == 301 || status == 302 || status == 303 || status == 307 || status == 308

-- `headers.extend(fields)`: a later field of one name replaces an earlier one.
abbrev pub extend : Map Text → Map Text → Map Text
extend headers fields = foldl (λ m p. insert p.0 p.1 m) headers fields

unfoldable pub request_headers : Option Text → Text → Map Text → Map Text
request_headers accept_language body conditional =
    let accept : Map Text = insert (text "accept") media_type [] in
    let spoken : Map Text = elim accept_language [
      | none ↦ accept
      | some language ↦ insert (text "accept-language") language accept
    ] in
    let typed = if is_empty body then spoken else insert (text "content-type") media_type spoken in
    extend typed conditional

-- Whether the method becomes GET and the body is dropped.
abbrev pub drops_body : ℕ → Text → Bool
drops_body status method =
    status == 303 || ((status == 301 || status == 302) && method == text "POST")

module _ (url_lib : UrlLib) where
  open url_lib use {Url, join, as_str}

  -- What one pass of the loop sends.
  unfoldable pub pass_request : Option Text → Text → Url → Text → Map Text → HttpRequest
  pass_request accept_language method target body conditional = record {
    body = body;
    headers = request_headers accept_language body conditional;
    method = method;
    url = as_str target;
  }

  -- The checks on a redirect, up to the next target.
  unfoldable pub next_target : Url → Map Text → Text → Result AgentError Url
  next_target target headers redirect_origin = do
    location ←
        ok_or (lookup (text "location") headers)
          (invalid_response (text "ODP redirect omitted Location"))
    next ← map_err invalid_response (join target location)
    refuse_if
        (elim (derive_service_origin url_lib (as_str next)) [
          | ok origin' ↦ not (origin' == redirect_origin)
          | err e ↦ true
        ])
        (invalid_response (text "ODP redirect changed Service origin"))
    ok next

module _ (url_lib : UrlLib) {W : Type 0} (transport : Transport W)
    (accept_language : Option Text) where
  open url_lib use {Url, as_str}

  -- What the loop returns for a response that is no redirect.
  abbrev pub finish : Url → HttpResponse → RawResponse
  finish target response = record {
    body = response.body;
    final_url = as_str target;
    headers = response.headers;
    status = response.status;
  }

  -- The first argument is how many redirects are left: `MAX_REDIRECTS` less the source's counter.
  unfoldable pub request_loop :
      ℕ → Text → Url → Text → Map Text → Text → ℕ → W → Result AgentError RawResponse × W
  request_loop zero method target body conditional redirect_origin maximum_bytes w =
      let (sent, w') =
        transport.send_limited (pass_request url_lib accept_language method target body conditional)
          maximum_bytes w in
      elim sent [
        | err e ↦ (err (transport_error e), w')
        | ok response ↦
            if is_redirect response.status
            then (err (invalid_response (text "ODP response exceeded five redirects")), w')
            else (ok (finish target response), w')
      ]
  request_loop (suc left) method target body conditional redirect_origin maximum_bytes w =
      let (sent, w') =
        transport.send_limited (pass_request url_lib accept_language method target body conditional)
          maximum_bytes w in
      elim sent [
        | err e ↦ (err (transport_error e), w')
        | ok response ↦ elim (is_redirect response.status) [
          | false ↦ (ok (finish target response), w')
          | true ↦ elim (next_target url_lib target response.headers redirect_origin) [
            | err e ↦ (err e, w')
            | ok next ↦ elim (drops_body response.status method) [
              | true ↦
                  request_loop left (text "GET") next [] conditional redirect_origin maximum_bytes
                    w'
              | false ↦
                  request_loop left method next body conditional redirect_origin maximum_bytes w'
            ]
          ]
        ]
      ]

  unfoldable pub request_raw :
      Text → Url → Text → Map Text → Text → ℕ → W → Result AgentError RawResponse × W
  request_raw = request_loop max_redirects

-- The `content-length` field as a number.
abbrev pub declared_length : Map Text → Option ℕ
declared_length headers =
    Option.bind (lookup (text "content-length") headers) (λ value. parse_u64 (trim value))

abbrev pub is_more_than : ℕ → Option ℕ → Bool
is_more_than limit none = false
is_more_than limit (some value) = ltb limit value

unfoldable pub require_within_limit : RawResponse → ℕ → Result AgentError (Unit {0})
require_within_limit response limit =
    refuse_if
      (is_more_than limit (declared_length response.headers) || ltb limit (length response.body))
      (invalid_response (text "ODP response exceeds its byte limit"))

-- What stands before the first `;`, without the space around it.
unfoldable pub media_type_essence : Map Text → Text
media_type_essence headers = elim (lookup (text "content-type") headers) [
  | none ↦ []
  | some value ↦ trim (elim (split_once 59 value) [ none ↦ value | some p ↦ p.0 ])
]

-- `(200..300).contains(&status)`
abbrev pub is_success : ℕ → Bool
is_success status = leb 200 status && ltb status 300

module _ (failure_message : RawResponse → Text) where
  unfoldable pub consume : RawResponse → ℕ → Result AgentError RawResponse
  consume response maximum_bytes = do
    let failed = not (is_success response.status)
    require_within_limit response (if failed then max_problem_bytes else maximum_bytes)
    refuse_if failed (request_error (failure_message response) response.status)
    refuse_if (not (eq_ignore_ascii_case (media_type_essence response.headers) media_type))
        (invalid_response (text "ODP response must use application/odp+json"))
    ok response
