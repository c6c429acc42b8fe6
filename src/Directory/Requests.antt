-- ===== src/Directory/Requests.antt =====
-- crates/odp-directory/src/client.rs: one request of a Directory client with its redirects, and the
-- judgement of the response. The wording of a failure is a parameter.
pub mod Origins
mod Tests
use mathlib.Core.Option
use odp_rust.Prelude.{
  ℕ, zero, suc, ◌+◌, Bool, true, false, not, ◌&&◌, ◌||◌, Option, none, some, List, [], ◌∷◌, Result,
  ok, err, ◌>>=◌, ◌>>◌, refuse_if, map_err, ok_or, ◌==◌, nat_eq, ltb, length, if◌then◌else◌,
}
use odp_rust.Prelude.Text.{Text, text, text_eq, is_empty, split_once, trim, eq_ignore_ascii_case}
use odp_rust.Prelude.Maps.{Map, lookup, insert}
use odp_rust.Prelude.Numbers.{parse_u64}
use odp_rust.Core.References.Url.{UrlLib}
use odp_rust.Directory.Transport.{HttpRequest, HttpResponse, TransportError, Transport}
use odp_rust.Directory.Client.{DirectoryError, transport_error, invalid_response, request_error}

abbrev pub maximum_redirects : ℕ
maximum_redirects = 5

abbrev pub maximum_response_bytes : ℕ
maximum_response_bytes = 524_288

abbrev pub json_type : Text
json_type = text "application/json"

abbrev pub moves : ℕ → Bool
moves status = status == 301 || status == 302 || status == 303 || status == 307 || status == 308

abbrev pub fails : ℕ → Bool
fails status = ltb status 200 || ltb 299 status

unfoldable pub media_type_of : Map Text → Text
media_type_of headers = elim (lookup (text "content-type") headers) [
  | none ↦ []
  | some value ↦ trim (elim (split_once 59 value) [ none ↦ value | some parts ↦ parts.0 ])
]

abbrev pub declared_above : ℕ → Map Text → Bool
declared_above limit headers =
    elim (Option.bind (lookup (text "content-length") headers) (λ value. parse_u64 (trim value))) [
      | none ↦ false
      | some value ↦ ltb limit value
    ]

module _ (failure_message : HttpResponse → Text) where
  unfoldable pub consume_response : HttpResponse → Result DirectoryError HttpResponse
  consume_response response = do
    refuse_if (fails response.status)
        (request_error response.headers (failure_message response) response.status)
    refuse_if
        (declared_above maximum_response_bytes response.headers
          || ltb maximum_response_bytes (length response.body))
        (invalid_response (text "Directory response exceeds 524288 bytes"))
    refuse_if (not (eq_ignore_ascii_case (media_type_of response.headers) json_type))
        (invalid_response (text "Directory response must use application/json"))
    ok response

module _ (url_lib : UrlLib) where
  open url_lib use {Url, join, origin, as_str}

  -- What one pass of the loop sends.
  unfoldable pub directory_request : Text → Url → Text → HttpRequest
  directory_request method target body =
      let accept : Map Text = insert (text "accept") json_type [] in
      record {
        body = body;
        headers = if is_empty body then accept else insert (text "content-type") json_type accept;
        method = method;
        url = as_str target;
      }

  -- The checks on a redirect, up to the next target.
  unfoldable pub redirected : Url → Map Text → Result DirectoryError Url
  redirected target headers = do
    location ←
        ok_or (lookup (text "location") headers)
          (invalid_response (text "Directory redirect omitted Location"))
    next ← map_err invalid_response (join target location)
    refuse_if (not (origin next == origin target))
        (invalid_response (text "Directory redirect changed origin"))
    ok next

  module _ (failure_message : HttpResponse → Text) {W : Type 0} (transport : Transport W) where
    -- The first argument is how many redirects are left.
    unfoldable pub request_left : ℕ → Text → Url → Text → W → Result DirectoryError HttpResponse × W
    request_left zero method target body w =
        let (sent, w') = transport.send (directory_request method target body) w in
        elim sent [
          | err e ↦ (err (transport_error e), w')
          | ok response ↦
              if moves response.status
              then (err (invalid_response (text "Directory response exceeded five redirects")), w')
              else (consume_response failure_message response, w')
        ]
    request_left (suc left) method target body w =
        let (sent, w') = transport.send (directory_request method target body) w in
        elim sent [
          | err e ↦ (err (transport_error e), w')
          | ok response ↦ elim (moves response.status) [
            | false ↦ (consume_response failure_message response, w')
            | true ↦ elim (redirected target response.headers) [
              | err e ↦ (err e, w')
              | ok next ↦
                  elim (response.status == 303
                    || ((response.status == 301 || response.status == 302)
                        && method == text "POST")) [
                          | true ↦ request_left left (text "GET") next [] w'
                          | false ↦ request_left left method next body w'
                        ]
            ]
          ]
        ]

    unfoldable pub request : Text → Url → Text → W → Result DirectoryError HttpResponse × W
    request = request_left maximum_redirects
