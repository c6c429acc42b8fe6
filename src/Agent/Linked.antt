-- ===== src/Agent/Linked.antt =====
-- crates/odp-agent/src/client.rs: what is asked for and accepted of a document that another one links to,
-- such as a JSON Schema or an OpenAPI document.
use odp_rust.Prelude.{
  ℕ, Bool, true, false, not, ◌&&◌, ◌||◌, Option, none, some, List, [], ◌++◌, any, Result, ok, err,
  ◌>>=◌, ◌>>◌, map_err, ok_or, refuse_if, length, ltb, ◌==◌, nat_eq, if◌then◌else◌,
}
use odp_rust.Prelude.Text.{Text, text, text_eq, is_empty, eq_ignore_ascii_case}
use odp_rust.Prelude.Maps.{Map, lookup, insert}
use odp_rust.Prelude.Numbers.{decimal}
use odp_rust.Core.Json.{Value, object}
use odp_rust.Core.References.{is_some}
use odp_rust.Core.Validation.Depth.{validate_json_depth}
use odp_rust.Directory.Transport.{HttpRequest, HttpResponse}
use odp_rust.Agent.Cache.{CacheRecord}
use odp_rust.Agent.Redirects.{
  AgentError, invalid_request, invalid_response, parse_error, request_error, is_success,
  is_more_than, declared_length, media_type_essence,
}
use odp_rust.Agent.Setup.{Libs}

pub record SupportingDocument : Type 0 where
  pub value : Value
  pub final_url : Text
  pub bytes : ℕ

abbrev pub is_object : Value → Bool
is_object (object members) = true
is_object _ = false

unfoldable pub decode_json_object : (Text → Result Text Value) → Text → Result AgentError Value
decode_json_object from_slice data' = do
  value ← map_err invalid_response (from_slice data')
  refuse_if (not (is_object value))
      (invalid_response (text "ODP supporting document must be a JSON object"))
  ok value

unfoldable pub supporting_document :
    (Text → Result Text Value) → Text → Text → Text → Result AgentError SupportingDocument
supporting_document from_slice body final_url resource_class = do
  value ← decode_json_object from_slice body
  map_err parse_error
      (validate_json_depth value (if resource_class == text "openapi" then 32 else 16))
  ok (record { value = value; final_url = final_url; bytes = length body })

-- What a caller asks for.
pub record Wanted : Type 0 where
  pub target : Text
  pub resource_class : Text
  pub accept : Text
  pub media_types : List Text
  pub maximum_bytes : ℕ
  pub fallback : ℕ

module _ (libs : Libs) (from_slice : Text → Result Text Value) where
  abbrev pub Url : Type 0
  Url = libs.url_lib.Url

  abbrev pub has_credentials : Url → Bool
  has_credentials url =
      not (is_empty (libs.url_lib.username url)) || is_some (libs.url_lib.password url)

  unfoldable pub require_https : Url → Result AgentError (Unit {0})
  require_https url =
      refuse_if
        (not (libs.url_lib.scheme url == text "https")
          || (not (is_some (libs.url_lib.host url)) || has_credentials url))
        (invalid_request (text "ODP supporting document URL must use HTTPS"))

  -- Where the record came from, if that is on the origin of the target.
  unfoldable pub resumed : Url → Option CacheRecord → Url
  resumed current none = current
  resumed current (some r) = elim (libs.url_lib.parse r.final_url) [
    | err e ↦ current
    | ok final_url ↦
        if libs.url_lib.origin final_url == libs.url_lib.origin current
          && not (has_credentials final_url)
        then final_url
        else current
  ]

  abbrev pub with_field : Text → Option Text → Map Text → Map Text
  with_field name none headers = headers
  with_field name (some value) headers = insert name value headers

  abbrev pub conditional_headers : Option CacheRecord → Map Text → Map Text
  conditional_headers none headers = headers
  conditional_headers (some r) headers =
      with_field (text "if-modified-since") r.last_modified
        (with_field (text "if-none-match") r.etag headers)

  unfoldable pub supporting_request : Text → Option CacheRecord → Url → HttpRequest
  supporting_request accept cached current = record {
    body = [];
    headers = conditional_headers cached (insert (text "accept") accept []);
    method = text "GET";
    url = libs.url_lib.as_str current;
  }

  unfoldable pub next_supporting : Url → Map Text → Result AgentError Url
  next_supporting current headers = do
    location ←
        ok_or (lookup (text "location") headers)
          (invalid_response (text "ODP supporting document redirect omitted Location"))
    next ← map_err invalid_response (libs.url_lib.join current location)
    refuse_if
        (not (libs.url_lib.origin next == libs.url_lib.origin current) || has_credentials next)
        (invalid_response
          (text "ODP supporting document redirect changed origin or included credentials"))
    ok next

  -- The checks on a response that is neither a redirect nor a 304.
  unfoldable pub accept_supporting :
      Wanted → Url → HttpResponse → Result AgentError SupportingDocument
  accept_supporting wanted current response = do
    refuse_if (not (is_success response.status)) (
        request_error (text "ODP supporting document returned HTTP " ++ decimal response.status)
          response.status)
    refuse_if
        (is_more_than wanted.maximum_bytes (declared_length response.headers)
          || ltb wanted.maximum_bytes (length response.body))
        (invalid_response (text "ODP supporting document exceeds its byte limit"))
    refuse_if
        (not (
          any (λ value. eq_ignore_ascii_case (media_type_essence response.headers) value)
            wanted.media_types))
        (invalid_response (text "ODP supporting document has an unsupported media type"))
    supporting_document from_slice response.body (libs.url_lib.as_str current) wanted.resource_class
