-- ===== src/Service/Requests.antt =====
-- crates/odp-service/src/service.rs: the messages of a Service and how it fails.
use odp_rust.Prelude.{ℕ, Option, none, some, ◌++◌}
use odp_rust.Prelude.Text.{Text, text}
use odp_rust.Prelude.Maps.{Map}
use odp_rust.Core.Models.{Representation}

pub record Request : Type 0 where
  pub body : Text
  pub headers : Map Text
  pub method : Text
  pub path : Text
  pub query : Text

pub record Response : Type 0 where
  pub body : Text
  pub headers : Map Text
  pub status : ℕ

pub record CatalogRequest : Type 0 where
  pub accept_language : Option Text
  pub cursor : Option Text
  pub language : Text
  pub limit : ℕ
  pub path : Text
  pub representation : Representation

-- A `request_failure` has a code, a message, the seconds to wait and a status.
pub data ServiceError : Type 0 where
  invalid_configuration invalid_response catalog_failure : Text → ServiceError
  request_failure : Text → Text → Option ℕ → ℕ → ServiceError

-- `ServiceError::request`, `ServiceError::retry_after`.
abbrev pub request_error : ℕ → Text → Text → ServiceError
request_error status code message = request_failure code message none status

abbrev pub retry_after : ℕ → Text → Text → ℕ → ServiceError
retry_after status code message seconds = request_failure code message (some seconds) status

-- `to_string` of an error.
unfoldable pub service_message : ServiceError → Text
service_message (invalid_configuration e) = text "invalid Service configuration: " ++ e
service_message (invalid_response e) = text "invalid Service response: " ++ e
service_message (catalog_failure e) = text "catalog operation failed: " ++ e
service_message (request_failure code message seconds status) = message
