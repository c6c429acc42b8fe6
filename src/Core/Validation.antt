-- ===== src/Core/Validation.antt =====
-- crates/odp-core/src/validation.rs: what a document is refused for.
pub mod Depth
pub mod Filters
pub mod Normalize
pub mod Rules
pub mod Versions
pub mod Parsing
pub mod Unique
pub mod Issues
pub mod Accepted
pub mod Known
pub mod Kept
pub mod Offerings
pub mod Normalized
mod Tests
use odp_rust.Prelude.{List, [], ◌++◌}
use odp_rust.Prelude.Text.{Text, text}
use odp_rust.Prelude.Maps.{Map}
use odp_rust.Core.Json.{Value}

pub record ValidationIssue : Type 0 where
  pub keyword : Text
  pub message : Text
  pub params : Map Value
  pub path : Text

pub record ValidationError : Type 0 where
  pub document_type : Text
  pub issues : List ValidationIssue

pub data ParseError : Type 0 where
  validation : ValidationError → ParseError
  schema_initialization : Text → ParseError

-- `to_string` of an error.
unfoldable pub parse_message : ParseError → Text
parse_message (validation e) = text "invalid ODP " ++ e.document_type
parse_message (schema_initialization e) = text "failed to initialize ODP schemas: " ++ e

abbrev pub issue : Text → Text → Text → ValidationIssue
issue path keyword message = record {
  keyword = keyword;
  message = message;
  params = [];
  path = path;
}
