-- ===== src/Core/Documents/Resources.antt =====
-- crates/odp-core/src/models.rs: Collections, Offerings and problems.
use odp_rust.Prelude.{ℕ, Bool, Option, List}
use odp_rust.Prelude.Text.{Text}
use odp_rust.Prelude.Maps.{Map}
use odp_rust.Core.Json.{Value}
use odp_rust.Core.Documents.Enums.{
  PriceType, AuthenticationRequirement, ResourceImageType, ActionRelation,
}
use odp_rust.Core.Documents.Services.{SearchCapabilities}

pub record ResourceImage : Type 0 where
  pub alt : Text
  pub height : ℕ
  pub src : Text
  pub media_type : Option ResourceImageType
  pub width : ℕ

pub record Collection : Type 0 where
  pub auth_expands : Bool
  pub description : Text
  pub detail_fields : List Text
  pub id : Text
  pub images : List ResourceImage
  pub language : Text
  pub localizations : List Text
  pub name : Text
  pub odp_version : Text
  pub parent_ids : List Text
  pub search_capabilities : Option SearchCapabilities
  pub web_url : Text
  pub additional : Map Value

pub record SchemaReference : Type 0 where
  pub url : Text

pub record PricePreview : Type 0 where
  pub amount : Text
  pub currency : Text
  pub maximum : Text
  pub minimum : Text
  pub price_type : PriceType
  pub unit : Text
  pub additional : Map Value

pub record ActionRequest : Type 0 where
  pub content_type : Text
  pub schema : Option SchemaReference

pub record HttpActionTarget : Type 0 where
  pub href : Text
  pub method : Text
  pub request : Option ActionRequest
  pub response_content_types : List Text

pub record OpenApiActionTarget : Type 0 where
  pub operation_id : Text
  pub url : Text

pub record Action : Type 0 where
  pub authentication : AuthenticationRequirement
  pub description : Text
  pub http : Option HttpActionTarget
  pub id : Text
  pub openapi : Option OpenApiActionTarget
  pub rel : ActionRelation

pub record Offering : Type 0 where
  pub actions : List Action
  pub auth_expands : Bool
  pub attributes : Map Value
  pub collection_ids : List Text
  pub description : Text
  pub detail_fields : List Text
  pub id : Text
  pub images : List ResourceImage
  pub language : Text
  pub localizations : List Text
  pub name : Text
  pub odp_version : Text
  pub price : Option PricePreview
  pub schema : Option SchemaReference
  pub web_url : Text
  pub additional : Map Value

pub record InvalidParameter : Type 0 where
  pub location : Text
  pub name : Text
  pub reason : Text
  pub additional : Map Value

pub record ProblemDetails : Type 0 where
  pub code : Text
  pub detail : Text
  pub instance : Text
  pub invalid_params : List InvalidParameter
  pub status : ℕ
  pub title : Text
  pub problem_type : Text
  pub additional : Map Value
