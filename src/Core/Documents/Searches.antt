-- ===== src/Core/Documents/Searches.antt =====
-- crates/odp-core/src/models.rs: search requests, refinements and pages.
use odp_rust.Prelude.{ℕ, Bool, Option, List}
use odp_rust.Prelude.Text.{Text}
use odp_rust.Prelude.Maps.{Map}
use odp_rust.Core.Json.{Value}
use odp_rust.Core.Documents.Enums.{FilterOperator}

pub record CollectionSearchRequest : Type 0 where
  pub limit : ℕ
  pub odp_version : Text
  pub parent_id : Option (Option Text)
  pub query : Text
  pub additional : Map Value

pub record FilterExpression : Type 0 where
  pub id : Text
  pub operator : FilterOperator
  pub value : Value
  pub additional : Map Value

pub record OfferingSearchRequest : Type 0 where
  pub collection_id : Text
  pub filters : List FilterExpression
  pub include_descendants : Bool
  pub limit : ℕ
  pub odp_version : Text
  pub query : Text
  pub refinements : List Text
  pub sort : Text
  pub additional : Map Value

pub record RefinementBucket : Type 0 where
  pub count : ℕ
  pub count_relation : Text
  pub value : Value
  pub additional : Map Value

pub record RefinementGroup : Type 0 where
  pub filter_id : Text
  pub values : List RefinementBucket
  pub additional : Map Value

pub record Page (T : Type 0) : Type 0 where
  pub auth_expands : Bool
  pub items : List T
  pub next : Text
  pub odp_version : Text
  pub additional : Map Value

pub record OfferingPage (T : Type 0) : Type 0 where
  pub auth_expands : Bool
  pub items : List T
  pub next : Text
  pub odp_version : Text
  pub refinements : List RefinementGroup
  pub additional : Map Value
