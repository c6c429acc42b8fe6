-- ===== src/Core/Documents/Services.antt =====
-- crates/odp-core/src/models.rs: the Service Document.
use odp_rust.Prelude.{Bool, Option, List}
use odp_rust.Prelude.Text.{Text}
use odp_rust.Prelude.Maps.{Map}
use odp_rust.Core.Json.{Value}
use odp_rust.Core.Models.{Operation}
use odp_rust.Core.Documents.Enums.{
  AuthenticationRequirement, Protocol, PaymentOption, FilterType, FilterOperator, SortDirection,
  MissingPlacement, ServiceBrandingImageType, McpEndpointType,
}

pub record OperationDescriptor : Type 0 where
  pub authentication : AuthenticationRequirement
  pub name : Operation

pub record EnrollmentProtocol : Type 0 where
  pub name : Protocol

pub record PaymentProtocol : Type 0 where
  pub authentication : AuthenticationRequirement
  pub name : Protocol
  pub options : List PaymentOption

pub record TrustProtocol : Type 0 where
  pub name : Protocol

pub record ServiceProtocols : Type 0 where
  pub enrollment : List EnrollmentProtocol
  pub payments : List PaymentProtocol
  pub trust : List TrustProtocol

pub record ServiceOpenApi : Type 0 where
  pub url : Text

pub record HttpConfiguration : Type 0 where
  pub endpoint_base : Text
  pub openapi : Option ServiceOpenApi
  pub additional : Map Value

pub record CapabilityLink : Type 0 where
  pub href : Text
  pub additional : Map Value

pub record FilterUnit : Type 0 where
  pub code : Text
  pub system : Text
  pub title : Text
  pub additional : Map Value

pub record FilterDefinition : Type 0 where
  pub description : Text
  pub id : Text
  pub operators : List FilterOperator
  pub refinable : Bool
  pub title : Text
  pub filter_type : FilterType
  pub unit : Option FilterUnit
  pub additional : Map Value

pub record SortKey : Type 0 where
  pub direction : SortDirection
  pub filter_id : Text
  pub missing : MissingPlacement
  pub additional : Map Value

pub record SortDefinition : Type 0 where
  pub description : Text
  pub id : Text
  pub keys : List SortKey
  pub title : Text
  pub additional : Map Value

pub record FilterCapabilitySource : Type 0 where
  pub inline : List FilterDefinition
  pub linked : Option CapabilityLink
  pub additional : Map Value

pub record SortCapabilitySource : Type 0 where
  pub inline : List SortDefinition
  pub linked : Option CapabilityLink
  pub additional : Map Value

pub record SearchCapabilities : Type 0 where
  pub filters : Option FilterCapabilitySource
  pub sorts : Option SortCapabilitySource
  pub additional : Map Value

pub record ServiceBrandingImage : Type 0 where
  pub src : Text
  pub media_type : Option ServiceBrandingImageType

pub record ServiceBranding : Type 0 where
  pub icon : ServiceBrandingImage
  pub logo : ServiceBrandingImage

pub record McpEndpoint : Type 0 where
  pub description : Text
  pub name : Text
  pub endpoint_type : McpEndpointType
  pub url : Text

pub record ServiceDocument : Type 0 where
  pub branding : Option ServiceBranding
  pub description : Text
  pub documentation_url : Text
  pub http : HttpConfiguration
  pub keywords : List Text
  pub language : Text
  pub localizations : List Text
  pub mcp : List McpEndpoint
  pub name : Text
  pub odp_version : Text
  pub operations : List OperationDescriptor
  pub payment_origins : List Text
  pub protocols : Option ServiceProtocols
  pub search_capabilities : Option SearchCapabilities
  pub status_url : Text
  pub support_url : Text
  pub website_url : Text
  pub additional : Map Value
