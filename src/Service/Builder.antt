-- ===== src/Service/Builder.antt =====
-- crates/odp-service/src/service.rs: the builder of a Service, and `Service::new`.
pub mod Authentications
pub mod Published
mod Tests
use odp_rust.Prelude.{
  ℕ, Bool, true, false, not, ◌&&◌, ◌||◌, Option, none, some, List, [], ◌∷◌, ◌++◌, map, any, Result,
  ok, err, ◌>>=◌, ◌>>◌, refuse_if, map_err, ◌==◌, if◌then◌else◌, ltb, length,
}
use odp_rust.Prelude.Text.{Text, text, trim_end_matches}
use odp_rust.Core.Models.{Operation, operation_eq, list_offerings, get_offering}
use odp_rust.Core.Documents.Enums.{AuthenticationRequirement, not_required}
use odp_rust.Core.Documents.Services.{
  ServiceDocument, OperationDescriptor, EnrollmentProtocol, PaymentProtocol, TrustProtocol,
  ServiceProtocols, ServiceOpenApi, SearchCapabilities, ServiceBranding, McpEndpoint,
}
use odp_rust.Core.Validation.{parse_message}
use odp_rust.Core.Validation.Parsing.{version, parse_service_document}
use odp_rust.Service.Requests.{ServiceError, invalid_configuration}
use odp_rust.Service.Queries.{maximum_request_bytes}
use odp_rust.Service.Answers.{ServiceLib}
use odp_rust.Service.Catalogs.{Catalog}
use odp_rust.Service.Handler.{Service}

pub record ServiceBuilder : Type 0 where
  pub document : ServiceDocument

abbrev pub new_builder : Text → Text → Text → Text → ServiceBuilder
new_builder name description language endpoint_base = record {
  document = record {
    branding = none;
    description = description;
    documentation_url = [];
    http = record { endpoint_base = endpoint_base; openapi = none; additional = [] };
    keywords = [];
    language = language;
    localizations = language ∷ [];
    mcp = [];
    name = name;
    odp_version = version;
    operations = [];
    payment_origins = [];
    protocols = none;
    search_capabilities = none;
    status_url = [];
    support_url = [];
    website_url = [];
    additional = [];
  };
}

-- A method of the builder that sets a member of the document.
abbrev on_document : (ServiceDocument → ServiceDocument) → ServiceBuilder → ServiceBuilder
on_document change builder = record builder { document = change builder.document }

abbrev pub with_branding : ServiceBranding → ServiceBuilder → ServiceBuilder
with_branding branding' = on_document (λ d. record d { branding = some branding' })

abbrev pub with_documentation_url : Text → ServiceBuilder → ServiceBuilder
with_documentation_url url = on_document (λ d. record d { documentation_url = url })

abbrev pub with_keywords : List Text → ServiceBuilder → ServiceBuilder
with_keywords keywords' = on_document (λ d. record d { keywords = keywords' })

abbrev pub with_localizations : List Text → ServiceBuilder → ServiceBuilder
with_localizations localizations' = on_document (λ d. record d { localizations = localizations' })

abbrev pub with_mcp : List McpEndpoint → ServiceBuilder → ServiceBuilder
with_mcp endpoints = on_document (λ d. record d { mcp = endpoints })

abbrev pub with_openapi : ServiceOpenApi → ServiceBuilder → ServiceBuilder
with_openapi openapi' =
    on_document (λ d. record d { http = record d.http { openapi = some openapi' } })

-- The descriptor of an operation is changed in its place, or added at the end.
unfoldable pub authenticate :
    Operation → AuthenticationRequirement → List OperationDescriptor → List OperationDescriptor
authenticate operation requirement [] =
    record { authentication = requirement; name = operation } ∷ []
authenticate operation requirement (descriptor ∷ descriptors) =
    let rest = authenticate operation requirement descriptors in
    if descriptor.name == operation
    then record descriptor { authentication = requirement } ∷ descriptors
    else descriptor ∷ rest

abbrev pub operation_authentication :
    Operation → AuthenticationRequirement → ServiceBuilder → ServiceBuilder
operation_authentication operation requirement =
    on_document (λ d. record d { operations = authenticate operation requirement d.operations })

abbrev pub with_payment_origins : List Text → ServiceBuilder → ServiceBuilder
with_payment_origins origins = on_document (λ d. record d { payment_origins = origins })

abbrev pub with_protocols :
    List EnrollmentProtocol → List PaymentProtocol → ServiceBuilder → ServiceBuilder
with_protocols enrollment' payments' = on_document (λ d. record d {
  protocols = some (record { enrollment = enrollment'; payments = payments'; trust = [] });
})

abbrev no_protocols : ServiceProtocols
no_protocols = record { enrollment = []; payments = []; trust = [] }

unfoldable pub trusting : List TrustProtocol → Option ServiceProtocols → ServiceProtocols
trusting trust' none = record no_protocols { trust = trust' }
trusting trust' (some held) = record held { trust = trust' }

abbrev pub with_trust : List TrustProtocol → ServiceBuilder → ServiceBuilder
with_trust trust' = on_document (λ d. record d { protocols = some (trusting trust' d.protocols) })

abbrev pub with_search_capabilities : SearchCapabilities → ServiceBuilder → ServiceBuilder
with_search_capabilities capabilities =
    on_document (λ d. record d { search_capabilities = some capabilities })

abbrev pub with_status_url : Text → ServiceBuilder → ServiceBuilder
with_status_url url = on_document (λ d. record d { status_url = url })

abbrev pub with_support_url : Text → ServiceBuilder → ServiceBuilder
with_support_url url = on_document (λ d. record d { support_url = url })

abbrev pub with_website_url : Text → ServiceBuilder → ServiceBuilder
with_website_url url = on_document (λ d. record d { website_url = url })

unfoldable pub authentication_of :
    Operation → List OperationDescriptor → Option AuthenticationRequirement
authentication_of operation [] = none
authentication_of operation (descriptor ∷ descriptors) =
    let rest = authentication_of operation descriptors in
    if descriptor.name == operation then some descriptor.authentication else rest

abbrev pub unwrap_or {ℓ} : {A : Type ℓ} → Option A → A → A
unwrap_or found default = elim found [ none ↦ default | some a ↦ a ]

abbrev pub describe : List OperationDescriptor → Operation → OperationDescriptor
describe descriptors operation = record {
  authentication = unwrap_or (authentication_of operation descriptors) not_required;
  name = operation;
}

abbrev pub lists_and_gets : List Operation → Bool
lists_and_gets operations =
    any (λ o. o == list_offerings) operations && any (λ o. o == get_offering) operations

-- The document that `Service::new` encodes.
abbrev pub published : ServiceDocument → List Operation → ServiceDocument
published document operations' = record document {
  odp_version = version;
  operations = map (describe document.operations) operations';
}

abbrev or_misconfigured {ℓ} : {A : Type ℓ} → Result Text A → Result ServiceError A
or_misconfigured result = map_err invalid_configuration result

module _ (lib : ServiceLib) {W : Type 0} where
  unfoldable pub new_service : ServiceDocument → Catalog W → Result ServiceError (Service W)
  new_service document' catalog' = do
    refuse_if (not (lists_and_gets catalog'.operations))
        (invalid_configuration (text "Catalog must support list-offerings and get-offering"))
    encoded ← or_misconfigured (lib.documents.to_vec (published document' catalog'.operations))
    parsed ←
        map_err (λ e. invalid_configuration (parse_message e))
          (parse_service_document lib.json lib.documents.decode encoded)
    written ← or_misconfigured (lib.documents.to_vec parsed)
    refuse_if (ltb maximum_request_bytes (length written))
        (invalid_configuration (text "Service Document exceeds 65536 bytes"))
    ok (record {
      catalog = catalog';
      document = parsed;
      endpoint_base = trim_end_matches 47 parsed.http.endpoint_base;
    })

  abbrev pub build : ServiceBuilder → Catalog W → Result ServiceError (Service W)
  build builder catalog' = new_service builder.document catalog'
