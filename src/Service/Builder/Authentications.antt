-- ===== src/Service/Builder/Authentications.antt =====
-- crates/odp-service/src/service.rs: the authentication that a builder gives to each operation.
use odp_rust.Prelude.{
  ◌≡◌, refl, ap, sym, ◌∙◌, Bool, true, false, Option, none, some, List, [], ◌∷◌, map, ◌==◌, nat_eq,
  if◌then◌else◌, Bool-cases, Option-cases, inl, inr,
}
use odp_rust.Prelude.Text.{Text}
use odp_rust.Core.Models.{Operation, operation_eq, operation_eq_iff}
use odp_rust.Core.Documents.Enums.{AuthenticationRequirement, not_required}
use odp_rust.Core.Documents.Services.{
  OperationDescriptor, EnrollmentProtocol, PaymentProtocol, TrustProtocol, ServiceOpenApi,
  SearchCapabilities, ServiceBranding, McpEndpoint,
}
use odp_rust.Service.Builder.{
  ServiceBuilder, operation_authentication, with_branding, with_documentation_url, with_keywords,
  with_localizations, with_mcp, with_openapi, with_payment_origins, with_protocols, with_trust,
  with_search_capabilities, with_status_url, with_support_url, with_website_url, authenticate,
  authentication_of, describe, unwrap_or,
}

-- A call of a method of the builder.
pub data BuilderCall : Type 0 where
  set_branding : ServiceBranding → BuilderCall
  set_documentation_url : Text → BuilderCall
  set_keywords : List Text → BuilderCall
  set_localizations : List Text → BuilderCall
  set_mcp : List McpEndpoint → BuilderCall
  set_openapi : ServiceOpenApi → BuilderCall
  set_authentication : Operation → AuthenticationRequirement → BuilderCall
  set_payment_origins : List Text → BuilderCall
  set_protocols : List EnrollmentProtocol → List PaymentProtocol → BuilderCall
  set_trust : List TrustProtocol → BuilderCall
  set_search_capabilities : SearchCapabilities → BuilderCall
  set_status_url : Text → BuilderCall
  set_support_url : Text → BuilderCall
  set_website_url : Text → BuilderCall

abbrev pub run_call : BuilderCall → ServiceBuilder → ServiceBuilder
run_call (set_branding branding') = with_branding branding'
run_call (set_documentation_url url) = with_documentation_url url
run_call (set_keywords keywords') = with_keywords keywords'
run_call (set_localizations localizations') = with_localizations localizations'
run_call (set_mcp endpoints) = with_mcp endpoints
run_call (set_openapi openapi') = with_openapi openapi'
run_call (set_authentication operation requirement) = operation_authentication operation requirement
run_call (set_payment_origins origins) = with_payment_origins origins
run_call (set_protocols enrollment' payments') = with_protocols enrollment' payments'
run_call (set_trust trust') = with_trust trust'
run_call (set_search_capabilities capabilities) = with_search_capabilities capabilities
run_call (set_status_url url) = with_status_url url
run_call (set_support_url url) = with_support_url url
run_call (set_website_url url) = with_website_url url

-- Calls of the builder's methods, the first of them first.
unfoldable pub run_calls : List BuilderCall → ServiceBuilder → ServiceBuilder
run_calls [] builder = builder
run_calls (call ∷ calls) builder = run_calls calls (run_call call builder)

-- The authentication that a call asks for an operation.
abbrev pub asked : Operation → BuilderCall → Option AuthenticationRequirement
asked operation (set_authentication name requirement) =
    if name == operation then some requirement else none
asked operation _ = none

-- What the last call for an operation asks for.
unfoldable pub last_call : Operation → List BuilderCall → Option AuthenticationRequirement
last_call operation [] = none
last_call operation (call ∷ calls) = elim (last_call operation calls) [
  | some requirement ↦ some requirement
  | none ↦ asked operation call
]

abbrev or_before :
    Option AuthenticationRequirement
    → Option AuthenticationRequirement
    → Option AuthenticationRequirement
or_before none before = before
or_before (some requirement) before = some requirement

authentication_of-authenticate :
    (operation name : Operation) (requirement : AuthenticationRequirement)
    (descriptors : List OperationDescriptor)
    → authentication_of name (authenticate operation requirement descriptors)
      ≡ (if operation == name then some requirement else authentication_of name descriptors)
unfolding authentication_of authenticate
authentication_of-authenticate operation name requirement [] = refl
authentication_of-authenticate operation name requirement (descriptor ∷ descriptors) =
    let rest = authentication_of-authenticate operation name requirement descriptors in
    elim (Bool-cases (descriptor.name == operation)) [
      | inl same ↦
          let e : descriptor.name ≡ operation =
            (operation_eq_iff descriptor.name operation).0 same in
          elim (Bool-cases (descriptor.name == name)) [
            | inl named ↦ rw (authenticate, same, sym e, authentication_of, named) refl
            | inr unnamed ↦ rw (authenticate, same, sym e, authentication_of, unnamed) refl
          ]
      | inr other ↦ elim (Bool-cases (descriptor.name == name)) [
        | inl named ↦
            let e : descriptor.name ≡ name = (operation_eq_iff descriptor.name name).0 named in
            let unasked : (operation == name) ≡ false = elim (Bool-cases (operation == name)) [
              | inl same_name ↦
                  let e' : operation ≡ name = (operation_eq_iff operation name).0 same_name in
                  let same : (descriptor.name == operation) ≡ true =
                    (operation_eq_iff descriptor.name operation).1 (e ∙ sym e') in
                  absurd (cc (same, other))
              | inr unequal ↦ unequal
            ] in
            rw (authenticate, other, authentication_of, named, unasked) refl
        | inr unnamed ↦ rw (authenticate, other, authentication_of, unnamed) rest
      ]
    ]

or_before-call :
    (last called before : Option AuthenticationRequirement)
    → or_before (elim last [ some later ↦ some later | none ↦ called ]) before
      ≡ or_before last (or_before called before)
or_before-call (some later) called before = refl
or_before-call none called before = refl

or_before-if :
    (named : Bool) (requirement : AuthenticationRequirement)
    (before : Option AuthenticationRequirement)
    → (if named then some requirement else before)
      ≡ or_before (if named then some requirement else none) before
or_before-if true requirement before = refl
or_before-if false requirement before = refl

after_call :
    (call : BuilderCall) (builder : ServiceBuilder) (name : Operation)
    → authentication_of name (run_call call builder).document.operations
      ≡ or_before (asked name call) (authentication_of name builder.document.operations)
after_call (set_authentication operation requirement) builder name =
    authentication_of-authenticate operation name requirement builder.document.operations
    ∙ or_before-if (operation == name) requirement
        (authentication_of name builder.document.operations)
after_call (set_branding b) builder name = refl
after_call (set_documentation_url u) builder name = refl
after_call (set_keywords k) builder name = refl
after_call (set_localizations l) builder name = refl
after_call (set_mcp m) builder name = refl
after_call (set_openapi o) builder name = refl
after_call (set_payment_origins o) builder name = refl
after_call (set_protocols e p) builder name = refl
after_call (set_trust t) builder name = refl
after_call (set_search_capabilities c) builder name = refl
after_call (set_status_url u) builder name = refl
after_call (set_support_url u) builder name = refl
after_call (set_website_url u) builder name = refl

after_calls :
    (calls : List BuilderCall) (builder : ServiceBuilder) (name : Operation)
    → authentication_of name (run_calls calls builder).document.operations
      ≡ or_before (last_call name calls) (authentication_of name builder.document.operations)
unfolding run_calls last_call
after_calls [] builder name = refl
after_calls (call ∷ calls) builder name =
    after_calls calls (run_call call builder) name
    ∙ (ap (or_before (last_call name calls)) (after_call call builder name)
        ∙ sym (
            or_before-call (last_call name calls) (asked name call)
              (authentication_of name builder.document.operations)))

pub describe-run_calls :
    (calls : List BuilderCall) (builder : ServiceBuilder)
    → builder.document.operations ≡ []
    → (operations : List Operation)
    → map (describe (run_calls calls builder).document.operations) operations
      ≡ map
          (λ name. record {
            authentication = unwrap_or (last_call name calls) not_required;
            name = name;
          })
          operations
unfolding authentication_of
describe-run_calls calls builder fresh [] = refl
describe-run_calls calls builder fresh (name ∷ operations) =
    let rest = describe-run_calls calls builder fresh operations in
    let held : authentication_of name (run_calls calls builder).document.operations
        ≡ or_before (last_call name calls) none =
      after_calls calls builder name
      ∙ ap (λ ds. or_before (last_call name calls) (authentication_of name ds)) fresh in
    elim (Option-cases (last_call name calls)) [
      | inl e ↦
          rw (held, e) (ap (λ ds. record { authentication = not_required; name = name } ∷ ds) rest)
      | inr (some_requirement, e) ↦
          rw (held, e)
            (ap (λ ds. record { authentication = some_requirement; name = name } ∷ ds) rest)
    ]
