-- ===== src/Agent/Operations/Asked.antt =====
-- crates/odp-agent/src/client.rs: where the requests of a client's operations go.
use odp_rust.Prelude.{
  ℕ, ◌≡◌, refl, subst, inl, inr, Option, none, [], ◌++◌, Result, ok, map_err, Result-cases,
  Bool-cases, ◌==◌, nat_eq, arith,
}
use odp_rust.Prelude.Text.{Text, text, strip_prefix}
use odp_rust.Prelude.Numbers.{decimal}
use odp_rust.Core.Models.{Operation, operation_eq, Representation}
use odp_rust.Core.References.{derive_service_origin, build_operation_url}
use odp_rust.Core.Documents.Services.{ServiceDocument}
use odp_rust.Directory.Transport.{HttpRequest}
use odp_rust.Agent.Redirects.{AgentError, invalid_request}
use odp_rust.Agent.Setup.{Response, ServiceClient}
use odp_rust.Agent.Acts.{Act, ◌>>=◌}
use odp_rust.Agent.Validators.{read_document, validate_service_document_bytes, response_validator}
use odp_rust.Agent.Operations.{
  ClientLib, Inspection, Url, request, inspection_of, inspect, require_operation, operation_url,
  with_limit, fallback_for, require_advertised, get_page_bytes, post_search, representation_text,
  max_document_bytes, max_resource_bytes,
}
use odp_rust.Agent.Operations.Calls.{continuation}
use odp_rust.Agent.Operations.Urls.{IsPlain, plain, UrlLaws, IsHome, IsServed}
use odp_rust.Agent.Operations.Home.{
  derive_service_origin-IsServed, parse-IsHome, append_pair-IsHome, resolve_continuation-IsHome,
  build_operation_url-IsHome,
}
use odp_rust.Agent.Operations.Keeps.{
  Any, Holds-ok, Ensures, Ensures-last, Ensures-ok, Ensures-after, Ensures-pure, Ensures-bind,
  request_cached-Keeps,
}

-- The calls of the url crate are as documented, the client is made for the URL of a Service, and the
-- schema of a Service document keeps the endpoint base plain.
pub record ClientLaws {W C : Type 0} (lib : ClientLib W) (client : ServiceClient W C) : Type 0 where
  pub urls : UrlLaws lib.libs.url_lib lib.append_pair
  pub service_url : Text
  pub derived : derive_service_origin lib.libs.url_lib service_url ≡ ok client.service_origin
  pub based :
      (bytes : Text) (document : ServiceDocument)
      → read_document lib.documents bytes ≡ ok document
      → IsPlain document.http.endpoint_base

module _ {W C : Type 0} (lib : ClientLib W) (client : ServiceClient W C)
    (laws : ClientLaws lib client) (K : W → Type 0)
    (keep : (request' : HttpRequest) (limit : ℕ)
      → derive_service_origin lib.libs.url_lib request'.url ≡ ok client.service_origin
      → (w : W) → K w
      → K (client.transport.send_limited request' limit w).1) where
  open lib use {libs, documents, append_pair}
  open client use {service_origin}

  service : IsServed libs.url_lib service_origin
  service =
      derive_service_origin-IsServed libs.url_lib append_pair laws.urls laws.service_url
        service_origin laws.derived

  request-Ensures :
      (method : Text) (target : Url lib client) (body : Text) (maximum fallback : ℕ)
      (validate : Text → Result AgentError (Unit {0}))
      → IsHome libs.url_lib service_origin target
      → Ensures K Any (request lib client method target body maximum fallback validate)
  unfolding request
  request-Ensures method target body maximum fallback validate on = record {
    runs = λ c w k.
        let k' =
          request_cached-Keeps libs client service_origin K keep method target body maximum fallback
            validate (lib.now w) on c w k in
        (Holds-ok Any _ (λ a done. tt), k');
  }

  abbrev IsOn : Url lib client → Type 0
  IsOn = IsHome libs.url_lib service_origin

  abbrev AsksPlain : Inspection → Type 0
  AsksPlain inspection = IsPlain inspection.document.http.endpoint_base

  pub Ensures-asks :
      {B : Type 0} (Q : B → Type 0) (method : Text) (target : Url lib client) (body : Text)
      (maximum fallback : ℕ) (validate : Text → Result AgentError (Unit {0}))
      (next : Response → Act C W B)
      → IsOn target
      → ((response : Response) → Ensures K Q (next response))
      → Ensures K Q (request lib client method target body maximum fallback validate >>= next)
  Ensures-asks Q method target body maximum fallback validate next on goes_on =
      Ensures-bind K Any Q (request lib client method target body maximum fallback validate) next
        (request-Ensures method target body maximum fallback validate on)
        (λ response any. goes_on response)

  well_known-IsOn :
      (target : Url lib client)
      → map_err invalid_request (libs.url_lib.parse (service_origin ++ text "/.well-known/odp"))
        ≡ ok target
      → IsOn target
  unfolding strip_prefix
  well_known-IsOn target found =
      parse-IsHome libs.url_lib append_pair laws.urls service_origin service
        (text "/.well-known/odp") target (inr (refl, refl, plain (text "/.well-known/odp") refl))
        (ground arith)

  pub inspect-Ensures : Ensures K AsksPlain (inspect lib client)
  unfolding inspect
  inspect-Ensures =
      let requested = service_origin ++ text "/.well-known/odp" in
      Ensures-after K AsksPlain (map_err invalid_request (libs.url_lib.parse requested)) _
        (λ target found.
          Ensures-asks AsksPlain (text "GET") target [] max_document_bytes
            client.cache_fallbacks.service_document (validate_service_document_bytes documents) _
            (well_known-IsOn target found)
            (λ response.
              Ensures-after K AsksPlain (read_document documents response.body) _ (λ document' read.
                Ensures-ok K AsksPlain (inspection_of lib client response document')
                  (laws.based response.body document' read))))

  require_operation-Ensures :
      (operation : Operation) → Ensures K AsksPlain (require_operation lib client operation)
  unfolding require_operation
  require_operation-Ensures operation =
      Ensures-bind K AsksPlain AsksPlain (inspect lib client) _ inspect-Ensures
        (λ inspection is_plain.
          Ensures-pure K AsksPlain (require_advertised lib client operation inspection) (λ found e.
            let same : inspection ≡ found = ground arith in subst AsksPlain same is_plain))

  operation_url-IsHome :
      (inspection : Inspection) (operation : Operation) (id : Option Text)
      (representation : Representation) (target : Url lib client)
      → AsksPlain inspection
      → operation_url lib client inspection operation id representation ≡ ok target
      → IsOn target
  operation_url-IsHome inspection operation id representation target is_plain h =
      elim (Result-cases (
        build_operation_url libs.url_lib inspection.document.http.endpoint_base operation
          service_origin id)) [
            | inr (e, failed) ↦ absurd (ground arith)
            | inl (built, done) ↦
                let on =
                  build_operation_url-IsHome libs.url_lib append_pair laws.urls service_origin
                    service inspection.document.http.endpoint_base operation id built is_plain
                    done in
                let same : append_pair built (text "representation")
                      (representation_text representation)
                    ≡ target =
                  ground arith in
                subst IsOn same (
                  append_pair-IsHome libs.url_lib append_pair laws.urls service_origin service built
                    (text "representation") (representation_text representation) on)
          ]

  with_limit-IsHome :
      (limit : ℕ) (target : Url lib client)
      → IsOn target
      → IsOn (with_limit lib client limit target)
  with_limit-IsHome limit target on =
      let paired =
        append_pair-IsHome libs.url_lib append_pair laws.urls service_origin service target
          (text "limit") (decimal limit) on in
      elim (Bool-cases (limit == 0)) [
        | inl none_asked ↦ rw none_asked on
        | inr asked ↦ rw asked paired
      ]

  pub get_page_bytes-Ensures :
      (operation : Operation) (id : Option Text) (representation : Representation) (limit : ℕ)
      → Ensures K Any (get_page_bytes lib client operation id representation limit)
  unfolding get_page_bytes
  get_page_bytes-Ensures operation id representation limit =
      Ensures-bind K AsksPlain Any (require_operation lib client operation) _
        (require_operation-Ensures operation)
        (λ inspection is_plain.
          Ensures-after K Any (operation_url lib client inspection operation id representation) _
            (λ target built.
              Ensures-asks Any (text "GET") (with_limit lib client limit target) []
                max_resource_bytes (fallback_for lib client operation)
                (response_validator documents operation) _
                (with_limit-IsHome limit target (
                  operation_url-IsHome inspection operation id representation target is_plain
                    built))
                (λ response. Ensures-last K (ok response.body))))

  pub post_search-Ensures :
      (operation : Operation) (body : Text) (representation : Representation)
      → Ensures K Any (post_search lib client operation body representation)
  unfolding post_search
  post_search-Ensures operation body representation =
      Ensures-bind K AsksPlain Any (require_operation lib client operation) _
        (require_operation-Ensures operation)
        (λ inspection is_plain.
          Ensures-after K Any (operation_url lib client inspection operation none representation) _
            (λ target built.
              Ensures-asks Any (text "POST") target body max_resource_bytes
                client.cache_fallbacks.search (response_validator documents operation) _
                (operation_url-IsHome inspection operation none representation target is_plain
                  built)
                (λ response. Ensures-last K (ok response.body))))

  pub continuation-IsOn :
      (next : Text) (target : Url lib client)
      → continuation lib client next ≡ ok target
      → IsOn target
  continuation-IsOn next target found =
      resolve_continuation-IsHome libs.url_lib append_pair laws.urls service_origin service next
        target (ground arith)
