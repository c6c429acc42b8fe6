-- ===== src/Core/References/Secure.antt =====
-- What the resolved references of references.rs guarantee.
use odp_rust.Prelude.{
  ◌≡◌, ◌⊎◌, true, false, not, ◌||◌, Option, none, some, [], ◌++◌, ok, refuse_if, ok_or, arith,
  bind_inv, ok_or-eq-ok,
}
use odp_rust.Prelude.Text.{Text, text, text_eq, text_eq_iff, starts_with, trim_end_matches}
use odp_rust.Core.Models.{Operation}
use odp_rust.Core.References.Url.{Host, UrlLib}
use odp_rust.Core.References.{
  invalid_endpoint_base, missing_host, is_loopback_host, require_secure_url, derive_service_origin,
  resolve_resource_reference, resolve_continuation, build_operation_url, operation_path,
}

module _ (lib : UrlLib) where
  open lib use {Url, username, password, fragment, host, scheme, origin}

  -- HTTPS, or HTTP to a loopback host.
  pub record IsSecure (url : Url) : Type 0 where
    pub at : Host
    pub named : host url ≡ some at
    pub channel :
        (scheme url ≡ text "https")
        ⊎ ((scheme url ≡ text "http") × (is_loopback_host lib at ≡ true))

  pub record IsClean (url : Url) : Type 0 where
    pub no_user : username url ≡ []
    pub no_password : password url ≡ none
    pub no_fragment : fragment url ≡ none
    pub secure : IsSecure url

  require_secure_url-IsSecure :
      (url : Url) {u : Unit {0}} → require_secure_url lib url ≡ ok u → IsSecure url
  unfolding require_secure_url
  require_secure_url-IsSecure url h =
      let (found, named, rest) = bind_inv (ok_or (host url) missing_host) _ h in
      record {
        at = found;
        named = ok_or-eq-ok (host url) missing_host named;
        channel = ground (
          arith,
          text_eq_iff (scheme url) (text "https"),
          text_eq_iff (scheme url) (text "http"),
        );
      }

  -- A resolved reference has no credentials and no fragment, and is HTTPS or on a loopback host.
  pub resolve_resource_reference-IsClean :
      (reference service_origin : Text) (url : Url)
      → resolve_resource_reference lib reference service_origin ≡ ok url
      → IsClean url
  unfolding resolve_resource_reference
  resolve_resource_reference-IsClean reference service_origin url h = record {
    no_user = ground arith;
    no_password = ground arith;
    no_fragment = ground arith;
    secure = require_secure_url-IsSecure url {u = tt} (ground arith);
  }

  -- A resolved continuation has no credentials and no fragment, is HTTPS or on a loopback host, and
  -- stays on the origin that is derived from the Service's URL.
  pub resolve_continuation-IsOnOrigin :
      (reference service_origin : Text) (url : Url)
      → resolve_continuation lib reference service_origin ≡ ok url
      → IsClean url × (derive_service_origin lib service_origin ≡ ok (origin url))
  unfolding resolve_continuation
  resolve_continuation-IsOnOrigin reference service_origin url h =
      let (resolved, found, h1) =
        bind_inv (resolve_resource_reference lib reference service_origin) _ h in
      let (expected, derived, h2) = bind_inv (derive_service_origin lib service_origin) _ h1 in
      (
        resolve_resource_reference-IsClean reference service_origin url (ground arith),
        ground (arith, text_eq_iff (origin resolved) expected),
      )

  -- The URL of an operation has no credentials and no fragment, and is HTTPS or on a loopback host;
  -- its endpoint base begins with one slash, and its path is the operation's.
  pub build_operation_url-IsClean :
      (endpoint_base : Text) (operation : Operation) (service_origin : Text) (id : Option Text)
      (url : Url)
      → build_operation_url lib endpoint_base operation service_origin id ≡ ok url
      → IsClean url
        × (starts_with (text "/") endpoint_base ≡ true)
        × (starts_with (text "//") endpoint_base ≡ false)
        × ((path : Text) × (operation_path operation id ≡ ok path))
  unfolding build_operation_url
  build_operation_url-IsClean endpoint_base operation service_origin id url h =
      let (_, based, h1) =
        bind_inv
          (refuse_if
            (not (starts_with (text "/") endpoint_base) || starts_with (text "//") endpoint_base)
            invalid_endpoint_base)
          _ h in
      let (path, made, h2) = bind_inv (operation_path operation id) _ h1 in
      (
        resolve_resource_reference-IsClean (trim_end_matches 47 endpoint_base ++ path)
            service_origin url h2,
        ground arith,
        ground arith,
        (path, made),
      )
