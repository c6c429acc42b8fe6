-- ===== src/Agent/Operations/Home.antt =====
-- crates/odp-core/src/references.rs: the URLs that the client makes lie on the Service's origin.
use mathlib.Core.List.{append-nil}
use odp_rust.Prelude.{
  ◌≡◌, ◌⊎◌, refl, ap, subst, ◌∙◌, true, false, not, ◌||◌, Option, [], ◌++◌, ok, ◌>>◌, refuse_if,
  bind_inv, nat_eq, All-append, arith, Bool-cases, Result-cases, inl, inr,
}
use odp_rust.Prelude.Text.{Text, text, text_eq, starts_with, trim_end_matches}
use odp_rust.Core.Models.{Operation}
use odp_rust.Core.References.Url.{UrlLib}
use odp_rust.Core.References.{
  operation_path, path_of, or_default, parse_url, require_secure_url, derive_service_origin,
  resolve_resource_reference, resolve_continuation, build_operation_url, invalid_endpoint_base,
  has_user_information,
}
use odp_rust.Core.References.Paths.{operation_path_iff}
use odp_rust.Core.References.Secure.{resolve_continuation-IsOnOrigin}
use odp_rust.Agent.Operations.Urls.{
  IsPathByte, IsPlain, IsRooted, UrlLaws, IsAt, IsHome, IsServed, trim_end_matches_suffix,
  All-start, starts_with-append, path_of-IsPlain, path_of-starts,
}

resolve_resource_reference_inv :
    (url_lib : UrlLib) (reference home : Text) (u : url_lib.Url)
    → resolve_resource_reference url_lib reference home ≡ ok u
    → (starts_with (text "//") reference ≡ false)
      × (base : url_lib.Url) × (url_lib.parse home ≡ ok base)
      × (url_lib.join base reference ≡ ok u)
      × (has_user_information url_lib u ≡ false)
      × (require_secure_url url_lib u ≡ ok tt)
unfolding resolve_resource_reference parse_url
resolve_resource_reference_inv url_lib reference home u h =
    elim (Result-cases (url_lib.parse home)) [
      | inr (e, failed) ↦ absurd (ground arith)
      | inl (base, based) ↦ elim (Result-cases (url_lib.join base reference)) [
        | inr (e, failed) ↦ absurd (ground arith)
        | inl (resolved, joins) ↦ elim (Result-cases (require_secure_url url_lib resolved)) [
          | inr (e, failed) ↦ absurd (ground arith)
          | inl (done, secure) ↦
              let same : resolved ≡ u = ground arith in
              (ground arith, base, based, ground arith, ground arith, ground arith)
        ]
      ]
    ]

operation_path_inv :
    (operation : Operation) (id : Option Text) (path : Text)
    → operation_path operation id ≡ ok path
    → path ≡ path_of operation (or_default id)
unfolding operation_path
operation_path_inv operation id path h = ground arith

module _ (url_lib : UrlLib) (append_pair : url_lib.Url → Text → Text → url_lib.Url)
    (laws : UrlLaws url_lib append_pair) where
  open url_lib use {Url, parse, join, username, password, host, scheme, origin, as_str}

  -- A clean URL is on its own origin, whatever it is asked.
  clean-IsHome :
      (home : Text) (u : Url)
      → has_user_information url_lib u ≡ false
      → require_secure_url url_lib u ≡ ok tt
      → origin u ≡ home
      → IsHome url_lib home u
  unfolding derive_service_origin parse_url
  clean-IsHome home u anonymous secure on =
      rw (derive_service_origin, parse_url, laws.respelt u, anonymous, secure) (ap ok on)

  IsHome-inv :
      (home : Text) (u : Url)
      → IsHome url_lib home u
      → (has_user_information url_lib u ≡ false)
        × (require_secure_url url_lib u ≡ ok tt)
        × (origin u ≡ home)
  unfolding derive_service_origin parse_url
  IsHome-inv home u h =
      let spelt = laws.respelt u in
      elim (Bool-cases (has_user_information url_lib u)) [
        | inl user ↦ absurd (ground (arith, spelt))
        | inr anonymous ↦
            let rest : (require_secure_url url_lib u >> ok (origin u)) ≡ ok home =
              rw (derive_service_origin, parse_url, spelt, anonymous) at h in
            let (done, secure, e) =
              bind_inv (require_secure_url url_lib u) (λ _. ok (origin u)) rest in
            (anonymous, secure, cc e)
      ]

  pub derive_service_origin-IsServed :
      (value home : Text) → derive_service_origin url_lib value ≡ ok home → IsServed url_lib home
  unfolding derive_service_origin
  derive_service_origin-IsServed value home h =
      let (u, found, h1) = bind_inv (parse_url url_lib value) _ h in
      let (done, sure, h2) = bind_inv (require_secure_url url_lib u) (λ _. ok (origin u)) h1 in
      record { served = u; secure = sure; at = ground arith }

  require_secure_url_same :
      (u v : Url) → IsAt url_lib u v → require_secure_url url_lib v ≡ require_secure_url url_lib u
  unfolding require_secure_url
  require_secure_url_same u v (schemes, hosts, origins) =
      rw (require_secure_url, schemes, hosts) refl

  module _ (home : Text) (service : IsServed url_lib home) where
    -- A URL at the origin.
    pub parse-IsHome :
        (path : Text) (v : Url)
        → (path ≡ []) ⊎ IsRooted path
        → parse (home ++ path) ≡ ok v
        → IsHome url_lib home v
    parse-IsHome path v rooted h =
        let u = service.served in
        let spelt : parse (origin u ++ path) ≡ ok v = rw (service.at) h in
        let (same, anonymous, unlocked) = laws.rooted u v path service.secure rooted spelt in
        clean-IsHome home v (rw (anonymous, unlocked) refl)
          (require_secure_url_same u v same ∙ service.secure) (same.2 ∙ service.at)

    pub append_pair-IsHome :
        (u : Url) (name value : Text)
        → IsHome url_lib home u
        → IsHome url_lib home (append_pair u name value)
    append_pair-IsHome u name value h =
        let (anonymous, secure, on) = IsHome-inv home u h in
        let (same, user, lock) = laws.paired u name value in
        clean-IsHome home (append_pair u name value) (rw (user, lock) anonymous)
          (require_secure_url_same u (append_pair u name value) same ∙ secure) (same.2 ∙ on)

    resolve-IsHome :
        (reference : Text) (u : Url)
        → starts_with (text "/") reference ≡ true
        → IsPlain reference
        → resolve_resource_reference url_lib reference home ≡ ok u
        → IsHome url_lib home u
    resolve-IsHome reference u starts is_plain h =
        let (one, base, based, joins, anonymous, secure) =
          resolve_resource_reference_inv url_lib reference home u h in
        let at_base = parse-IsHome [] base (inl refl) (rw (append-nil home) based) in
        let (_, _, on) = IsHome-inv home base at_base in
        clean-IsHome home u anonymous secure
          (laws.joined base u reference (starts, one, is_plain) joins ∙ on)

    derives_itself :
        (base : Url) → parse home ≡ ok base → derive_service_origin url_lib home ≡ ok home
    unfolding derive_service_origin parse_url
    derives_itself base based =
        let at_base = parse-IsHome [] base (inl refl) (rw (append-nil home) based) in
        let (anonymous, secure, on) = IsHome-inv home base at_base in
        rw (derive_service_origin, parse_url, based, anonymous, secure) (ap ok on)

    pub resolve_continuation-IsHome :
        (next : Text) (u : Url)
        → resolve_continuation url_lib next home ≡ ok u
        → IsHome url_lib home u
    unfolding resolve_continuation
    resolve_continuation-IsHome next u h =
        let (clean, derived) = resolve_continuation-IsOnOrigin url_lib next home u h in
        let (resolved, found, h1) = bind_inv (resolve_resource_reference url_lib next home) _ h in
        let (_, base, based, joins, anonymous, secure) =
          resolve_resource_reference_inv url_lib next home resolved found in
        let itself = derives_itself base based in
        let same : resolved ≡ u = ground arith in
        let on : origin u ≡ home = cc (derived, itself) in
        clean-IsHome home u (subst (λ v. has_user_information url_lib v ≡ false) same anonymous)
          (subst (λ v. require_secure_url url_lib v ≡ ok tt) same secure) on

    pub build_operation_url-IsHome :
        (endpoint_base : Text) (operation : Operation) (id : Option Text) (u : Url)
        → IsPlain endpoint_base
        → build_operation_url url_lib endpoint_base operation home id ≡ ok u
        → IsHome url_lib home u
    unfolding build_operation_url
    build_operation_url-IsHome endpoint_base operation id u is_plain h =
        let (_, based, h1) =
          bind_inv
            (refuse_if
              (not (starts_with (text "/") endpoint_base) || starts_with (text "//") endpoint_base)
              invalid_endpoint_base)
            _ h in
        let (path, made, h2) = bind_inv (operation_path operation id) _ h1 in
        let (cut, whole) = trim_end_matches_suffix 47 endpoint_base in
        let named = operation_path_inv operation id path made in
        let takes = (operation_path_iff operation id).0 (made ∙ ap ok named) in
        let starts : starts_with (text "/") endpoint_base ≡ true = ground arith in
        let base_plain =
          All-start IsPathByte (trim_end_matches 47 endpoint_base) cut
            (subst IsPlain whole is_plain) in
        let path_plain = path_of-IsPlain operation id takes in
        resolve-IsHome (trim_end_matches 47 endpoint_base ++ path) u
          (starts_with-append (trim_end_matches 47 endpoint_base) cut path
            (subst (λ t. starts_with (text "/") t ≡ true) whole starts)
            (rw named (path_of-starts operation (or_default id))))
          (All-append IsPathByte (trim_end_matches 47 endpoint_base) path base_plain
            (rw named path_plain))
          h2
