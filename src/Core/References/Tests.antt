-- ===== src/Core/References/Tests.antt =====
-- Runs of references.rs over the small URL library, and its theorems at concrete references.
use odp_rust.Prelude.{◌≡◌, refl, ok, err}
use odp_rust.Prelude.Text.{text, text_beq, strip_prefix, trim_end_matches, eq_ignore_ascii_case}
use odp_rust.Core.References.Toy.{ToyUrl, toy, toy_join}
use odp_rust.Core.References.{
  operation_path, is_local_resource_identifier, parse_url, require_secure_url,
  derive_service_origin, resolve_resource_reference, resolve_continuation, build_operation_url,
  cross_origin_continuation, scheme_relative_reference,
}
use odp_rust.Core.References.Secure.{IsClean, resolve_continuation-IsOnOrigin}

-- What a run of references.rs computes with.
references : Unit {0}
unfolding toy_join parse_url require_secure_url derive_service_origin resolve_resource_reference
    resolve_continuation build_operation_url operation_path is_local_resource_identifier text_beq
    strip_prefix trim_end_matches eq_ignore_ascii_case
references = tt

abbrev next : ToyUrl
next = record { authority = text "shop.example"; spelling = text "https://shop.example/next" }

resolves : resolve_continuation toy (text "/next") (text "https://shop.example/odp") ≡ ok next
unfolding references
resolves = refl

refuses :
    (resolve_continuation toy (text "https://other.example/next") (text "https://shop.example")
      ≡ err cross_origin_continuation)
    × (resolve_continuation toy (text "//other.example/next") (text "https://shop.example")
        ≡ err scheme_relative_reference)
unfolding references
refuses = (refl, refl)

resolve_continuation-IsOnOrigin_example :
    IsClean toy next
    × (derive_service_origin toy (text "https://shop.example/odp")
        ≡ ok (text "https://shop.example"))
unfolding references
resolve_continuation-IsOnOrigin_example =
    resolve_continuation-IsOnOrigin toy (text "/next") (text "https://shop.example/odp") next refl

abbrev plant : ToyUrl
plant = record {
  authority = text "shop.example";
  spelling = text "https://shop.example/odp/offerings/plant-1";
}
