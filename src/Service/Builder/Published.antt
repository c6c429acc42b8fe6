-- ===== src/Service/Builder/Published.antt =====
-- crates/odp-service/src/service.rs: what a Service that is built publishes.
use odp_rust.Prelude.{
  ℕ, ◌==◌, nat_eq, ◌≡◌, ◌≤◌, refl, ap, ◌∙◌, subst, true, false, none, List, [], ◌∷◌, map, ok,
  length, is_ok, is_ok_inv, Bool-cases, inl, inr, arith,
}
use mathlib.Core.List.{reverse, reverse-reverse}
use mathlib.Core.Option
use odp_rust.Prelude.Text.{
  Text, text, trim_end_matches, trim_start_matches, strip_suffix, strip_prefix,
}
use odp_rust.Core.Models.{Operation, operation_eq}
use odp_rust.Core.Documents.Enums.{not_required}
use odp_rust.Core.Documents.Services.{ServiceDocument}
use odp_rust.Core.Validation.Parsing.{version, parse_service_document}
use odp_rust.Service.Answers.{ServiceLib}
use odp_rust.Service.Catalogs.{Catalog}
use odp_rust.Service.Handler.{Service}
use odp_rust.Service.Builder.{new_service, build, published, lists_and_gets, unwrap_or, new_builder}
use odp_rust.Service.Builder.Authentications.{BuilderCall, run_calls, last_call, describe-run_calls}

-- What a builder's document becomes for a catalog of these operations and these calls.
abbrev pub asked_for : ServiceDocument → List BuilderCall → List Operation → ServiceDocument
asked_for document calls operations' = record document {
  odp_version = version;
  operations =
      map
        (λ name. record {
          authentication = unwrap_or (last_call name calls) not_required;
          name = name;
        })
        operations';
}

strip_prefix-trim_start_matches :
    (c : ℕ) (s : Text) → strip_prefix (c ∷ []) (trim_start_matches c s) ≡ none
unfolding strip_prefix trim_start_matches
strip_prefix-trim_start_matches c [] = refl
strip_prefix-trim_start_matches c (x ∷ xs) = elim (Bool-cases (x == c)) [
  | inl same ↦ rw (trim_start_matches, same) (strip_prefix-trim_start_matches c xs)
  | inr other ↦
      let turned : (c == x) ≡ false = ground arith in
      rw (trim_start_matches, other, strip_prefix, turned) refl
]

strip_suffix-trim_end_matches : (s : Text) → strip_suffix (text "/") (trim_end_matches 47 s) ≡ none
unfolding strip_suffix trim_end_matches
strip_suffix-trim_end_matches s =
    ap (λ t. Option.map reverse (strip_prefix (47 ∷ []) t))
      (reverse-reverse (trim_start_matches 47 (reverse s)))
    ∙ ap (Option.map reverse) (strip_prefix-trim_start_matches 47 (reverse s))

module _ (lib : ServiceLib) {W : Type 0} (catalog : Catalog W) where
  -- What the bytes of a document are read as, and the Service of it.
  abbrev pub IsPublished : ServiceDocument → Service W → Type 0
  IsPublished document service =
      (encoded : Text) × (written : Text) × (lists_and_gets catalog.operations ≡ true)
      × (lib.documents.to_vec document ≡ ok encoded)
      × (parse_service_document lib.json lib.documents.decode encoded ≡ ok service.document)
      × (lib.documents.to_vec service.document ≡ ok written)
      × (length written ≤ 65536)
      × (service.catalog ≡ catalog)
      × (strip_suffix (text "/") service.endpoint_base ≡ none)

  new_service-IsPublished :
      (document : ServiceDocument) (service : Service W)
      → new_service lib document catalog ≡ ok service
      → IsPublished (published document catalog.operations) service
  unfolding new_service
  new_service-IsPublished document service h =
      let listed : lists_and_gets catalog.operations ≡ true = ground arith in
      let made : is_ok (lib.documents.to_vec (published document catalog.operations)) ≡ true =
        ground arith in
      let (encoded, e) =
        is_ok_inv (lib.documents.to_vec (published document catalog.operations)) made in
      let read : is_ok (parse_service_document lib.json lib.documents.decode encoded) ≡ true =
        ground arith in
      let (parsed, p) =
        is_ok_inv (parse_service_document lib.json lib.documents.decode encoded) read in
      let again : is_ok (lib.documents.to_vec parsed) ≡ true = ground arith in
      let (written, t) = is_ok_inv (lib.documents.to_vec parsed) again in
      let short : length written ≤ 65536 = ground arith in
      let held : Service W = record {
        catalog = catalog;
        document = parsed;
        endpoint_base = trim_end_matches 47 parsed.http.endpoint_base;
      } in
      let same : held ≡ service = ground arith in
      subst (IsPublished (published document catalog.operations)) same (
        encoded,
        written,
        listed,
        e,
        p,
        t,
        short,
        refl,
        strip_suffix-trim_end_matches parsed.http.endpoint_base,
      )

  -- A Service that is built by a new builder, after any calls of its methods in any order,
  -- publishes what its document was read as from bytes in which each operation of the catalog, and
  -- no other, has the authentication that the last call for it asked for, or none; the catalog
  -- lists and gets Offerings, the document takes at most 65536 bytes and the paths stand under a
  -- base without a slash at its end.
  pub build-IsPublished :
      (name description language base : Text) (calls : List BuilderCall) (service : Service W)
      → build lib (run_calls calls (new_builder name description language base)) catalog
        ≡ ok service
      → IsPublished
          (asked_for
            (run_calls calls (new_builder name description language base)).document
            calls
            catalog.operations)
          service
  build-IsPublished name description language base calls service h =
      let fresh = new_builder name description language base in
      let held = (run_calls calls fresh).document in
      subst
        (λ operations'.
          IsPublished (record held { odp_version = version; operations = operations' }) service)
        (describe-run_calls calls fresh refl catalog.operations)
        (new_service-IsPublished held service h)
