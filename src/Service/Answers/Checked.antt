-- ===== src/Service/Answers/Checked.antt =====
-- crates/odp-service/src/service.rs: what a page that passes the checks of the Service has.
use odp_rust.Prelude.{
  ℕ, ◌≡◌, ◌≢◌, ◌≤◌, ◌⊎◌, refl, Bool, true, false, not, ◌&&◌, List, [], ◌∷◌, ◌++◌, ok, ◌==◌, nat_eq,
  if◌then◌else◌, ltb, length, All, arith, is_ok, is_ok_inv, Bool-cases, inl, inr,
}
use odp_rust.Prelude.Text.{Text, text_eq, text_eq_iff, is_empty}
use odp_rust.Core.Models.{Representation, terse, full, representation_eq}
use odp_rust.Core.Documents.Resources.{Offering}
use odp_rust.Core.Documents.Searches.{OfferingPage}
use odp_rust.Core.Validation.Parsing.{parse_offering}
use odp_rust.Service.Requests.{Request}
use odp_rust.Service.Answers.{
  ServiceLib, inherited_version, validate_page_envelope, validate_offering_representation,
  validate_offerings, validate_offering_page,
}

abbrev pub request_url : Request → Text
request_url request =
    if is_empty request.query then request.path else request.path ++ 63 ∷ request.query

-- No more items than were asked for, and no continuation to the request itself.
abbrev pub IsEnvelope : Text → ℕ → ℕ → Request → Type 0
IsEnvelope next items limit request =
    ((limit ≡ 0) ⊎ (items ≤ limit)) × ((next ≡ []) ⊎ (next ≢ request_url request))

-- Terse without Actions, full without detail fields.
abbrev pub IsRepresented : Representation → Offering → Type 0
IsRepresented terse value = value.actions ≡ []
IsRepresented full value = value.detail_fields ≡ []

is_empty_inv : {A : Type 0} (xs : List A) → is_empty xs ≡ true → xs ≡ []
is_empty_inv [] h = refl
is_empty_inv (x ∷ xs) h = cc

validate_page_envelope-IsEnvelope :
    (next : Text) (items limit : ℕ) (request : Request) {u : Unit {0}}
    → validate_page_envelope next items limit request ≡ ok u
    → IsEnvelope next items limit request
unfolding validate_page_envelope
validate_page_envelope-IsEnvelope next items limit request h =
    let limited : (not (limit == 0) && ltb limit items) ≡ false = ground arith in
    let apart : (not (is_empty next) && next == request_url request) ≡ false = ground arith in
    (
      elim (Bool-cases (limit == 0)) [
        | inl unlimited ↦ inl (ground arith)
        | inr given ↦ inr (ground arith)
      ],
      elim (Bool-cases (is_empty next)) [
        | inl last ↦ inl (is_empty_inv next last)
        | inr more ↦ inr (λ e. ground (arith, text_eq_iff next (request_url request)))
      ],
    )

validate_offering_representation-IsRepresented :
    (value : Offering) (representation : Representation) {u : Unit {0}}
    → validate_offering_representation value representation ≡ ok u
    → IsRepresented representation value
unfolding validate_offering_representation
validate_offering_representation-IsRepresented value terse h =
    let empty : is_empty value.actions ≡ true = ground arith in is_empty_inv value.actions empty
validate_offering_representation-IsRepresented value full h =
    let empty : is_empty value.detail_fields ≡ true = ground arith in
    is_empty_inv value.detail_fields empty

module _ (lib : ServiceLib) where
  -- What the page inherits to an Offering makes it a valid one.
  abbrev pub IsValid : Text → Offering → Type 0
  IsValid page_version value =
      (encoded : Text) × (lib.offerings.to_vec
          (record value { odp_version = inherited_version value.odp_version page_version })
        ≡ ok encoded)
      × (is_ok (parse_offering lib.json lib.offerings.decode encoded) ≡ true)

  validate_offerings-All :
      (page_version : Text) (representation : Representation) (values : List Offering)
      {u : Unit {0}}
      → validate_offerings lib page_version representation values ≡ ok u
      → All (λ value. IsValid page_version value × IsRepresented representation value) values
  unfolding validate_offerings
  validate_offerings-All page_version representation [] h = tt
  validate_offerings-All page_version representation (value ∷ values) h =
      let value' : Offering = record value {
        odp_version = inherited_version value.odp_version page_version;
      } in
      let written : is_ok (lib.offerings.to_vec value') ≡ true = ground arith in
      let (encoded, e) = is_ok_inv (lib.offerings.to_vec value') written in
      let valid : is_ok (parse_offering lib.json lib.offerings.decode encoded) ≡ true =
        ground arith in
      let represented : validate_offering_representation value representation ≡ ok tt =
        ground arith in
      let rest : validate_offerings lib page_version representation values ≡ ok tt = ground arith in
      (
        (
          (encoded, e, valid),
          validate_offering_representation-IsRepresented value representation represented,
        ),
        validate_offerings-All page_version representation values rest,
      )

  -- What passes the checks of a page of Offerings has no more items than were asked for, does not
  -- continue to the request that it answers, and holds only Offerings that are valid with the
  -- version of the page and are in the representation that was asked for.
  pub validate_offering_page_inv :
      (page : OfferingPage Offering) (search_response : Bool) (representation : Representation)
      (limit : ℕ) (request : Request)
      → validate_offering_page lib page search_response representation limit request ≡ ok tt
      → IsEnvelope page.next (length page.items) limit request
        × All
            (λ value. IsValid page.odp_version value × IsRepresented representation value)
            page.items
  unfolding validate_offering_page
  validate_offering_page_inv page search_response representation limit request h =
      let envelope : validate_page_envelope page.next (length page.items) limit request ≡ ok tt =
        ground arith in
      let items : validate_offerings lib page.odp_version representation page.items ≡ ok tt =
        ground arith in
      (
        validate_page_envelope-IsEnvelope page.next (length page.items) limit request envelope,
        validate_offerings-All page.odp_version representation page.items items,
      )
