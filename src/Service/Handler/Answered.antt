-- ===== src/Service/Handler/Answered.antt =====
-- crates/odp-service/src/service.rs: what a request is answered with.
pub mod Calls
use odp_rust.Prelude.{
  ◌≡◌, ◌≢◌, ◌≤◌, ◌⊎◌, refl, ap, sym, subst, ◌∙◌, Bool, true, false, not, ◌&&◌, ◌||◌, Option, none,
  some, List, [], ◌∷◌, Result, ok, err, ◌>>=◌, ◌>>◌, refuse_if, is_ok, is_ok_inv, ◌==◌, nat_eq,
  if◌then◌else◌, length, Bool-cases, Option-cases, Result-cases, inl, inr, arith, ℕ, ltb,
}
use odp_rust.Prelude.Text.{Text, text, text_eq, text_beq, strip_prefix, strip_suffix, is_empty}
use odp_rust.Prelude.Maps.{Map, lookup, insert, lookup-insert}
use odp_rust.Core.Json.{Value}
use odp_rust.Core.Documents.Resources.{Collection, Offering}
use odp_rust.Core.References.{is_local_resource_identifier}
use odp_rust.Core.Documents.Searches.{Page, OfferingPage}
use odp_rust.Core.Validation.Depth.{validate_json_depth}
use odp_rust.Service.Requests.{Request, Response, CatalogRequest, ServiceError, invalid_response}
use odp_rust.Service.Problems.{problem, method_not_allowed}
use odp_rust.Core.References.{is_some_and}
use odp_rust.Core.Validation.Filters.{is_none_or}
use odp_rust.Service.Routing.{path_operation, allowed_methods, is_reserved}
use odp_rust.Service.Queries.{
  catalog_request, decode_offering_search, decode_collection_search, maximum_request_bytes,
}
use odp_rust.Service.Negotiation.{select_language, accepts_odp}
use odp_rust.Service.Catalogs.{Call, and_then}
use odp_rust.Core.Validation.Parsing.{parse_offering, parse_collection}
use odp_rust.Service.Answers.{
  validate_offering_representation, validate_collection_representation, ServiceLib,
  maximum_resource_bytes, validate_offering_page, validate_collection_page, json_response,
  represent, entity_tag, or_invalid, or_refused, versioned, depth_for,
}
use odp_rust.Service.Handler.{
  Service, is_supported, offering_page_answer, collection_page_answer, offering_answer,
  collection_answer, get_under_collections, get_path, search_offerings_answer,
  search_collections_answer, continue_search, dispatch, defaulted, handle_path, handle_as,
  handle_result,
}

module _ (lib : ServiceLib) where
  -- With status 200, within the limit on a resource, and under the tag of its bytes and some
  -- language.
  abbrev pub IsRepresentation : Response → Type 0
  IsRepresentation response =
      (response.status ≡ 200)
      × (length response.body ≤ 524288)
      × (language : Text) × (lookup (text "etag") response.headers
          ≡ some (entity_tag lib.sha256 response.body language))

  -- The problem document of a failure, which is no success.
  abbrev pub IsProblem : Response → Type 0
  IsProblem response =
      (status : ℕ) × (code : Text) × (detail : Text) × (status ≢ 200)
      × (response ≡ problem lib.problem_to_vec status code detail)

  -- The refusal of a method, with the methods that are allowed.
  abbrev pub IsRefusal : Response → Type 0
  IsRefusal response = (allow : Text) × (response ≡ method_not_allowed lib.problem_to_vec allow)

  abbrev pub IsAnswer : Response → Type 0
  IsAnswer response = IsProblem response ⊎ (IsRefusal response ⊎ IsRepresentation response)

  json_response_bound :
      (value : Result Text Value) (maximum : ℕ) (response : Response)
      → json_response lib.value_to_vec 200 value maximum ≡ ok response
      → length response.body ≤ maximum
  unfolding json_response
  json_response_bound value maximum response h = ground arith

  json_response_status :
      (value : Result Text Value) (maximum : ℕ) (response : Response)
      → json_response lib.value_to_vec 200 value maximum ≡ ok response
      → response.status ≡ 200
  unfolding json_response
  json_response_status value maximum response h = ground arith

  pub represent-IsAnswer :
      (value : Result Text Value) (maximum : ℕ) (language : Text) (response : Response)
      → maximum ≤ 524288
      → represent lib 200 value maximum language ≡ ok response
      → IsAnswer response
  unfolding represent text_beq
  represent-IsAnswer value maximum language response low h =
      elim (Result-cases (json_response lib.value_to_vec 200 value maximum)) [
        | inr (error, failed) ↦ absurd (ground arith)
        | inl (plain, e) ↦
            let size = json_response_bound value maximum plain e in
            let described : Map Text =
              if not (is_empty language)
              then insert (text "vary") (text "Accept-Language")
                  (insert (text "content-language") language plain.headers)
              else plain.headers in
            let tag = entity_tag lib.sha256 plain.body language in
            let made : Response = record plain { headers = insert (text "etag") tag described } in
            let same : made ≡ response = ground arith in
            let made_status : made.status ≡ 200 = json_response_status value maximum plain e in
            subst IsAnswer same (
              inr (
                inr (
                  made_status,
                  omega (arith, size),
                  language,
                  lookup-insert (text "etag") (text "etag") tag described,
                )))
      ]

  abbrev pub AllAnswer : Result ServiceError Response → Type 0
  AllAnswer result = (response : Response) → result ≡ ok response → IsAnswer response

  pub bind-AllAnswer :
      {A : Type 0} (step : Result ServiceError A) (next : A → Result ServiceError Response)
      → ((a : A) → AllAnswer (next a))
      → AllAnswer (step >>= next)
  bind-AllAnswer (ok a) next h = h a
  bind-AllAnswer (err e) next h = λ response e'. cc

  -- An answer after the checks of a resource.
  checked-AllAnswer :
      {A B C : Type 0} (named : Result ServiceError A) (encoded : Result ServiceError B)
      (parsed : B → Result ServiceError C) (represented : Result ServiceError A)
      (answer : Result ServiceError Response)
      → AllAnswer answer
      → AllAnswer
          (named >>= (λ a. encoded >>= (λ b. parsed b >>= (λ c. represented >>= (λ d. answer)))))
  checked-AllAnswer named encoded parsed represented answer h =
      bind-AllAnswer named
        (λ a. encoded >>= (λ b. parsed b >>= (λ c. represented >>= (λ d. answer))))
        (λ a.
          bind-AllAnswer encoded (λ b. parsed b >>= (λ c. represented >>= (λ d. answer)))
            (λ b.
              bind-AllAnswer (parsed b) (λ c. represented >>= (λ d. answer))
                (λ c. bind-AllAnswer represented (λ d. answer) (λ d. h))))

  pub problem-AllAnswer :
      (status : ℕ) (code detail : Text)
      → status ≢ 200
      → AllAnswer (ok (problem lib.problem_to_vec status code detail))
  problem-AllAnswer status code detail other response e =
      let same : problem lib.problem_to_vec status code detail ≡ response = cc e in
      inl (status, code, detail, other, sym same)

  module _ {W : Type 0} (service : Service W) where
    -- Whatever the catalog does, an answer of a call is one.
    abbrev pub AnswersCall : Result ServiceError Response × W → Type 0
    AnswersCall answer = AllAnswer answer.0

    represented :
        (value : Result Text Value) (language : Text)
        → AllAnswer (represent lib 200 value maximum_resource_bytes language)
    represented value language response =
        represent-IsAnswer value maximum_resource_bytes language response (omega arith)

    pub offering_page_answer-AllAnswer :
        (search_response : Bool) (input : CatalogRequest) (limit : ℕ) (request : Request)
        (language : Text) (page : OfferingPage Offering)
        → AllAnswer
            (offering_page_answer lib service search_response input limit request language page)
    offering_page_answer-AllAnswer search_response input limit request language page =
        bind-AllAnswer
          (validate_offering_page lib page search_response input.representation limit request)
          (λ u.
            represent lib 200 (lib.offering_pages.to_value page) maximum_resource_bytes language)
          (λ u. represented (lib.offering_pages.to_value page) language)

    pub collection_page_answer-AllAnswer :
        (input : CatalogRequest) (limit : ℕ) (request : Request) (language : Text)
        (page : Page Collection)
        → AllAnswer (collection_page_answer lib service input limit request language page)
    collection_page_answer-AllAnswer input limit request language page =
        bind-AllAnswer (validate_collection_page lib page input.representation limit request)
          (λ u.
            represent lib 200 (lib.collection_pages.to_value page) maximum_resource_bytes language)
          (λ u. represented (lib.collection_pages.to_value page) language)

    offering_answer-AllAnswer :
        (id : Text) (input : CatalogRequest) (language : Text) (found : Option Offering)
        → AllAnswer (offering_answer lib service id input language found)
    unfolding offering_answer
    offering_answer-AllAnswer id input language none =
        problem-AllAnswer 404 (text "NOT_FOUND") (text "Offering not found")
          (λ h. absurd (omega (arith, h)))
    offering_answer-AllAnswer id input language (some value) =
        checked-AllAnswer
          (refuse_if (not (value.id == id))
            (invalid_response (text "Offering identifier does not match request path")))
          (or_invalid (lib.offerings.to_vec value))
          (λ encoded. or_refused (parse_offering lib.json lib.offerings.decode encoded))
          (validate_offering_representation value input.representation)
          (represent lib 200 (lib.offerings.to_value value) maximum_resource_bytes language)
          (represented (lib.offerings.to_value value) language)

    collection_answer-AllAnswer :
        (id : Text) (input : CatalogRequest) (language : Text) (found : Option Collection)
        → AllAnswer (collection_answer lib service id input language found)
    unfolding collection_answer
    collection_answer-AllAnswer id input language none =
        problem-AllAnswer 404 (text "NOT_FOUND") (text "Collection not found")
          (λ h. absurd (omega (arith, h)))
    collection_answer-AllAnswer id input language (some value) =
        checked-AllAnswer
          (refuse_if (not (value.id == id))
            (invalid_response (text "Collection identifier does not match request path")))
          (or_invalid (lib.collections.to_vec value))
          (λ encoded. or_refused (parse_collection lib.json lib.collections.decode encoded))
          (validate_collection_representation value input.representation)
          (represent lib 200 (lib.collections.to_value value) maximum_resource_bytes language)
          (represented (lib.collections.to_value value) language)

    pub if-AnswersCall :
        (b : Bool) (x y : Result ServiceError Response × W)
        → AnswersCall x
        → AnswersCall y
        → AnswersCall (if b then x else y)
    if-AnswersCall true x y p q = p
    if-AnswersCall false x y p q = q

    pub option-AnswersCall :
        {A : Type 0} (o : Option A) (n : Result ServiceError Response × W)
        (s : A → Result ServiceError Response × W)
        → AnswersCall n
        → ((a : A) → AnswersCall (s a))
        → AnswersCall (elim o [ none ↦ n | some a ↦ s a ])
    option-AnswersCall none n s p q = p
    option-AnswersCall (some a) n s p q = q a

    pub result-AnswersCall :
        {A : Type 0} (r : Result ServiceError A) (s : A → Result ServiceError Response × W) (w : W)
        → ((a : A) → AnswersCall (s a))
        → AnswersCall (elim r [ err e ↦ (err e, w) | ok a ↦ s a ])
    result-AnswersCall (err e) s w q = λ response h. cc
    result-AnswersCall (ok a) s w q = q a

    get_under_collections-AnswersCall :
        (value : Text) (input : CatalogRequest) (request : Request) (language : Text) (w : W)
        → AnswersCall (get_under_collections lib service value input request language w)
    unfolding get_under_collections
    get_under_collections-AnswersCall value input request language w =
        option-AnswersCall (strip_suffix (text "/offerings") value) _ _
          (if-AnswersCall (not (is_local_resource_identifier value)) _ _
            (problem-AllAnswer 400 (text "INVALID_REQUEST")
              (text "Collection identifier is invalid") (λ h. absurd (omega (arith, h))))
            (bind-AllAnswer (service.catalog.get_collection value input w).0
              (collection_answer lib service value input language)
              (collection_answer-AllAnswer value input language)))
          (λ id.
            if-AnswersCall (not (is_local_resource_identifier id)) _ _
              (problem-AllAnswer 400 (text "INVALID_REQUEST")
                (text "Collection identifier is invalid") (λ h. absurd (omega (arith, h))))
              (bind-AllAnswer (service.catalog.list_collection_offerings id input w).0
                (offering_page_answer lib service false input input.limit request language)
                (offering_page_answer-AllAnswer false input input.limit request language)))

    pub get_path-AnswersCall :
        (path : Text) (input : CatalogRequest) (request : Request) (language : Text) (w : W)
        → AnswersCall (get_path lib service path input request language w)
    unfolding get_path
    get_path-AnswersCall path input request language w =
        option-AnswersCall (strip_prefix (text "/offerings/") path) _ _
          (option-AnswersCall (strip_prefix (text "/collections/") path) _ _
            (problem-AllAnswer 404 (text "NOT_FOUND") (text "ODP resource not found")
              (λ h. absurd (omega (arith, h))))
            (λ value. get_under_collections-AnswersCall value input request language w))
          (λ id.
            if-AnswersCall (not (is_local_resource_identifier id)) _ _
              (problem-AllAnswer 400 (text "INVALID_REQUEST")
                (text "Offering identifier is invalid") (λ h. absurd (omega (arith, h))))
              (bind-AllAnswer (service.catalog.get_offering id input w).0
                (offering_answer lib service id input language)
                (offering_answer-AllAnswer id input language)))
