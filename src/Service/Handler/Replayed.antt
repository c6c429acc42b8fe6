-- ===== src/Service/Handler/Replayed.antt =====
-- crates/odp-service/src/service.rs: a request that is sent again with the entity tag it was given.
use odp_rust.Prelude.{
  ◌≡◌, refl, ap, sym, ◌∙◌, Bool, true, false, not, ◌&&◌, Option, some, [], ◌==◌, nat_eq, Bool-cases,
  inl, inr, arith,
}
use odp_rust.Prelude.Text.{Text, text, text_eq, text_beq}
use odp_rust.Prelude.Text.Laws.{Lacks}
use odp_rust.Prelude.Maps.{lookup, insert, lookup-insert}
use odp_rust.Core.References.{is_some_and}
use odp_rust.Service.Requests.{Request, Response}
use odp_rust.Service.Problems.{response_of}
use odp_rust.Service.Answers.{ServiceLib, matches_etag}
use odp_rust.Service.Handler.{
  Service, if_none_match, without_body, is_head, is_retrieval, as_get, handle, handle_result,
}
use odp_rust.Service.Handler.Heads.{got}
use odp_rust.Service.Handler.Conditional.{
  matches_etag_self, with_headers, handle_result-with_headers,
}

-- The request with the tag as its validator.
abbrev pub naming : Text → Request → Request
naming etag request = with_headers request (insert (text "if-none-match") etag request.headers)

abbrev etag_of : Response → Option Text
etag_of response = lookup (text "etag") response.headers

without_body-etag :
    (head : Bool) (response : Response)
    → ((without_body head response).status ≡ response.status)
      × (etag_of (without_body head response) ≡ etag_of response)
unfolding without_body text_beq
without_body-etag head response = elim (Bool-cases (head && not (response.status == 304))) [
  | inl cut ↦
      rw (without_body, cut)
        (refl, lookup-insert (text "content-length") (text "etag") _ response.headers)
  | inr whole ↦ rw (without_body, whole) (refl, refl)
]

if_none_match-kept :
    (retrieval : Bool) (conditional : Option Text) (response : Response)
    → (if_none_match retrieval conditional response).status ≡ 200
    → if_none_match retrieval conditional response ≡ response
unfolding if_none_match
if_none_match-kept retrieval conditional response h =
    let condition : Bool =
      response.status == 200
      && is_some_and (etag_of response)
          (λ etag. is_some_and conditional (λ value. matches_etag value etag)) in
    elim (Bool-cases condition) [
      | inl met ↦ absurd (ground arith)
      | inr unmet ↦ rw (if_none_match, unmet) refl
    ]

if_none_match-matched :
    (etag : Text) (response : Response)
    → Lacks 44 etag
    → response.status ≡ 200
    → etag_of response ≡ some etag
    → ((if_none_match true (some etag) response).status ≡ 304)
      × ((if_none_match true (some etag) response).body ≡ [])
unfolding if_none_match
if_none_match-matched etag response plain found tagged =
    let matched = matches_etag_self etag plain in
    let met : (response.status == 200
          && is_some_and (etag_of response)
              (λ tag. is_some_and (some etag) (λ value. matches_etag value tag)))
        ≡ true =
      ground arith in
    rw (if_none_match, met) (refl, refl)

without_body-unchanged :
    (head : Bool) (response : Response)
    → response.status ≡ 304
    → without_body head response ≡ response
unfolding without_body
without_body-unchanged head response h =
    let same : (head && not (response.status == 304)) ≡ false = ground arith in
    rw (without_body, same) refl

module _ (lib : ServiceLib) {W : Type 0} (service : Service W) (request : Request) (w : W) where
  same_outcome :
      (etag : Text)
      → handle_result lib service (as_get (naming etag request)) w
        ≡ handle_result lib service (as_get request) w
  unfolding text_beq
  same_outcome etag =
      let headers = insert (text "if-none-match") etag request.headers in
      let language =
        lookup-insert (text "if-none-match") (text "accept-language") etag request.headers in
      let content_type =
        lookup-insert (text "if-none-match") (text "content-type") etag request.headers in
      let accept = lookup-insert (text "if-none-match") (text "accept") etag request.headers in
      elim (Bool-cases (is_head request)) [
        | inl head ↦
            rw (as_get, is_head, naming, head)
              (handle_result-with_headers (got request) headers language content_type lib service
                accept w)
        | inr other ↦
            rw (as_get, is_head, naming, other)
              (handle_result-with_headers request headers language content_type lib service accept
                w)
      ]

  -- A retrieval that is answered with an entity tag is answered, when it is sent again with the tag
  -- as its validator and the catalog is as it was, by a 304 without a body, whatever the first
  -- request named; the tag has no comma.
  pub handle-naming :
      (etag : Text)
      → Lacks 44 etag
      → is_retrieval request ≡ true
      → (handle lib service request w).0.status ≡ 200
      → lookup (text "etag") (handle lib service request w).0.headers ≡ some etag
      → ((handle lib service (naming etag request) w).0.status ≡ 304)
        × ((handle lib service (naming etag request) w).0.body ≡ [])
        × ((handle lib service (naming etag request) w).1 ≡ (handle lib service request w).1)
  unfolding handle text_beq
  handle-naming etag plain retrieves answered tagged =
      let conditional = lookup (text "if-none-match") request.headers in
      let response =
        response_of lib.problem_to_vec (handle_result lib service (as_get request) w).0 in
      let judged = if_none_match (is_retrieval request) conditional response in
      let (status, tag) = without_body-etag (is_head request) judged in
      let kept =
        if_none_match-kept (is_retrieval request) conditional response (sym status ∙ answered) in
      let found : response.status ≡ 200 = sym (ap (λ r. r.status) kept) ∙ (sym status ∙ answered) in
      let etagged : etag_of response ≡ some etag = sym (ap etag_of kept) ∙ (sym tag ∙ tagged) in
      let (unchanged, emptied) = if_none_match-matched etag response plain found etagged in
      let e =
        without_body-unchanged (is_head request) (if_none_match true (some etag) response)
          unchanged in
      let same = same_outcome etag in
      let named : lookup (text "if-none-match") (naming etag request).headers ≡ some etag =
        lookup-insert (text "if-none-match") (text "if-none-match") etag request.headers in
      let head = is_head request in
      let retrieval = is_retrieval request in
      let given = lookup (text "if-none-match") (naming etag request).headers in
      let whole : (handle lib service (naming etag request) w).0
          ≡ if_none_match true (some etag) response =
        ap
          (λ o.
            without_body head (if_none_match retrieval given (response_of lib.problem_to_vec o.0)))
          same
        ∙ (ap (λ c. without_body head (if_none_match retrieval c response)) named
            ∙ (ap (λ b. without_body head (if_none_match b (some etag) response)) retrieves ∙ e)) in
      (ap (λ r. r.status) whole ∙ unchanged, ap (λ r. r.body) whole ∙ emptied, ap (λ o. o.1) same)
