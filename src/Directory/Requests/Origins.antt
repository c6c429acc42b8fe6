-- ===== src/Directory/Requests/Origins.antt =====
-- crates/odp-directory/src/client.rs: where a request of a Directory client goes, and what it returns.
use odp_rust.Prelude.{
  ℕ, zero, suc, ◌≡◌, ◌≤◌, ◌<◌, ◌∙◌, refl, subst, [], true, ◌&&◌, ◌||◌, Result, ok, err,
  Result-cases, Bool-cases, inl, inr, arith, length, ◌==◌, nat_eq,
}
use odp_rust.Prelude.Text.{Text, text, text_eq, text_eq_iff, eq_ignore_ascii_case}
use odp_rust.Prelude.Maps.{Map}
use odp_rust.Core.References.Url.{UrlLib}
use odp_rust.Directory.Transport.{HttpRequest, HttpResponse, Transport}
use odp_rust.Directory.Client.{DirectoryError}
use odp_rust.Directory.Requests.{
  moves, media_type_of, json_type, maximum_response_bytes, consume_response, directory_request,
  redirected, request_left, request, maximum_redirects,
}

-- A response of success, within the limit, of the media type of JSON.
abbrev pub IsAccepted : Result DirectoryError HttpResponse → Type 0
IsAccepted (err e) = Unit
IsAccepted (ok response) =
    (200 ≤ response.status)
    × (response.status < 300)
    × (length response.body ≤ maximum_response_bytes)
    × (eq_ignore_ascii_case (media_type_of response.headers) json_type ≡ true)

module _ (failure_message : HttpResponse → Text) where
  accepted_inv :
      (response answer : HttpResponse)
      → consume_response failure_message response ≡ ok answer
      → (200 ≤ answer.status)
        × (answer.status < 300)
        × (length answer.body ≤ maximum_response_bytes)
        × (eq_ignore_ascii_case (media_type_of answer.headers) json_type ≡ true)
  unfolding consume_response
  accepted_inv response answer h =
      let same : response ≡ answer = ground arith in
      subst
        (λ r.
          (200 ≤ r.status)
          × (r.status < 300)
          × (length r.body ≤ maximum_response_bytes)
          × (eq_ignore_ascii_case (media_type_of r.headers) json_type ≡ true))
        same (ground arith, ground arith, ground arith, ground arith)

  consume_response-IsAccepted :
      (response : HttpResponse) → IsAccepted (consume_response failure_message response)
  consume_response-IsAccepted response =
      elim (Result-cases (consume_response failure_message response)) [
        | inr (e, refused) ↦ rw refused tt
        | inl (answer, accepted) ↦ rw accepted (accepted_inv response answer accepted)
      ]

module _ (url_lib : UrlLib) where
  open url_lib use {Url, origin}

  origin-redirected :
      (target : Url) (headers : Map Text) (next : Url)
      → redirected url_lib target headers ≡ ok next
      → origin next ≡ origin target
  unfolding redirected
  origin-redirected target headers next h =
      ground (arith, text_eq_iff (origin next) (origin target))

  module _ (failure_message : HttpResponse → Text) {W : Type 0} (transport : Transport W)
      (start : Url) where
    -- A request that goes to the origin of the one that was asked for.
    abbrev pub GoesHome : HttpRequest → Type 0
    GoesHome sent =
        (method : Text) × (target : Url) × (body : Text) × (sent
          ≡ directory_request url_lib method target body)
        × (origin target ≡ origin start)

    module _ (K : W → Type 0)
        (keep : (sent : HttpRequest)
          → GoesHome sent
          → (w : W) → K w
          → K (transport.send sent w).1) where
      abbrev IsOutcome : Result DirectoryError HttpResponse × W → Type 0
      IsOutcome outcome = K outcome.1 × IsAccepted outcome.0

      request_left-IsOutcome :
          (left : ℕ) (method : Text) (target : Url) (body : Text) (w : W)
          → origin target ≡ origin start
          → K w
          → IsOutcome (request_left url_lib failure_message transport left method target body w)
      unfolding request_left
      request_left-IsOutcome zero method target body w home k =
          let sent = directory_request url_lib method target body in
          let k' = keep sent (method, target, body, refl, home) w k in
          elim (Result-cases (transport.send sent w).0) [
            | inr (e, failed) ↦ rw (request_left, failed) (k', tt)
            | inl (response, answered) ↦ elim (Bool-cases (moves response.status)) [
              | inr final ↦
                  rw (request_left, answered, final)
                    (k', consume_response-IsAccepted failure_message response)
              | inl moved ↦ rw (request_left, answered, moved) (k', tt)
            ]
          ]
      request_left-IsOutcome (suc left) method target body w home k =
          let sent = directory_request url_lib method target body in
          let k' = keep sent (method, target, body, refl, home) w k in
          let w' = (transport.send sent w).1 in
          elim (Result-cases (transport.send sent w).0) [
            | inr (e, failed) ↦ rw (request_left, failed) (k', tt)
            | inl (response, answered) ↦ elim (Bool-cases (moves response.status)) [
              | inr final ↦
                  rw (request_left, answered, final)
                    (k', consume_response-IsAccepted failure_message response)
              | inl moved ↦ elim (Result-cases (redirected url_lib target response.headers)) [
                | inr (e, stop) ↦ rw (request_left, answered, moved, stop) (k', tt)
                | inl (next, go) ↦
                    let home' = origin-redirected target response.headers next go ∙ home in
                    elim (Bool-cases (
                      response.status == 303
                      || ((response.status == 301 || response.status == 302)
                          && method == text "POST"))) [
                            | inl drops ↦
                                rw (request_left, answered, moved, go, drops)
                                  (request_left-IsOutcome left (text "GET") next [] w' home' k')
                            | inr keeps ↦
                                rw (request_left, answered, moved, go, keeps)
                                  (request_left-IsOutcome left method next body w' home' k')
                          ]
              ]
            ]
          ]

      -- Whatever holds of the world and is kept by each send to the origin of a request holds after
      -- the request and all its redirects; what it returns is of success, within 524288 bytes and of
      -- the media type of JSON.
      pub request-IsAccepted :
          (method body : Text) (w : W)
          → K w
          → K (request url_lib failure_message transport method start body w).1
            × IsAccepted (request url_lib failure_message transport method start body w).0
      unfolding request
      request-IsAccepted method body w k =
          request_left-IsOutcome maximum_redirects method start body w refl k
