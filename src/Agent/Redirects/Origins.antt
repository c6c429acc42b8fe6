-- ===== src/Agent/Redirects/Origins.antt =====
-- crates/odp-agent/src/client.rs: where the loop of `request_raw` sends requests.
use odp_rust.Prelude.{
  ℕ, zero, suc, ◌+◌, ◌≡◌, ◌≤◌, refl, arith, false, ◌⊎◌, inl, inr, Option, [], Result, ok, err,
  Result-cases, Bool-cases,
}
use odp_rust.Prelude.Text.{Text, text, text_eq, text_eq_iff}
use odp_rust.Prelude.Maps.{Map}
use odp_rust.Core.References.{derive_service_origin}
use odp_rust.Core.References.Url.{UrlLib}
use odp_rust.Directory.Transport.{HttpRequest, Transport}
use odp_rust.Agent.Redirects.{
  AgentError, RawResponse, is_redirect, drops_body, pass_request, next_target, request_loop,
  request_raw, max_redirects,
}

module _ (url_lib : UrlLib) where
  open url_lib use {Url, as_str}

  abbrev pub IsOn : Text → Url → Type 0
  IsOn origin target = derive_service_origin url_lib (as_str target) ≡ ok origin

  pub next_target-IsOn :
      (target : Url) (headers : Map Text) (origin : Text) (next : Url)
      → next_target url_lib target headers origin ≡ ok next
      → IsOn origin next
  unfolding next_target
  next_target-IsOn target headers origin next h =
      elim (Result-cases (derive_service_origin url_lib (as_str next))) [
        | inl (derived, d) ↦ ground (arith, text_eq_iff derived origin)
        | inr (e, d) ↦ ground arith
      ]

  module _ {W : Type 0} (transport : Transport W) (language : Option Text) (conditional : Map Text)
      (origin : Text) (limit : ℕ) where
    -- A request that the loop may send, where it starts with one method, URL and body.
    abbrev pub IsAllowed : Text → Url → Text → HttpRequest → Type 0
    IsAllowed method start body request =
        (m : Text) × (target : Url) × (b : Text) × (request
          ≡ pass_request url_lib language m target b conditional)
        × (target ≡ start ⊎ IsOn origin target)
        × ((m ≡ method) × (b ≡ body) ⊎ (m ≡ text "GET") × (b ≡ []))

    module _ (method : Text) (start : Url) (body : Text) where
      abbrev IsReached : Text → Url → Text → Type 0
      IsReached m target b =
          (target ≡ start ⊎ IsOn origin target)
          × ((m ≡ method) × (b ≡ body) ⊎ (m ≡ text "GET") × (b ≡ []))

      -- What is returned is no redirect, and it came from the URL of the request or from its origin.
      abbrev pub IsFinal : Result AgentError RawResponse → Type 0
      IsFinal (err e) = Unit
      IsFinal (ok raw) =
          (is_redirect raw.status ≡ false)
          × (target : Url) × (raw.final_url ≡ as_str target)
          × (target ≡ start ⊎ IsOn origin target)

      -- `K n w`: in the world `w`, the loop may still send `n` requests.
      abbrev IsOutcome : (ℕ → W → Type 0) → Result AgentError RawResponse × W → Type 0
      IsOutcome K r = (n : ℕ) × K n r.1 × IsFinal r.0

      request_loop-IsOutcome :
          (K : ℕ → W → Type 0)
          (keep : (n : ℕ) (request : HttpRequest)
            → IsAllowed method start body request
            → (v : W) → K (suc n) v
            → K n (transport.send_limited request limit v).1)
          (left : ℕ) (m : Text) (target : Url) (b : Text) (w : W)
          → IsReached m target b
          → K (suc left) w
          → IsOutcome K
              (request_loop url_lib transport language left m target b conditional origin limit w)
      unfolding request_loop
      request_loop-IsOutcome K keep zero m target b w (on, same) k =
          let request = pass_request url_lib language m target b conditional in
          let k' = keep zero request (m, target, b, refl, on, same) w k in
          elim (Result-cases (transport.send_limited request limit w).0) [
            | inr (e, sent) ↦ rw (request_loop, sent) (zero, k', tt)
            | inl (response, sent) ↦ elim (Bool-cases (is_redirect response.status)) [
              | inr final ↦ rw (request_loop, sent, final) (zero, k', (final, target, refl, on))
              | inl moved ↦ rw (request_loop, sent, moved) (zero, k', tt)
            ]
          ]
      request_loop-IsOutcome K keep (suc left) m target b w (on, same) k =
          let request = pass_request url_lib language m target b conditional in
          let k' = keep (suc left) request (m, target, b, refl, on, same) w k in
          elim (Result-cases (transport.send_limited request limit w).0) [
            | inr (e, sent) ↦ rw (request_loop, sent) (suc left, k', tt)
            | inl (response, sent) ↦ elim (Bool-cases (is_redirect response.status)) [
              | inr final ↦ rw (request_loop, sent, final) (suc left, k', (final, target, refl, on))
              | inl moved ↦
                  elim (Result-cases (next_target url_lib target response.headers origin)) [
                    | inr (e, stop) ↦ rw (request_loop, sent, moved, stop) (suc left, k', tt)
                    | inl (next, go) ↦
                        let on' = next_target-IsOn target response.headers origin next go in
                        let w' = (transport.send_limited request limit w).1 in
                        elim (Bool-cases (drops_body response.status m)) [
                          | inl drops ↦
                              rw (request_loop, sent, moved, go, drops)
                                (request_loop-IsOutcome K keep left (text "GET") next [] w'
                                  (inr on', inr (refl, refl)) k')
                          | inr keeps ↦
                              rw (request_loop, sent, moved, go, keeps)
                                (request_loop-IsOutcome K keep left m next b w' (inr on', same) k')
                        ]
                  ]
            ]
          ]

      -- Whatever holds of the world and is kept by each request that goes to the given URL or to the
      -- origin, with the given method and body or as a GET without a body, holds after the request
      -- and all its redirects.
      pub request_raw-Keeps :
          (K : W → Type 0)
          (keep : (request : HttpRequest)
            → IsAllowed method start body request
            → (w : W) → K w
            → K (transport.send_limited request limit w).1)
          (w : W)
          → K w
          → K
              (request_raw url_lib transport language method start body conditional origin limit
                w).1
      unfolding request_raw
      request_raw-Keeps K keep w k =
          (request_loop-IsOutcome (λ n. K) (λ n. keep) max_redirects method start body w
            (inl refl, inl (refl, refl)) k).1

      -- A request makes the transport send at most six times.
      pub request_raw_bound :
          (count : W → ℕ)
          (step : (request : HttpRequest) (w : W)
            → count (transport.send_limited request limit w).1 ≤ suc (count w))
          (w : W)
          → count
              (request_raw url_lib transport language method start body conditional origin limit
                w).1
            ≤ count w + 6
      unfolding request_raw
      request_raw_bound count step w =
          let (n, within, final) =
            request_loop-IsOutcome (λ n v. count v + n ≤ count w + 6)
              (λ n request allowed v below. let s = step request v in omega arith) max_redirects
              method start body w (inl refl, inl (refl, refl)) (omega arith) in
          omega arith

      -- The response that a request ends with is no redirect, and its URL is the given one or one on
      -- the origin.
      pub request_raw-IsFinal :
          (w : W)
          → IsFinal
              (request_raw url_lib transport language method start body conditional origin limit
                w).0
      unfolding request_raw
      request_raw-IsFinal w =
          (request_loop-IsOutcome (λ n v. Unit) (λ n request allowed v k. tt) max_redirects method
            start body w (inl refl, inl (refl, refl)) tt).2
