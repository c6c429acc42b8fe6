-- ===== src/Agent/Supporting/Fetched.antt =====
-- crates/odp-agent/src/client.rs: where a supporting document is asked for, and what is accepted.
use odp_rust.Prelude.{
  ℕ, zero, suc, ◌≡◌, refl, ◌∙◌, arith, false, not, ◌&&◌, Option, none, some, [], Result, ok,
  map_err, Result-cases, Option-cases, Bool-cases, bind_inv, ok_or, subst, ◌==◌, nat_eq, inl, inr,
}
use odp_rust.Prelude.Text.{Text, text, text_eq, text_eq_iff}
use odp_rust.Prelude.Maps.{Map, lookup}
use odp_rust.Core.Json.{Value}
use odp_rust.Directory.Transport.{HttpRequest}
use odp_rust.Agent.Cache.{CacheRecord}
use odp_rust.Agent.Redirects.{invalid_response, is_redirect, max_redirects}
use odp_rust.Agent.Setup.{Libs, ServiceClient}
use odp_rust.Agent.Fetching.{usable}
use odp_rust.Agent.Linked.{
  Wanted, Url, has_credentials, require_https, resumed, supporting_request, next_supporting,
}
use odp_rust.Agent.Supporting.{supporting_key, supporting_loop, supporting_resource}

module _ (libs : Libs) (from_slice : Text → Result Text Value) where
  -- A request for the target: a GET without a body at the target's origin, without credentials.
  pub record IsForTarget (target : Url libs from_slice) (request : HttpRequest) : Type 0 where
    pub current : Url libs from_slice
    pub url : request.url ≡ libs.url_lib.as_str current
    pub origin : libs.url_lib.origin current ≡ libs.url_lib.origin target
    pub anonymous : has_credentials libs from_slice current ≡ false
    pub method : request.method ≡ text "GET"
    pub body : request.body ≡ []

  abbrev IsNear : Url libs from_slice → Url libs from_slice → Type 0
  IsNear target current =
      (libs.url_lib.origin current ≡ libs.url_lib.origin target)
      × (has_credentials libs from_slice current ≡ false)

  next_supporting-IsNear :
      (target current next : Url libs from_slice) (headers : Map Text)
      → IsNear target current
      → next_supporting libs from_slice current headers ≡ ok next
      → IsNear target next
  unfolding next_supporting
  next_supporting-IsNear target current next headers (same, anonymous) h =
      let (location, _, h1) = bind_inv (ok_or (lookup (text "location") headers) _) _ h in
      let (found, joined, h2) =
        bind_inv (map_err invalid_response (libs.url_lib.join current location)) _ h1 in
      let (onward, unnamed, e) : (libs.url_lib.origin found ≡ libs.url_lib.origin current)
          × (has_credentials libs from_slice found ≡ false)
          × (found ≡ next) =
        ground (arith, text_eq_iff (libs.url_lib.origin found) (libs.url_lib.origin current)) in
      subst (IsNear target) e (onward ∙ same, unnamed)

  resumed-IsNear :
      (target : Url libs from_slice) (cached : Option CacheRecord)
      → has_credentials libs from_slice target ≡ false
      → IsNear target (resumed libs from_slice target cached)
  unfolding resumed
  resumed-IsNear target none anonymous = (refl, anonymous)
  resumed-IsNear target (some r) anonymous = elim (Result-cases (libs.url_lib.parse r.final_url)) [
    | inr (e, failed) ↦ rw (resumed, failed) (refl, anonymous)
    | inl (final, parsed) ↦
        elim (Bool-cases (
          libs.url_lib.origin final == libs.url_lib.origin target
          && not (has_credentials libs from_slice final))) [
            | inr other ↦ rw (resumed, parsed, other) (refl, anonymous)
            | inl near ↦
                rw (resumed, parsed, near)
                  (ground
                    (arith, text_eq_iff (libs.url_lib.origin final) (libs.url_lib.origin target)))
          ]
  ]

  require_https_inv :
      (url : Url libs from_slice) {u : Unit {0}}
      → require_https libs from_slice url ≡ ok u
      → (libs.url_lib.scheme url ≡ text "https") × (has_credentials libs from_slice url ≡ false)
  unfolding require_https
  require_https_inv url h = ground (arith, text_eq_iff (libs.url_lib.scheme url) (text "https"))

  module _ {W C : Type 0} (client : ServiceClient W C) (wanted : Wanted) where
    open client use {supporting_transport}

    -- `K n w`: in the world `w`, the loop may still send `n` requests.
    module _ (target : Url libs from_slice) (K : ℕ → W → Type 0)
        (keep : (n : ℕ) (request : HttpRequest)
          → IsForTarget target request
          → (w : W) → K (suc n) w
          → K n (supporting_transport.send_limited request wanted.maximum_bytes w).1) where
      supporting_loop-Keeps :
          (left : ℕ) (key : Text) (cached : Option CacheRecord) (now : ℕ)
          (current : Url libs from_slice) (c : C) (w : W)
          → IsNear target current
          → K (suc left) w
          → (n : ℕ) × K n
              (supporting_loop libs from_slice client left key wanted cached now current c w).2
      unfolding supporting_loop supporting_request
      supporting_loop-Keeps zero key cached now current c w near k =
          let request = supporting_request libs from_slice wanted.accept cached current in
          let k' =
            keep zero request
              (record {
                current = current;
                url = refl;
                origin = near.0;
                anonymous = near.1;
                method = refl;
                body = refl;
              })
              w k in
          elim (Result-cases (supporting_transport.send_limited request wanted.maximum_bytes w).0) [
            | inr (e, sent) ↦ rw (supporting_loop, sent) (zero, k')
            | inl (response, sent) ↦ elim (Bool-cases (is_redirect response.status)) [
              | inr final ↦ rw (supporting_loop, sent, final) (zero, k')
              | inl moved ↦ rw (supporting_loop, sent, moved) (zero, k')
            ]
          ]
      supporting_loop-Keeps (suc left) key cached now current c w near k =
          let request = supporting_request libs from_slice wanted.accept cached current in
          let w' = (supporting_transport.send_limited request wanted.maximum_bytes w).1 in
          let k' =
            keep (suc left) request
              (record {
                current = current;
                url = refl;
                origin = near.0;
                anonymous = near.1;
                method = refl;
                body = refl;
              })
              w k in
          elim (Result-cases (supporting_transport.send_limited request wanted.maximum_bytes w).0) [
            | inr (e, sent) ↦ rw (supporting_loop, sent) (suc left, k')
            | inl (response, sent) ↦ elim (Bool-cases (is_redirect response.status)) [
              | inr final ↦ rw (supporting_loop, sent, final) (suc left, k')
              | inl moved ↦
                  elim (Result-cases (next_supporting libs from_slice current response.headers)) [
                    | inr (e, stop) ↦ rw (supporting_loop, sent, moved, stop) (suc left, k')
                    | inl (next, go) ↦
                        rw (supporting_loop, sent, moved, go)
                          (supporting_loop-Keeps left key cached now next c w'
                            (next_supporting-IsNear target current next response.headers near go)
                            k')
                  ]
            ]
          ]

    -- A supporting document is asked for only where its URL is one of HTTPS, and then at that URL
    -- or at one that has its origin by the url crate, without a body and without credentials, at
    -- most six times: whatever holds of the world with a number of requests that are left, and is
    -- kept by each such request for one less, holds after the call.
    pub supporting_resource-Keeps :
        (K : ℕ → W → Type 0)
        (keep : (target : Url libs from_slice)
          → libs.url_lib.parse wanted.target ≡ ok target
          → libs.url_lib.scheme target ≡ text "https"
          → (n : ℕ) (request : HttpRequest) → IsForTarget target request
          → (w : W) → K (suc n) w
          → K n (supporting_transport.send_limited request wanted.maximum_bytes w).1)
        (now : ℕ) (c : C) (w : W)
        → K 6 w
        → (n : ℕ) × K n (supporting_resource libs from_slice client wanted now c w).2
    unfolding supporting_resource
    supporting_resource-Keeps K keep now c w k =
        elim (Result-cases (libs.url_lib.parse wanted.target)) [
          | inr (e, failed) ↦ rw (supporting_resource, failed) (6, k)
          | inl (target, parsed) ↦ elim (Result-cases (require_https libs from_slice target)) [
            | inr (e, insecure) ↦ rw (supporting_resource, parsed, insecure) (6, k)
            | inl (done, secure) ↦
                let (https, anonymous) = require_https_inv target {u = done} secure in
                elim (Result-cases
                  (client.cache.get_from c (supporting_key libs from_slice client wanted))) [
                    | inr (e, failed) ↦ rw (supporting_resource, parsed, secure, failed) (6, k)
                    | inl (cached, read) ↦ elim (Option-cases (usable now cached)) [
                      | inr (r, hit) ↦ rw (supporting_resource, parsed, secure, read, hit) (6, k)
                      | inl missed ↦
                          rw (supporting_resource, parsed, secure, read, missed)
                            (supporting_loop-Keeps target K (keep target parsed https) max_redirects
                              (supporting_key libs from_slice client wanted) cached now
                              (resumed libs from_slice target cached) c w
                              (resumed-IsNear target cached anonymous) k)
                    ]
                  ]
          ]
        ]
