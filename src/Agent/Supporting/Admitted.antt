-- ===== src/Agent/Supporting/Admitted.antt =====
-- crates/odp-agent/src/client.rs: which supporting documents are returned, fetched or from the cache.
use odp_rust.Prelude.{
  ℕ, zero, suc, ◌≡◌, refl, ap, arith, Option, none, some, Result, ok, err, ◌>>◌, map_err,
  Result-cases, Option-cases, Bool-cases, ◌==◌, nat_eq, inl, inr,
}
use odp_rust.Prelude.Text.{Text}
use odp_rust.Core.Json.{Value}
use odp_rust.Directory.Transport.{HttpResponse}
use odp_rust.Agent.Cache.{CacheRecord}
use odp_rust.Agent.Freshness.{no_store}
use odp_rust.Agent.Redirects.{AgentError, cache_error, is_redirect, max_redirects}
use odp_rust.Agent.Setup.{Libs, ServiceClient}
use odp_rust.Agent.Fetching.{usable}
use odp_rust.Agent.Linked.{
  Wanted, SupportingDocument, supporting_document, Url, require_https, resumed, supporting_request,
  next_supporting, accept_supporting,
}
use odp_rust.Agent.Supporting.{
  supporting_key, keep_supporting, revalidate_supporting, settle, supporting_loop,
  supporting_resource,
}
use odp_rust.Agent.Supporting.Objects.{IsAdmitted, supporting_document-IsAdmitted}

module _ (libs : Libs) (from_slice : Text → Result Text Value) {W C : Type 0}
    (client : ServiceClient W C) (wanted : Wanted) where
  abbrev IsFine : Result AgentError SupportingDocument → Type 0
  IsFine (err e) = Unit
  IsFine (ok document) = IsAdmitted libs from_slice wanted document

  fine :
      (result : Result AgentError SupportingDocument)
      → ((document : SupportingDocument)
          → result ≡ ok document
          → IsAdmitted libs from_slice wanted document)
      → IsFine result
  fine (err e) h = tt
  fine (ok document) h = h document refl

  read-IsFine :
      (body final_url : Text)
      → IsFine (supporting_document from_slice body final_url wanted.resource_class)
  read-IsFine body final_url =
      fine _
        (λ document. supporting_document-IsAdmitted libs from_slice wanted body final_url document)

  after-IsFine :
      (step : Result AgentError (Unit {0})) (result : Result AgentError SupportingDocument)
      → IsFine result
      → IsFine (step >> result)
  after-IsFine (err e) result h = tt
  after-IsFine (ok done) result h = h

  accept_supporting-IsFine :
      (current : Url libs from_slice) (response : HttpResponse)
      → IsFine (accept_supporting libs from_slice wanted current response)
  unfolding accept_supporting
  accept_supporting-IsFine current response = fine _ (λ document h.
      supporting_document-IsAdmitted libs from_slice wanted response.body
        (libs.url_lib.as_str current) document (ground arith))

  revalidate_supporting-IsFine :
      (key : Text) (cached : Option CacheRecord) (current : Url libs from_slice)
      (response : HttpResponse) (now : ℕ) (c : C)
      → IsFine
          (revalidate_supporting libs from_slice client key wanted cached current response now c).0
  unfolding revalidate_supporting
  revalidate_supporting-IsFine key none current response now c = tt
  revalidate_supporting-IsFine key (some r) current response now c =
      elim (Bool-cases (no_store response.headers)) [
        | inl forbidden ↦
            rw (revalidate_supporting, forbidden)
              (after-IsFine _ _ (read-IsFine r.body r.final_url))
        | inr allowed ↦
            rw (revalidate_supporting, allowed)
              (after-IsFine _ _ (read-IsFine r.body (libs.url_lib.as_str current)))
      ]

  settle-IsFine :
      (key : Text) (cached : Option CacheRecord) (current : Url libs from_slice)
      (response : HttpResponse) (now : ℕ) (c : C)
      → IsFine (settle libs from_slice client key wanted cached current response now c).0
  unfolding settle
  settle-IsFine key cached current response now c = elim (Bool-cases (response.status == 304)) [
    | inl same ↦ rw (settle, same) (revalidate_supporting-IsFine key cached current response now c)
    | inr other ↦ elim (Result-cases (accept_supporting libs from_slice wanted current response)) [
      | inr (e, refused) ↦ rw (settle, other, refused) tt
      | inl (document, accepted) ↦
          let fit : IsFine (ok document) =
            rw accepted at (accept_supporting-IsFine current response) in
          rw (settle, other, accepted)
            (after-IsFine
              (map_err cache_error
                (keep_supporting libs from_slice client key wanted current response now c).0)
              (ok document) fit)
    ]
  ]

  supporting_loop-IsFine :
      (left : ℕ) (key : Text) (cached : Option CacheRecord) (now : ℕ)
      (current : Url libs from_slice) (c : C) (w : W)
      → IsFine (supporting_loop libs from_slice client left key wanted cached now current c w).0
  unfolding supporting_loop
  supporting_loop-IsFine zero key cached now current c w =
      let request = supporting_request libs from_slice wanted.accept cached current in
      elim (Result-cases
        (client.supporting_transport.send_limited request wanted.maximum_bytes w).0) [
          | inr (e, sent) ↦ rw (supporting_loop, sent) tt
          | inl (response, sent) ↦ elim (Bool-cases (is_redirect response.status)) [
            | inr final ↦
                rw (supporting_loop, sent, final) (settle-IsFine key cached current response now c)
            | inl moved ↦ rw (supporting_loop, sent, moved) tt
          ]
        ]
  supporting_loop-IsFine (suc left) key cached now current c w =
      let request = supporting_request libs from_slice wanted.accept cached current in
      elim (Result-cases
        (client.supporting_transport.send_limited request wanted.maximum_bytes w).0) [
          | inr (e, sent) ↦ rw (supporting_loop, sent) tt
          | inl (response, sent) ↦ elim (Bool-cases (is_redirect response.status)) [
            | inr final ↦
                rw (supporting_loop, sent, final) (settle-IsFine key cached current response now c)
            | inl moved ↦
                elim (Result-cases (next_supporting libs from_slice current response.headers)) [
                  | inr (e, stop) ↦ rw (supporting_loop, sent, moved, stop) tt
                  | inl (next, go) ↦
                      rw (supporting_loop, sent, moved, go)
                        (supporting_loop-IsFine left key cached now next c
                          (client.supporting_transport.send_limited request wanted.maximum_bytes
                            w).1)
                ]
          ]
        ]

  supporting_resource-IsFine :
      (now : ℕ) (c : C) (w : W)
      → IsFine (supporting_resource libs from_slice client wanted now c w).0
  unfolding supporting_resource
  supporting_resource-IsFine now c w = elim (Result-cases (libs.url_lib.parse wanted.target)) [
    | inr (e, failed) ↦ rw (supporting_resource, failed) tt
    | inl (target, parsed) ↦ elim (Result-cases (require_https libs from_slice target)) [
      | inr (e, insecure) ↦ rw (supporting_resource, parsed, insecure) tt
      | inl (done, secure) ↦
          let key = supporting_key libs from_slice client wanted in
          elim (Result-cases (client.cache.get_from c key)) [
            | inr (e, failed) ↦ rw (supporting_resource, parsed, secure, failed) tt
            | inl (cached, read) ↦ elim (Option-cases (usable now cached)) [
              | inr (r, hit) ↦
                  rw (supporting_resource, parsed, secure, read, hit)
                    (read-IsFine r.body r.final_url)
              | inl missed ↦
                  rw (supporting_resource, parsed, secure, read, missed)
                    (supporting_loop-IsFine max_redirects key cached now
                      (resumed libs from_slice target cached) c w)
            ]
          ]
    ]
  ]

  -- A supporting document that is returned, fetched or from the cache, is a JSON object that nests no
  -- deeper than 16, or 32 for an OpenAPI document, and is counted by the bytes that it was read from.
  pub supporting_resource-IsAdmitted :
      (now : ℕ) (c c' : C) (w w' : W) (document : SupportingDocument)
      → supporting_resource libs from_slice client wanted now c w ≡ (ok document, c', w')
      → IsAdmitted libs from_slice wanted document
  supporting_resource-IsAdmitted now c c' w w' document h =
      rw (ap (λ outcome. outcome.0) h) at (supporting_resource-IsFine now c w)
