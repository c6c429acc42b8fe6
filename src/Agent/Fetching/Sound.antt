-- ===== src/Agent/Fetching/Sound.antt =====
-- crates/odp-agent/src/client.rs: what the answer of `request_cached` rests on.
use odp_rust.Prelude.{
  ℕ, ◌≡◌, ◌≤◌, ◌<◌, ◌⊎◌, refl, Option, none, some, Result, ok, Result-cases, Option-cases,
  Bool-cases, length, arith, ◌==◌, nat_eq, inl, inr,
}
use odp_rust.Prelude.Text.{Text, text_eq}
use odp_rust.Core.References.{derive_service_origin}
use odp_rust.Agent.Cache.{CacheRecord}
use odp_rust.Agent.Redirects.{AgentError, RawResponse, request_raw, consume, require_within_limit}
use odp_rust.Agent.Setup.{fresh, revalidated, fetched, Response, Libs, ServiceClient, request_key}
use odp_rust.Agent.Fetching.{
  revalidate, accept_response, answered, revalidable, asked_target, asked_fields, usable,
  request_past_cache, request_cached,
}

pub usable_inv :
    (now : ℕ) (cached : Option CacheRecord) (r : CacheRecord)
    → usable now cached ≡ some r
    → (cached ≡ some r) × (now < r.expires_at)
usable_inv now none r h = absurd (ground arith)
usable_inv now (some s) r h = ground arith

usable-none : (now : ℕ) (r : CacheRecord) → usable now (some r) ≡ none → r.expires_at ≤ now
usable-none now r h = ground arith

module _ (libs : Libs) {W C : Type 0} (client : ServiceClient W C) where
  module _ (k method : Text) (maximum fallback : ℕ) (validate : Text → Result AgentError (Unit {0}))
      (now : ℕ) (c : C) where
    revalidate_inv :
        (r : CacheRecord) (raw : RawResponse) (response : Response)
        → (revalidate libs client k r raw fallback now c).0 ≡ ok response
        → (response.freshness ≡ revalidated) × (response.body ≡ r.body)
    unfolding revalidate
    revalidate_inv r raw response h = ground arith

    accept_response_inv :
        (raw : RawResponse) (response : Response)
        → (accept_response libs client k method raw maximum fallback validate now c).0 ≡ ok response
        → (response.freshness ≡ fetched)
          × (validate response.body ≡ ok tt)
          × (length response.body ≤ maximum)
    unfolding accept_response consume require_within_limit
    accept_response_inv raw response h = ground arith

  module _ (method : Text) (target : libs.url_lib.Url) (body : Text) (maximum fallback : ℕ)
      (validate : Text → Result AgentError (Unit {0})) (now : ℕ) (c : C) (w : W) where
    abbrev cached_under : Result Text (Option CacheRecord)
    cached_under =
        client.cache.get_from c
          (request_key libs client method (libs.url_lib.as_str target) body fallback)

    abbrev outcome : Result AgentError Response × C × W
    outcome = request_cached libs client method target body maximum fallback validate now c w

    abbrev pub IsFresh : Response → Type 0
    IsFresh response =
        (response.freshness ≡ fresh)
        × (r : CacheRecord) × (cached_under ≡ ok (some r))
        × (now < r.expires_at)
        × (response.body ≡ r.body)
        × (outcome.1 ≡ c)
        × (outcome.2 ≡ w)

    abbrev pub IsRevalidated : Response → Type 0
    IsRevalidated response =
        (response.freshness ≡ revalidated)
        × (r : CacheRecord) × (cached_under ≡ ok (some r))
        × (r.expires_at ≤ now)
        × (response.body ≡ r.body)

    abbrev pub IsFetched : Response → Type 0
    IsFetched response =
        (response.freshness ≡ fetched)
        × (validate response.body ≡ ok tt)
        × (length response.body ≤ maximum)

    abbrev IsPast : Option CacheRecord → Response → Type 0
    IsPast cached response =
        ((response.freshness ≡ revalidated)
          × (r : CacheRecord) × (cached ≡ some r)
          × (response.body ≡ r.body))
        ⊎ IsFetched response

    answered_inv :
        (k : Text) (cached : Option CacheRecord) (raw : RawResponse) (response : Response)
        → (answered libs client k method cached raw maximum fallback validate now c).0 ≡ ok response
        → IsPast cached response
    unfolding answered
    answered_inv k none raw response h =
        inr
          (accept_response_inv k method maximum fallback validate now c raw response (ground arith))
    answered_inv k (some r) raw response h = elim (Bool-cases (raw.status == 304)) [
      | inl same ↦
          let (renewed, kept) =
            revalidate_inv k method maximum fallback validate now c r raw response (ground arith) in
          inl (renewed, r, refl, kept)
      | inr other ↦
          inr (
            accept_response_inv k method maximum fallback validate now c raw response
              (ground arith))
    ]

    request_past_cache_inv :
        (k origin : Text) (cached : Option CacheRecord) (response : Response)
        → (request_past_cache libs client k method target body maximum fallback validate now origin
            cached c w).0
          ≡ ok response
        → IsPast cached response
    unfolding request_past_cache
    request_past_cache_inv k origin cached response h =
        let asked = revalidable method cached in
        elim (Result-cases
          (request_raw libs.url_lib client.transport client.accept_language method
            (asked_target libs client target origin asked) body (asked_fields asked) origin maximum
            w).0) [
              | inl (raw, sent) ↦ answered_inv k cached raw response (ground arith)
              | inr (e, sent) ↦ absurd (ground arith)
            ]

    -- What `request_cached` returns is fresh, the body of an unexpired record under the key of the
    -- request, with no request sent and the cache unchanged; or revalidated, the body of an expired
    -- record under that key; or fetched, a body within the limit that the validator accepts.
    pub request_cached_inv :
        (response : Response)
        → outcome.0 ≡ ok response
        → IsFresh response ⊎ IsRevalidated response ⊎ IsFetched response
    unfolding request_cached
    request_cached_inv response h =
        let k = request_key libs client method (libs.url_lib.as_str target) body fallback in
        elim (Result-cases (derive_service_origin libs.url_lib (libs.url_lib.as_str target))) [
          | inr (e, refused) ↦ absurd (ground arith)
          | inl (origin, derived) ↦ elim (Result-cases cached_under) [
            | inr (e, broken) ↦ absurd (ground arith)
            | inl (cached, found) ↦ elim (Option-cases (usable now cached)) [
              | inr (r, current) ↦
                  let (held, lives) = usable_inv now cached r current in
                  inl
                    (ground arith, r, ground arith, lives, ground arith, ground arith, ground arith)
              | inl stale ↦ elim (request_past_cache_inv k origin cached response (ground arith)) [
                | inl (renewed, r, held, kept) ↦
                    inr (inl (renewed, r, ground arith, usable-none now r (ground arith), kept))
                | inr new ↦ inr (inr new)
              ]
            ]
          ]
        ]
