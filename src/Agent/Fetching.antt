-- ===== src/Agent/Fetching.antt =====
-- crates/odp-agent/src/client.rs: a request through the cache; `now` is the time that the function
-- reads.
pub mod Sound
pub mod Reuse
mod Tests
use odp_rust.Prelude.{
  ℕ, ◌+◌, ◌*◌, ◌/◌, ◌%◌, ◌>>=◌, ◌>>◌, Bool, true, false, not, ◌&&◌, Option, none, some, List, [],
  ◌∷◌, ◌++◌, Result, ok, err, map_err, ◌==◌, nat_eq, ltb, if◌then◌else◌,
}
use odp_rust.Prelude.Text.{Text, text, text_eq}
use odp_rust.Prelude.Maps.{Map, lookup, insert}
use odp_rust.Prelude.Numbers.{decimal}
use odp_rust.Core.References.{derive_service_origin, or_default, reference_message}
use odp_rust.Core.References.Url.{UrlLib}
use odp_rust.Directory.Transport.{Transport}
use odp_rust.Agent.Cache.{CacheRecord, MemoryCache, get, set, delete}
use odp_rust.Agent.Freshness.{from_secs, cacheable, no_store, expiration, revalidated_expiration}
use odp_rust.Agent.Redirects.{
  AgentError, cache_error, invalid_request, invalid_response, RawResponse, request_raw, consume,
}
use odp_rust.Agent.Setup.{
  CacheOps, memory_cache, Freshness, Response, hex_digit, hex, sha256_hex, Libs, CacheFallbacks,
  default_fallbacks, ServiceClient, cache_key, request_key, fetched, fresh, revalidated,
}

-- The fields that let the Service answer that the record is still current.
unfoldable pub conditional_fields : CacheRecord → Map Text
conditional_fields r =
    let etags : Map Text = elim r.etag [
      | none ↦ []
      | some etag ↦ insert (text "if-none-match") etag []
    ] in
    elim r.last_modified [
      | none ↦ etags
      | some last_modified ↦ insert (text "if-modified-since") last_modified etags
    ]

module _ (url_lib : UrlLib) where
  open url_lib use {Url, parse, as_str}

  -- The URL to ask: where the record came from, if that is on the origin of the target.
  unfoldable pub revalidation_target : Url → Text → CacheRecord → Url
  revalidation_target target request_origin r = elim (parse r.final_url) [
    | err e ↦ target
    | ok cached_target ↦ elim (derive_service_origin url_lib (as_str cached_target)) [
      | err e ↦ target
      | ok origin ↦ if origin == request_origin then cached_target else target
    ]
  ]

-- The record that a GET may revalidate.
abbrev pub revalidable : Text → Option CacheRecord → Option CacheRecord
revalidable method none = none
revalidable method (some r) = if method == text "GET" then some r else none

abbrev pub asked_fields : Option CacheRecord → Map Text
asked_fields none = []
asked_fields (some r) = conditional_fields r

-- The record that may be used as it is.
abbrev pub usable : ℕ → Option CacheRecord → Option CacheRecord
usable now none = none
usable now (some r) = if ltb now r.expires_at then some r else none

module _ (libs : Libs) {W C : Type 0} (client : ServiceClient W C) where
  open libs use {url_lib, parse_http_date, time_limit, failure_message}
  open client use {cache}

  abbrev Url : Type 0
  Url = libs.url_lib.Url

  -- The answer 304 for a record.
  unfoldable pub revalidate :
      Text → CacheRecord → RawResponse → ℕ → ℕ → C → Result AgentError Response × C
  revalidate k r raw fallback now c =
      if no_store raw.headers
      then (let (deleted, c') = cache.delete_from c k in
          (
            map_err cache_error deleted
                >> ok (record { body = r.body; final_url = r.final_url; freshness = revalidated }),
            c',
          ))
      else (let renewed = record r {
        expires_at = revalidated_expiration parse_http_date time_limit raw.headers r fallback now;
        stored_at = now;
        final_url = raw.final_url;
      } in
          let (stored, c') = cache.set_in c k renewed in
          (
            map_err cache_error stored
                >> ok
                    (record { body = r.body; final_url = raw.final_url; freshness = revalidated }),
            c',
          ))

  -- What is kept of a response that `consume` and the validator accept.
  unfoldable pub keep_response : Text → Text → RawResponse → ℕ → ℕ → C → Result Text (Unit {0}) × C
  keep_response k method response fallback now c =
      if not (cacheable method response.headers fallback)
      then cache.delete_from c k
      else cache.set_in c k (record {
        body = response.body;
        etag = lookup (text "etag") response.headers;
        expires_at = expiration parse_http_date time_limit response.headers fallback now;
        final_url = response.final_url;
        last_modified = lookup (text "last-modified") response.headers;
        status = response.status;
        stored_at = now;
      })

  -- A response that is no 304.
  unfoldable pub accept_response :
      Text
      → Text
      → RawResponse
      → ℕ
      → ℕ
      → (Text → Result AgentError (Unit {0}))
      → ℕ
      → C
      → Result AgentError Response × C
  accept_response k method raw maximum_bytes fallback validate now c =
      elim (consume failure_message raw maximum_bytes >>= λ response.
      validate response.body >> ok response) [
        | err e ↦ (err e, c)
        | ok response ↦
            let (kept, c') = keep_response k method response fallback now c in
            (
              map_err cache_error kept
                  >> ok (record {
                    body = response.body;
                    final_url = response.final_url;
                    freshness = fetched;
                  }),
              c',
            )
      ]

  -- After the cache was read.
  unfoldable pub answered :
      Text
      → Text
      → Option CacheRecord
      → RawResponse
      → ℕ
      → ℕ
      → (Text → Result AgentError (Unit {0}))
      → ℕ
      → C
      → Result AgentError Response × C
  answered k method cached raw maximum_bytes fallback validate now c =
      if raw.status == 304
      then elim cached [
        | none ↦ (
          err (invalid_response (text "ODP response returned 304 without a cached representation")),
          c,
        )
        | some r ↦ revalidate k r raw fallback now c
      ]
      else accept_response k method raw maximum_bytes fallback validate now c

  abbrev pub asked_target : Url → Text → Option CacheRecord → Url
  asked_target target request_origin none = target
  asked_target target request_origin (some r) = revalidation_target url_lib target request_origin r

  -- With the origin of the target and what the cache holds under the key.
  unfoldable pub request_past_cache :
      Text
      → Text
      → Url
      → Text
      → ℕ
      → ℕ
      → (Text → Result AgentError (Unit {0}))
      → ℕ
      → Text
      → Option CacheRecord
      → C
      → W
      → Result AgentError Response × C × W
  request_past_cache k method target body maximum_bytes fallback validate now request_origin cached
        c w =
      let asked = revalidable method cached in
      let (sent, w') =
        request_raw url_lib client.transport client.accept_language method
          (asked_target target request_origin asked) body (asked_fields asked) request_origin
          maximum_bytes w in
      elim sent [
        | err e ↦ (err e, c, w')
        | ok raw ↦
            let (response, c') =
              answered k method cached raw maximum_bytes fallback validate now c in
            (response, c', w')
      ]

  unfoldable pub request_cached :
      Text
      → Url
      → Text
      → ℕ
      → ℕ
      → (Text → Result AgentError (Unit {0}))
      → ℕ
      → C
      → W
      → Result AgentError Response × C × W
  request_cached method target body maximum_bytes fallback validate now c w =
      let k = request_key libs client method (libs.url_lib.as_str target) body fallback in
      elim (derive_service_origin url_lib (libs.url_lib.as_str target)) [
        | err e ↦ (err (invalid_request (reference_message e)), c, w)
        | ok request_origin ↦ elim (cache.get_from c k) [
          | err e ↦ (err (cache_error e), c, w)
          | ok cached ↦ elim (usable now cached) [
            | some r ↦
                (ok (record { body = r.body; final_url = r.final_url; freshness = fresh }), c, w)
            | none ↦
                request_past_cache k method target body maximum_bytes fallback validate now
                  request_origin cached c w
          ]
        ]
      ]
