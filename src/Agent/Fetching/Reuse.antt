-- ===== src/Agent/Fetching/Reuse.antt =====
-- crates/odp-agent/src/client.rs: a request is answered again from what the cache kept of its answer.
use odp_rust.Prelude.{
  ℕ, ◌≡◌, ◌<◌, false, Option, none, some, Result, ok, Result-cases, Option-cases, Bool-cases, arith,
  ◌>>=◌, ◌>>◌, ◌==◌, nat_eq, inl, inr,
}
use odp_rust.Prelude.Text.{Text, text, text_eq, text_eq_refl}
use odp_rust.Prelude.Maps.{lookup, lookup-remove}
use odp_rust.Core.References.{derive_service_origin}
use odp_rust.Agent.Cache.{CacheRecord, MemoryCache, get, delete}
use odp_rust.Agent.Cache.Bounds.{get-set}
use odp_rust.Agent.Freshness.{expiration, revalidated_expiration}
use odp_rust.Agent.Redirects.{AgentError, RawResponse, request_raw, consume}
use odp_rust.Agent.Setup.{CacheOps, memory_cache, fresh, Response, Libs, ServiceClient, request_key}
use odp_rust.Agent.Fetching.{
  revalidate, keep_response, accept_response, answered, revalidable, asked_target, asked_fields,
  usable, request_past_cache, request_cached,
}
use odp_rust.Agent.Fetching.Sound.{usable_inv}

get-delete : (c : MemoryCache) (k : Text) → c.poisoned ≡ false → get (delete c k).1 k ≡ ok none
unfolding get delete
get-delete c k sound = ground (arith, lookup-remove k k c.records, text_eq_refl k)

-- What a client relies on of a cache in a state that `IsSound` describes.
pub record CacheLaws {C : Type 0} (cache : CacheOps C) (IsSound : C → Type 0) : Type 0 where
  pub reads_set :
      (c : C)
      → IsSound c
      → (k : Text) (v : CacheRecord) → cache.get_from (cache.set_in c k v).1 k ≡ ok (some v)
  pub reads_deleted :
      (c : C) → IsSound c → (k : Text) → cache.get_from (cache.delete_from c k).1 k ≡ ok none

abbrev pub IsUsable : MemoryCache → Type 0
IsUsable c = (c.poisoned ≡ false) × (0 < c.capacity)

pub memory_cache_laws : CacheLaws memory_cache IsUsable
memory_cache_laws = record {
  reads_set = λ c sound k v. get-set c k v sound.0 sound.1;
  reads_deleted = λ c sound k. get-delete c k sound.0;
}

-- The record has the body and the URL of the response.
abbrev pub IsOf : Response → CacheRecord → Type 0
IsOf response r = (r.body ≡ response.body) × (r.final_url ≡ response.final_url)

module _ (libs : Libs) {W C : Type 0} (client : ServiceClient W C) {IsSound : C → Type 0}
    (laws : CacheLaws client.cache IsSound) where
  module _ (k method : Text) (maximum fallback : ℕ) (validate : Text → Result AgentError (Unit {0}))
      (now : ℕ) (c : C) (sound : IsSound c) where
    revalidate-IsOf :
        (s : CacheRecord) (raw : RawResponse) (response : Response) (r : CacheRecord)
        → (revalidate libs client k s raw fallback now c).0 ≡ ok response
        → client.cache.get_from (revalidate libs client k s raw fallback now c).1 k ≡ ok (some r)
        → IsOf response r
    unfolding revalidate
    revalidate-IsOf s raw response r h held =
        let reads = laws.reads_set c sound k (record s {
          expires_at =
              revalidated_expiration libs.parse_http_date libs.time_limit raw.headers s fallback
                now;
          stored_at = now;
          final_url = raw.final_url;
        }) in
        let deleted = laws.reads_deleted c sound k in ground arith

    accept_response-IsOf :
        (raw : RawResponse) (response : Response) (r : CacheRecord)
        → (accept_response libs client k method raw maximum fallback validate now c).0 ≡ ok response
        → client.cache.get_from
            (accept_response libs client k method raw maximum fallback validate now c).1
            k
          ≡ ok (some r)
        → IsOf response r
    unfolding accept_response keep_response
    accept_response-IsOf raw response r h held =
        let deleted = laws.reads_deleted c sound k in
        elim (Result-cases (
          consume libs.failure_message raw maximum >>= λ answer.
          validate answer.body >> ok answer)) [
            | inr (e, refused) ↦ absurd (ground arith)
            | inl (answer, accepted) ↦
                let reads = laws.reads_set c sound k (record {
                  body = answer.body;
                  etag = lookup (text "etag") answer.headers;
                  expires_at =
                      expiration libs.parse_http_date libs.time_limit answer.headers fallback now;
                  final_url = answer.final_url;
                  last_modified = lookup (text "last-modified") answer.headers;
                  status = answer.status;
                  stored_at = now;
                }) in
                ground arith
          ]

  module _ (method : Text) (target : libs.url_lib.Url) (body : Text) (maximum fallback : ℕ)
      (validate : Text → Result AgentError (Unit {0})) where
    abbrev asks : ℕ → C → W → Result AgentError Response × C × W
    asks = request_cached libs client method target body maximum fallback validate

    abbrev own_key : Text
    own_key = request_key libs client method (libs.url_lib.as_str target) body fallback

    hit :
        (origin : Text) (r : CacheRecord) (response : Response) (now : ℕ) (d : C) (w : W)
        → derive_service_origin libs.url_lib (libs.url_lib.as_str target) ≡ ok origin
        → client.cache.get_from d own_key ≡ ok (some r)
        → now < r.expires_at
        → IsOf response r
        → asks now d w ≡ (
          ok (record { body = response.body; final_url = response.final_url; freshness = fresh }),
          d,
          w,
        )
    unfolding request_cached
    hit origin r response now d w derived found lives same =
        let usable_r : usable now (some r) ≡ some r = ground arith in ground arith

    module _ (now : ℕ) (c : C) (sound : IsSound c) (w : W) where
      answered-IsOf :
          (k : Text) (cached : Option CacheRecord) (raw : RawResponse) (response : Response)
          (r : CacheRecord)
          → (answered libs client k method cached raw maximum fallback validate now c).0
            ≡ ok response
          → client.cache.get_from
              (answered libs client k method cached raw maximum fallback validate now c).1
              k
            ≡ ok (some r)
          → IsOf response r
      unfolding answered
      answered-IsOf k none raw response r h held =
          accept_response-IsOf k method maximum fallback validate now c sound raw response r
            (ground arith) (ground arith)
      answered-IsOf k (some s) raw response r h held = elim (Bool-cases (raw.status == 304)) [
        | inl same ↦
            revalidate-IsOf k method maximum fallback validate now c sound s raw response r
              (ground arith) (ground arith)
        | inr other ↦
            accept_response-IsOf k method maximum fallback validate now c sound raw response r
              (ground arith) (ground arith)
      ]

      past_cache-IsOf :
          (k origin : Text) (cached : Option CacheRecord) (response : Response) (r : CacheRecord)
          → (request_past_cache libs client k method target body maximum fallback validate now
              origin cached c w).0
            ≡ ok response
          → client.cache.get_from
              (request_past_cache libs client k method target body maximum fallback validate now
                origin cached c w).1
              k
            ≡ ok (some r)
          → IsOf response r
      unfolding request_past_cache
      past_cache-IsOf k origin cached response r h held =
          let asked = revalidable method cached in
          elim (Result-cases
            (request_raw libs.url_lib client.transport client.accept_language method
              (asked_target libs client target origin asked) body (asked_fields asked) origin
              maximum w).0) [
                | inl (raw, sent) ↦
                    answered-IsOf k cached raw response r (ground arith) (ground arith)
                | inr (e, sent) ↦ absurd (ground arith)
              ]

      request_cached-IsOf :
          (response : Response) (r : CacheRecord)
          → (asks now c w).0 ≡ ok response
          → client.cache.get_from (asks now c w).1 own_key ≡ ok (some r)
          → IsOf response r
      unfolding request_cached
      request_cached-IsOf response r h held =
          elim (Result-cases (derive_service_origin libs.url_lib (libs.url_lib.as_str target))) [
            | inr (e, refused) ↦ absurd (ground arith)
            | inl (origin, derived) ↦ elim (Result-cases (client.cache.get_from c own_key)) [
              | inr (e, broken) ↦ absurd (ground arith)
              | inl (cached, found) ↦ elim (Option-cases (usable now cached)) [
                | inr (s, current) ↦
                    let (before, lives) = usable_inv now cached s current in ground arith
                | inl stale ↦
                    past_cache-IsOf own_key origin cached response r (ground arith) (ground arith)
              ]
            ]
          ]

      -- Where a request was answered and the cache then holds a record under its key, the same
      -- request before the record expires is answered with the same body and URL, as fresh, with no
      -- request sent and the cache unchanged; this is so in every cache that reads what it stored and
      -- not what it deleted.
      pub request_cached_again :
          (response : Response) (r : CacheRecord) (later : ℕ) (w' : W)
          → (asks now c w).0 ≡ ok response
          → client.cache.get_from (asks now c w).1 own_key ≡ ok (some r)
          → later < r.expires_at
          → asks later (asks now c w).1 w' ≡ (
            ok (record { body = response.body; final_url = response.final_url; freshness = fresh }),
            (asks now c w).1,
            w',
          )
      unfolding request_cached
      request_cached_again response r later w' h held lives =
          let same = request_cached-IsOf response r h held in
          elim (Result-cases (derive_service_origin libs.url_lib (libs.url_lib.as_str target))) [
            | inr (e, refused) ↦ absurd (ground arith)
            | inl (origin, derived) ↦
                hit origin r response later (asks now c w).1 w' derived held lives same
          ]
