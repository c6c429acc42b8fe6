-- ===== src/Agent/Supporting.antt =====
-- crates/odp-agent/src/client.rs: documents that are not of the protocol, such as JSON Schemas and OpenAPI
-- documents, fetched over HTTPS through the cache.
pub mod Admitted
pub mod Fetched
pub mod Objects
mod Tests
use odp_rust.Prelude.{
  ℕ, zero, suc, Bool, true, false, not, ◌&&◌, ◌||◌, Option, none, some, List, [], ◌∷◌, ◌++◌, any,
  Result, ok, err, ◌>>=◌, ◌>>◌, map_err, ok_or, refuse_if, length, ltb, ◌==◌, nat_eq, if◌then◌else◌,
}
use odp_rust.Prelude.Text.{Text, text, text_eq, is_empty, eq_ignore_ascii_case}
use odp_rust.Prelude.Maps.{Map, lookup, insert}
use odp_rust.Prelude.Numbers.{decimal}
use odp_rust.Core.Json.{Value, object}
use odp_rust.Core.References.{is_some}
use odp_rust.Core.Validation.Depth.{validate_json_depth}
use odp_rust.Directory.Transport.{HttpRequest, HttpResponse, Transport}
use odp_rust.Agent.Cache.{CacheRecord}
use odp_rust.Agent.Freshness.{cacheable, no_store, expiration, revalidated_expiration}
use odp_rust.Agent.Redirects.{
  AgentError, RawResponse, cache_error, invalid_request, invalid_response, parse_error,
  request_error, transport_error, is_redirect, is_success, is_more_than, declared_length,
  media_type_essence, max_redirects,
}
use odp_rust.Agent.Setup.{Libs, ServiceClient}
use odp_rust.Agent.Fetching.{usable}
use odp_rust.Agent.Linked.{
  SupportingDocument, is_object, decode_json_object, supporting_document, Wanted, Url,
  has_credentials, require_https, resumed, with_field, conditional_headers, supporting_request,
  next_supporting, accept_supporting,
}

module _ (libs : Libs) (from_slice : Text → Result Text Value) where
  open libs use {url_lib, parse_http_date, time_limit}

  module _ {W C : Type 0} (client : ServiceClient W C) where
    open client use {cache, cache_partition, supporting_transport}

    unfoldable pub supporting_key : Wanted → Text
    supporting_key wanted =
        cache_partition
        ++ (text ":"
            ++ (wanted.resource_class
                ++ (text "\nGET\n" ++ (wanted.target ++ (text "\n" ++ wanted.accept)))))

    -- The answer 304.
    unfoldable pub revalidate_supporting :
        Text
        → Wanted
        → Option CacheRecord
        → Url libs from_slice
        → HttpResponse
        → ℕ
        → C
        → Result AgentError SupportingDocument × C
    revalidate_supporting key wanted none current response now c = (
      err (
          invalid_response
            (text "ODP supporting document returned 304 without a cached representation")),
      c,
    )
    revalidate_supporting key wanted (some r) current response now c =
        if no_store response.headers
        then (let (deleted, c') = cache.delete_from c key in
            (
              map_err cache_error deleted
                  >> supporting_document from_slice r.body r.final_url wanted.resource_class,
              c',
            ))
        else (let renewed = record r {
          expires_at =
              revalidated_expiration parse_http_date time_limit response.headers r wanted.fallback
                now;
          stored_at = now;
          final_url = libs.url_lib.as_str current;
        } in
            let (stored, c') = cache.set_in c key renewed in
            (
              map_err cache_error stored
                  >> supporting_document from_slice r.body (libs.url_lib.as_str current)
                      wanted.resource_class,
              c',
            ))

    unfoldable pub keep_supporting :
        Text → Wanted → Url libs from_slice → HttpResponse → ℕ → C → Result Text (Unit {0}) × C
    keep_supporting key wanted current response now c =
        if not (cacheable (text "GET") response.headers wanted.fallback)
        then cache.delete_from c key
        else cache.set_in c key (record {
          body = response.body;
          etag = lookup (text "etag") response.headers;
          expires_at = expiration parse_http_date time_limit response.headers wanted.fallback now;
          final_url = libs.url_lib.as_str current;
          last_modified = lookup (text "last-modified") response.headers;
          status = response.status;
          stored_at = now;
        })

    -- A response that is no redirect.
    unfoldable pub settle :
        Text
        → Wanted
        → Option CacheRecord
        → Url libs from_slice
        → HttpResponse
        → ℕ
        → C
        → Result AgentError SupportingDocument × C
    settle key wanted cached current response now c =
        if response.status == 304
        then revalidate_supporting key wanted cached current response now c
        else elim (accept_supporting libs from_slice wanted current response) [
          | err e ↦ (err e, c)
          | ok document ↦
              let (kept, c') = keep_supporting key wanted current response now c in
              (map_err cache_error kept >> ok document, c')
        ]

    -- The first argument is how many redirects are left: `MAX_REDIRECTS` less the source's counter.
    unfoldable pub supporting_loop :
        ℕ
        → Text
        → Wanted
        → Option CacheRecord
        → ℕ
        → Url libs from_slice
        → C
        → W
        → Result AgentError SupportingDocument × C × W
    supporting_loop zero key wanted cached now current c w =
        let (sent, w') =
          supporting_transport.send_limited
            (supporting_request libs from_slice wanted.accept cached current) wanted.maximum_bytes
            w in
        elim sent [
          | err e ↦ (err (transport_error e), c, w')
          | ok response ↦ elim (is_redirect response.status) [
            | true ↦ (
              err (invalid_response (text "ODP supporting document exceeded five redirects")),
              c,
              w',
            )
            | false ↦
                let (document, c') = settle key wanted cached current response now c in
                (document, c', w')
          ]
        ]
    supporting_loop (suc left) key wanted cached now current c w =
        let (sent, w') =
          supporting_transport.send_limited
            (supporting_request libs from_slice wanted.accept cached current) wanted.maximum_bytes
            w in
        elim sent [
          | err e ↦ (err (transport_error e), c, w')
          | ok response ↦ elim (is_redirect response.status) [
            | false ↦
                let (document, c') = settle key wanted cached current response now c in
                (document, c', w')
            | true ↦ elim (next_supporting libs from_slice current response.headers) [
              | err e ↦ (err e, c, w')
              | ok next ↦ supporting_loop left key wanted cached now next c w'
            ]
          ]
        ]

    unfoldable pub supporting_resource :
        Wanted → ℕ → C → W → Result AgentError SupportingDocument × C × W
    supporting_resource wanted now c w =
        elim (map_err invalid_request (libs.url_lib.parse wanted.target) >>= λ url.
        require_https libs from_slice url >> ok url) [
          | err e ↦ (err e, c, w)
          | ok current ↦ elim (cache.get_from c (supporting_key wanted)) [
            | err e ↦ (err (cache_error e), c, w)
            | ok cached ↦ elim (usable now cached) [
              | some r ↦
                  (supporting_document from_slice r.body r.final_url wanted.resource_class, c, w)
              | none ↦
                  supporting_loop max_redirects (supporting_key wanted) wanted cached now
                    (resumed libs from_slice current cached) c w
            ]
          ]
        ]

    unfoldable pub supporting_json : Wanted → ℕ → C → W → Result AgentError Value × C × W
    supporting_json wanted now c w =
        let (document, c', w') = supporting_resource wanted now c w in
        (document >>= λ found. ok found.value, c', w')
