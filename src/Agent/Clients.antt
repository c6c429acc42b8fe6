-- ===== src/Agent/Clients.antt =====
-- crates/odp-agent/src/client.rs: how a client is made. The client of the network, the random bytes and
-- the default cache are given.
use odp_rust.Prelude.{
  ◌≡◌, ◌∙◌, ap, arith, Result-cases, inl, inr, none, some, Result, ok, ◌>>=◌, map_err,
}
use odp_rust.Prelude.Text.{Text}
use odp_rust.Core.References.{derive_service_origin, reference_message}
use odp_rust.Directory.Transport.{Transport, TransportError}
use odp_rust.Agent.Redirects.{AgentError, invalid_request, transport_error}
use odp_rust.Agent.Setup.{
  Libs, ServiceClient, CacheOps, CacheFallbacks, default_fallbacks, sha256_hex,
}

unfoldable pub with_transport :
    Libs
    → {W C : Type 0} → CacheOps C
    → Result Text Text
    → Text
    → Transport W
    → Result TransportError (Transport W)
    → Result AgentError (ServiceClient W C)
with_transport libs cache' random service_url transport' supporting = do
  partition ← map_err invalid_request random
  supporting' ← map_err transport_error supporting
  origin ←
      map_err (λ e. invalid_request (reference_message e))
        (derive_service_origin libs.url_lib service_url)
  ok (record {
    accept_language = none;
    cache = cache';
    cache_fallbacks = default_fallbacks;
    cache_partition = sha256_hex libs.sha256 partition;
    service_origin = origin;
    supporting_transport = supporting';
    transport = transport';
  })

-- The origin of a client is the one of the URL that it was made for.
with_transport-derive_service_origin :
    (libs : Libs) {W C : Type 0} (cache' : CacheOps C) (random : Result Text Text)
    (service_url : Text) (transport' : Transport W)
    (supporting : Result TransportError (Transport W)) (client : ServiceClient W C)
    → with_transport libs cache' random service_url transport' supporting ≡ ok client
    → derive_service_origin libs.url_lib service_url ≡ ok client.service_origin
unfolding with_transport
with_transport-derive_service_origin libs cache' random service_url transport' supporting client h =
    elim (Result-cases (derive_service_origin libs.url_lib service_url)) [
      | inr (e, failed) ↦ absurd (ground arith)
      | inl (origin, derived) ↦
          let same : origin ≡ client.service_origin = ground arith in derived ∙ ap ok same
    ]

module _ {W C : Type 0} where
  abbrev pub with_accept_language : Text → ServiceClient W C → ServiceClient W C
  with_accept_language language client = record client { accept_language = some language }

  abbrev pub with_cache : CacheOps C → ServiceClient W C → ServiceClient W C
  with_cache cache' client = record client { cache = cache' }

  abbrev pub with_cache_fallbacks : CacheFallbacks → ServiceClient W C → ServiceClient W C
  with_cache_fallbacks fallbacks client = record client { cache_fallbacks = fallbacks }

  abbrev pub with_cache_partition : Text → ServiceClient W C → ServiceClient W C
  with_cache_partition partition client = record client { cache_partition = partition }

  abbrev pub with_supporting_transport : Transport W → ServiceClient W C → ServiceClient W C
  with_supporting_transport transport' client = record client { supporting_transport = transport' }
