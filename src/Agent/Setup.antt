-- ===== src/Agent/Setup.antt =====
-- crates/odp-agent/src/client.rs: what a client is made of, over the trait of cache.rs, and the keys of
-- its cache. SHA-256 is the sha2 crate's.
use odp_rust.Prelude.{
  ℕ, ◌+◌, ◌*◌, ◌/◌, ◌%◌, Option, List, [], ◌∷◌, ◌++◌, Result, nat_eq, ltb, if◌then◌else◌,
}
use odp_rust.Prelude.Text.{Text, text, text_eq}
use odp_rust.Prelude.Numbers.{decimal}
use odp_rust.Core.References.{or_default}
use odp_rust.Core.References.Url.{UrlLib}
use odp_rust.Directory.Transport.{Transport}
use odp_rust.Agent.Cache.{CacheRecord, MemoryCache, get, set, delete}
use odp_rust.Agent.Freshness.{from_secs}
use odp_rust.Agent.Redirects.{RawResponse}

-- The trait `Cache`, over a state `C`.
pub record CacheOps (C : Type 0) : Type 0 where
  pub delete_from : C → Text → Result Text (Unit {0}) × C
  pub get_from : C → Text → Result Text (Option CacheRecord)
  pub set_in : C → Text → CacheRecord → Result Text (Unit {0}) × C

-- `impl Cache for MemoryCache`
abbrev pub memory_cache : CacheOps MemoryCache
memory_cache = record { delete_from = delete; get_from = get; set_in = set }

pub data Freshness : Type 0 where
  fetched fresh revalidated : Freshness

pub record Response : Type 0 where
  pub body : Text
  pub final_url : Text
  pub freshness : Freshness

abbrev pub hex_digit : ℕ → ℕ
hex_digit n = if ltb n 10 then 48 + n else 87 + n

unfoldable pub hex : List ℕ → Text
hex [] = []
hex (byte ∷ bytes) = hex_digit (byte / 16) ∷ (hex_digit (byte % 16) ∷ hex bytes)

unfoldable pub sha256_hex : (Text → List ℕ) → Text → Text
sha256_hex sha256 bytes = hex (sha256 bytes)

-- The crates and the wording of a failure.
pub record Libs : Type 1 where
  pub url_lib : UrlLib
  pub parse_http_date : Text → Option ℕ
  pub time_limit : ℕ
  pub sha256 : Text → List ℕ
  pub failure_message : RawResponse → Text

-- The lifetimes assumed where a response gives none.
pub record CacheFallbacks : Type 0 where
  pub capabilities : ℕ
  pub collection : ℕ
  pub offering : ℕ
  pub schema : ℕ
  pub search : ℕ
  pub service_document : ℕ

abbrev pub default_fallbacks : CacheFallbacks
default_fallbacks = record {
  capabilities = from_secs (60 * 60);
  collection = from_secs (60 * 60);
  offering = from_secs (5 * 60);
  schema = from_secs (24 * 60 * 60);
  search = 0;
  service_document = from_secs (4 * 60 * 60);
}

pub record ServiceClient (W C : Type 0) : Type 0 where
  pub accept_language : Option Text
  pub cache : CacheOps C
  pub cache_fallbacks : CacheFallbacks
  pub cache_partition : Text
  pub service_origin : Text
  pub supporting_transport : Transport W
  pub transport : Transport W

unfoldable pub cache_key : Libs → {W C : Type 0} → ServiceClient W C → Text → Text → Text → Text
cache_key libs client method target body =
    client.cache_partition
    ++ text "\n"
    ++ method
    ++ text "\n"
    ++ target
    ++ text "\n"
    ++ or_default client.accept_language
    ++ text "\n"
    ++ sha256_hex libs.sha256 body

unfoldable pub request_key :
    Libs → {W C : Type 0} → ServiceClient W C → Text → Text → Text → ℕ → Text
request_key libs client method target body fallback =
    cache_key libs client method target body ++ text "\n" ++ decimal fallback
