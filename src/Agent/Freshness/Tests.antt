-- ===== src/Agent/Freshness/Tests.antt =====
-- The lifetimes at concrete header fields.
use mathlib.Core.Option
use odp_rust.Prelude.{ℕ, ◌↔◌, ◌<◌, ◌≡◌, refl, true, false, ◌⊎◌, none, Option, [], ◌∷◌}
use odp_rust.Prelude.Text.{
  Text, text, text_beq, split, split_once, trim, trim_start_matches, trim_end_matches,
}
use odp_rust.Prelude.Maps.{Map, lookup, insert, contains_key}
use odp_rust.Prelude.Numbers.{parse_u64}
use odp_rust.Agent.Cache.{CacheRecord}
use odp_rust.Agent.Freshness.{
  directive, cache_directives, no_store, explicit_freshness, has_freshness, supported_vary,
  cacheable, age_seconds, expiration, revalidated_expiration,
}
use odp_rust.Agent.Freshness.Lifetimes.{VariesOnKeyed, cacheable_iff}

freshness : Unit {0}
unfolding directive cache_directives no_store explicit_freshness has_freshness supported_vary
    cacheable age_seconds expiration revalidated_expiration text_beq split split_once trim
    trim_start_matches trim_end_matches lookup insert parse_u64 Option.bind
freshness = tt

abbrev minute : Map Text
minute = (text "cache-control", text "Public, Max-Age=\"60\"") ∷ (text "age", text " 15 ") ∷ []

abbrev no_dates : Text → Option ℕ
no_dates value = none

parsed :
    (cache_directives minute ≡ (text "public", []) ∷ (text "max-age", text "60") ∷ [])
    × (cacheable (text "POST") minute 0 ≡ true)
    × (cacheable (text "POST") [] 300 ≡ false)
unfolding freshness
parsed = (refl, refl, refl)

abbrev varied : Map Text
varied = (text "vary", text "Accept-Language, ACCEPT,") ∷ minute

cacheable_iff_example : (cacheable (text "POST") varied 0 ≡ true) ↔ (
    ((text "POST" ≡ text "GET") ⊎ (text "POST" ≡ text "POST"))
    × (contains_key (text "no-store") (cache_directives varied) ≡ false)
    × VariesOnKeyed (lookup (text "vary") varied)
    × (((contains_key (text "max-age") (cache_directives varied) ≡ true)
          ⊎ (contains_key (text "expires") varied ≡ true))
        ⊎ ((text "POST" ≡ text "GET")
            × ((0 < 0) ⊎ (contains_key (text "no-cache") (cache_directives varied) ≡ true)))))
cacheable_iff_example = cacheable_iff (text "POST") varied 0

-- Stored, unless it varies on a field that the key ignores.
varies :
    (cacheable (text "POST") varied 0 ≡ true)
    × (cacheable (text "POST") ((text "vary", text "Cookie") ∷ minute) 0 ≡ false)
unfolding freshness
varies = (refl, refl)

abbrev revalidate : Map Text
revalidate = (text "cache-control", text "no-cache, max-age=60") ∷ []

stale : expiration no_dates 1_000 revalidate 5 7 ≡ 7
unfolding freshness
stale = refl

abbrev cached : CacheRecord
cached = record {
  body = [];
  etag = none;
  expires_at = 30;
  final_url = [];
  last_modified = none;
  status = 200;
  stored_at = 10;
}
