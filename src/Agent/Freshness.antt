-- ===== src/Agent/Freshness.antt =====
-- crates/odp-agent/src/client.rs: how long a response may be reused. Times and durations are counts
-- of nanoseconds. `parse_http_date` is the httpdate crate's, and `time_limit` is the last time that
-- a `SystemTime` can hold.
pub mod Lifetimes
mod Tests
use mathlib.Core.Option
use mathlib.Core.List.{foldl}
use odp_rust.Prelude.{
  ℕ, ◌+◌, ◌-◌, ◌*◌, Bool, true, false, not, ◌&&◌, ◌||◌, Option, none, some, List, [], ◌∷◌, map,
  ◌==◌, nat_eq, leb, ltb, all, retain, if◌then◌else◌,
}
use odp_rust.Prelude.Text.{
  Text, text, text_eq, text_beq, is_empty, split, split_once, trim, trim_start_matches,
  trim_end_matches, to_ascii_lowercase,
}
use odp_rust.Prelude.Maps.{Map, lookup, contains_key, insert}
use odp_rust.Prelude.Numbers.{parse_u64}
use odp_rust.Agent.Cache.{CacheRecord}

abbrev pub from_secs : ℕ → ℕ
from_secs s = s * 1_000_000_000

-- `name=setting`, the name in lower case and the setting without its quotes.
unfoldable pub directive : Text → Text × Text
directive value = elim (split_once 61 value) [
  | none ↦ (to_ascii_lowercase value, [])
  | some p ↦ (to_ascii_lowercase p.0, trim_end_matches 34 (trim_start_matches 34 p.1))
]

-- `collect`: a later directive of one name replaces an earlier one.
abbrev pub collect : List (Text × Text) → Map Text
collect = foldl (λ m p. insert p.0 p.1 m) []

unfoldable pub cache_directives : Map Text → Map Text
cache_directives headers = elim (lookup (text "cache-control") headers) [
  | none ↦ []
  | some value ↦
      collect (map directive (retain (λ v. not (is_empty v)) (map trim (split 44 value))))
]

unfoldable pub no_store : Map Text → Bool
no_store headers = contains_key (text "no-store") (cache_directives headers)

unfoldable pub explicit_freshness : Map Text → Bool
explicit_freshness headers =
    contains_key (text "max-age") (cache_directives headers)
    || contains_key (text "expires") headers

unfoldable pub has_freshness : Map Text → Bool
has_freshness headers =
    let directives = cache_directives headers in
    contains_key (text "max-age") directives
    || contains_key (text "no-cache") directives
    || contains_key (text "no-store") directives
    || contains_key (text "expires") headers

abbrev pub is_supported_name : Text → Bool
is_supported_name name =
    let folded = to_ascii_lowercase (trim name) in
    folded == text ""
    || folded == text "accept"
    || folded == text "accept-language"
    || folded == text "content-type"

unfoldable pub supported_vary : Map Text → Bool
supported_vary headers = elim (lookup (text "vary") headers) [
  | none ↦ true
  | some value ↦ all is_supported_name (split 44 value)
]

unfoldable pub cacheable : Text → Map Text → ℕ → Bool
cacheable method headers fallback =
    if not (method == text "GET" || method == text "POST")
      || (not (supported_vary headers) || no_store headers)
    then false
    else (method == text "GET"
        && (not (fallback == 0) || contains_key (text "no-cache") (cache_directives headers)))
      || explicit_freshness headers

abbrev pub checked_add : ℕ → ℕ → ℕ → Option ℕ
checked_add time_limit now duration =
    if leb (now + duration) time_limit then some (now + duration) else none

-- `now.checked_add(duration).unwrap_or(now)`
abbrev pub after : ℕ → ℕ → ℕ → ℕ
after time_limit now duration = Option.get_or (checked_add time_limit now duration) now

-- The `age` field in seconds; none, or one that is no number, takes nothing off.
unfoldable pub age_seconds : Map Text → ℕ
age_seconds headers =
    Option.get_or (Option.bind (lookup (text "age") headers) (λ value. parse_u64 (trim value))) 0

module _ (parse_http_date : Text → Option ℕ) (time_limit : ℕ) where
  unfoldable pub expiration : Map Text → ℕ → ℕ → ℕ
  expiration headers fallback now =
      let directives = cache_directives headers in
      if contains_key (text "no-cache") directives
      then now
      else elim (Option.bind (lookup (text "max-age") directives) parse_u64) [
        | some seconds ↦ after time_limit now (from_secs seconds - from_secs (age_seconds headers))
        | none ↦ elim (Option.bind (lookup (text "expires") headers) parse_http_date) [
          | some expires ↦ expires
          | none ↦ after time_limit now fallback
        ]
      ]

  unfoldable pub revalidated_expiration : Map Text → CacheRecord → ℕ → ℕ → ℕ
  revalidated_expiration headers cached fallback now =
      if has_freshness headers
      then expiration headers fallback now
      else after time_limit now (cached.expires_at - cached.stored_at)
