-- ===== src/Agent/Freshness/Lifetimes.antt =====
-- The lifetimes that client.rs grants.
use mathlib.Core.Option
use odp_rust.Prelude.{
  ℕ, All, all_iff, ◌↔◌, refl, none, Option-cases, ◌+◌, ◌-◌, ◌*◌, ◌≤◌, ◌<◌, ◌≡◌, true, false, Option,
  some, arith, ◌⊎◌, nat_eq, inl, inr,
}
use odp_rust.Prelude.Text.{Text, text, text_eq, text_eq_iff, to_ascii_lowercase, trim, split}
use odp_rust.Prelude.Maps.{Map, lookup, contains_key}
use odp_rust.Prelude.Numbers.{parse_u64}
use odp_rust.Agent.Cache.{CacheRecord}
use odp_rust.Agent.Freshness.{
  cache_directives, no_store, explicit_freshness, has_freshness, supported_vary, is_supported_name,
  cacheable, age_seconds, expiration, revalidated_expiration,
}

-- A name that a `vary` field may have: of a field that the key of the cache covers, or empty.
abbrev pub IsKeyed : Text → Type 0
IsKeyed name =
    (to_ascii_lowercase (trim name) ≡ text "")
    ⊎ ((to_ascii_lowercase (trim name) ≡ text "accept")
        ⊎ ((to_ascii_lowercase (trim name) ≡ text "accept-language")
            ⊎ (to_ascii_lowercase (trim name) ≡ text "content-type")))

-- Every name of a `vary` field, where there is one.
abbrev pub VariesOnKeyed : Option Text → Type 0
VariesOnKeyed none = Unit
VariesOnKeyed (some value) = All IsKeyed (split 44 value)

is_supported_name_iff : (name : Text) → (is_supported_name name ≡ true) ↔ IsKeyed name
is_supported_name_iff name =
    let folded = to_ascii_lowercase (trim name) in
    ground (
      arith,
      text_eq_iff folded (text ""),
      text_eq_iff folded (text "accept"),
      text_eq_iff folded (text "accept-language"),
      text_eq_iff folded (text "content-type"),
    )

supported_vary_iff :
    (headers : Map Text)
    → (supported_vary headers ≡ true) ↔ VariesOnKeyed (lookup (text "vary") headers)
unfolding supported_vary
supported_vary_iff headers = elim (Option-cases (lookup (text "vary") headers)) [
  | inl e ↦ rw (supported_vary, e) ((λ h. tt), (λ u. refl))
  | inr (value, e) ↦ rw (supported_vary, e) (all_iff is_supported_name_iff (split 44 value))
]

-- A response is stored exactly where it was asked for by GET or POST, has no `no-store`, its `vary`
-- names no other field than `accept`, `accept-language` and `content-type`, in any case, and it has
-- a `max-age` or an `expires`, or was asked for by GET and has a fallback lifetime or a `no-cache`.
pub cacheable_iff :
    (method : Text) (headers : Map Text) (fallback : ℕ)
    → (cacheable method headers fallback ≡ true) ↔ (
        ((method ≡ text "GET") ⊎ (method ≡ text "POST"))
        × (contains_key (text "no-store") (cache_directives headers) ≡ false)
        × VariesOnKeyed (lookup (text "vary") headers)
        × (((contains_key (text "max-age") (cache_directives headers) ≡ true)
              ⊎ (contains_key (text "expires") headers ≡ true))
            ⊎ ((method ≡ text "GET")
                × ((0 < fallback)
                    ⊎ (contains_key (text "no-cache") (cache_directives headers) ≡ true)))))
unfolding cacheable no_store explicit_freshness
cacheable_iff method headers fallback = ground (
  arith,
  supported_vary_iff headers,
  text_eq_iff method (text "GET"),
  text_eq_iff method (text "POST"),
)

-- The `max-age` of a response in seconds, where it is a number.
abbrev pub max_age : Map Text → Option ℕ
max_age headers = Option.bind (lookup (text "max-age") (cache_directives headers)) parse_u64

module _ (parse_http_date : Text → Option ℕ) (time_limit : ℕ) where
  -- With a `max-age` and no `no-cache`, and where the time can be held, a response is fresh for its
  -- `max-age` less its `age`, in nanoseconds, whatever its `expires` and the fallback are.
  pub expiration-max_age :
      (headers : Map Text) (fallback now seconds : ℕ)
      → contains_key (text "no-cache") (cache_directives headers) ≡ false
      → max_age headers ≡ some seconds
      → now + seconds * 1_000_000_000 ≤ time_limit
      → expiration parse_http_date time_limit headers fallback now
        ≡ now + (seconds - age_seconds headers) * 1_000_000_000
  unfolding expiration
  expiration-max_age headers fallback now seconds fresh found fits =
      rw (fresh, found) (ground arith)

  -- A response with `no-cache`, or one that is as old as its `max-age`, is stale at once.
  pub expiration_stale :
      (headers : Map Text) (fallback now : ℕ)
      → (contains_key (text "no-cache") (cache_directives headers) ≡ true)
        ⊎ ((seconds : ℕ) × (max_age headers ≡ some seconds) × (seconds ≤ age_seconds headers))
      → expiration parse_http_date time_limit headers fallback now ≡ now
  unfolding expiration
  expiration_stale headers fallback now (inl revalidate) = rw revalidate
  expiration_stale headers fallback now (inr (seconds, found, old)) = rw found (ground arith)

  -- A revalidation that says nothing about freshness renews the lifetime that the record had, where
  -- the time can be held.
  pub revalidated_expiration_renews :
      (headers : Map Text) (cached : CacheRecord) (fallback now : ℕ)
      → has_freshness headers ≡ false
      → now + (cached.expires_at - cached.stored_at) ≤ time_limit
      → revalidated_expiration parse_http_date time_limit headers cached fallback now
        ≡ now + (cached.expires_at - cached.stored_at)
  unfolding revalidated_expiration
  revalidated_expiration_renews headers cached fallback now silent fits = rw silent (ground arith)
