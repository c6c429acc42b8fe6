-- ===== src/Service/Queries/Continued.antt =====
-- crates/odp-service/src/service.rs: the query of a continuation is read back as it was written.
use odp_rust.Prelude.{
  ℕ, ◌+◌, ◌*◌, ◌/◌, ◌%◌, ◌≡◌, ◌≤◌, ◌<◌, refl, ◌∙◌, ap, sym, subst, some, List, [], ◌∷◌, ok, arith,
  ltb, Bool-cases, inl, inr,
}
use odp_rust.Prelude.Text.{Text, text, text_beq}
use odp_rust.Prelude.Maps.{lookup, insert}
use odp_rust.Prelude.Numbers.{digits_from, parse_u64, digits_onto, decimal}
use odp_rust.Core.Models.{terse, full, Representation}
use odp_rust.Service.Requests.{Request, CatalogRequest}
use odp_rust.Service.Cursors.{cursor_pairs, representation_name}
use odp_rust.Service.Queries.{
  group_parameters, refuse_repeated, read_representation, read_limit, catalog_request,
}

-- The digits of a number below a hundred are read back.
decimal_digit : (n : ℕ) → n < 10 → decimal n ≡ (48 + n) ∷ []
unfolding decimal digits_onto
decimal_digit n le = ground arith

decimal_digits : (n : ℕ) → 10 ≤ n → n < 100 → decimal n ≡ (48 + n / 10) ∷ ((48 + n % 10) ∷ [])
unfolding decimal digits_onto
decimal_digits n le lt = ground arith

parse_digit : (n : ℕ) → n < 10 → parse_u64 ((48 + n) ∷ []) ≡ some n
unfolding parse_u64 digits_from
parse_digit n lt = ground arith

parse_digits :
    (a b : ℕ) → a < 10 → b < 10 → parse_u64 ((48 + a) ∷ ((48 + b) ∷ [])) ≡ some (a * 10 + b)
unfolding parse_u64 digits_from
parse_digits a b lt lt' = ground arith

pub parse_u64-decimal : (n : ℕ) → n ≤ 100 → parse_u64 (decimal n) ≡ some n
unfolding parse_u64 decimal digits_from digits_onto
parse_u64-decimal n le = elim (Bool-cases (ltb n 10)) [
  | inl small ↦ ap parse_u64 (decimal_digit n (ground arith)) ∙ parse_digit n (ground arith)
  | inr large ↦ elim (Bool-cases (ltb n 100)) [
    | inl two ↦
        let lt : n < 100 = ground arith in
        let written = decimal_digits n (ground arith) lt in
        ap parse_u64 written
        ∙ (parse_digits (n / 10) (n % 10) (omega arith) (omega arith) ∙ ap some (omega arith))
    | inr three ↦
        let e : n ≡ 100 = ground arith in subst (λ m. parse_u64 (decimal m) ≡ some m) (sym e) refl
  ]
]

read_limit-decimal : (n : ℕ) → 0 < n → n ≤ 100 → read_limit (some (decimal n)) ≡ ok n
unfolding read_limit
read_limit-decimal n lt le = ground (arith, parse_u64-decimal n le)

read_representation-name :
    (request : CatalogRequest)
    → read_representation (some (representation_name request)) ≡ ok request.representation
unfolding read_representation representation_name text_beq
read_representation-name request =
    elim request.representation
      as (λ r.
        read_representation (some (representation_name (record request { representation = r })))
        ≡ ok r) [ terse ↦ refl | full ↦ refl ]

abbrev pub asked : Request → Text → Text → ℕ → Representation → CatalogRequest
asked sent language cursor limit representation = record {
  accept_language = lookup (text "accept-language") sent.headers;
  cursor = some cursor;
  language = language;
  limit = limit;
  path = sent.path;
  representation = representation;
}

module _ (parse_query : Text → List (Text × Text)) (sent : Request) (language cursor : Text)
    (limit : ℕ) where
  -- The query of a continuation asks for what it was issued for.
  pub catalog_request-cursor_pairs :
      (request : CatalogRequest)
      → parse_query sent.query ≡ cursor_pairs request limit cursor
      → 0 < limit
      → limit ≤ 100
      → catalog_request parse_query sent language
        ≡ ok (asked sent language cursor limit request.representation)
  unfolding catalog_request group_parameters lookup insert text_beq refuse_repeated
  catalog_request-cursor_pairs request parsed lt le =
      rw (parsed, read_limit-decimal limit lt le, read_representation-name request) refl

-- What a request may ask for is bounded.
pub catalog_request_bound :
    (parse_query : Text → List (Text × Text)) (sent : Request) (language : Text)
    (request : CatalogRequest)
    → catalog_request parse_query sent language ≡ ok request
    → request.limit ≤ 100
unfolding catalog_request read_limit
catalog_request_bound parse_query sent language request h = ground arith
