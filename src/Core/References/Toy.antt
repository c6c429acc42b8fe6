-- ===== src/Core/References/Toy.antt =====
-- A small URL library for the tests: HTTPS URLs without credentials, fragment and port.
use odp_rust.Prelude.{none, some, ◌++◌, [], Result, ok, err}
use odp_rust.Prelude.Text.{Text, text, strip_prefix, split_once}
use odp_rust.Core.References.Url.{domain, UrlLib}

pub record ToyUrl : Type 0 where
  pub authority : Text
  pub spelling : Text

unfoldable pub authority_of : Text → Text
authority_of rest = elim (split_once 47 rest) [ none ↦ rest | some p ↦ p.0 ]

unfoldable pub toy_parse : Text → Result Text ToyUrl
unfolding authority_of strip_prefix split_once
toy_parse value = elim (strip_prefix (text "https://") value) [
  | none ↦ err (text "relative URL without a base")
  | some rest ↦ ok (record { authority = authority_of rest; spelling = value })
]

unfoldable pub toy_join : ToyUrl → Text → Result Text ToyUrl
unfolding toy_parse
toy_join base reference = elim (strip_prefix (text "/") reference) [
  | none ↦ toy_parse reference
  | some rest ↦ ok (record {
    authority = base.authority;
    spelling = text "https://" ++ (base.authority ++ reference);
  })
]

abbrev pub toy : UrlLib
toy = record {
  Url = ToyUrl;
  parse = toy_parse;
  join = toy_join;
  username = λ u. [];
  password = λ u. none;
  fragment = λ u. none;
  host = λ u. some (domain u.authority);
  scheme = λ u. text "https";
  origin = λ u. text "https://" ++ u.authority;
  as_str = λ u. u.spelling;
}
