-- ===== src/Directory/Client.antt =====
-- crates/odp-directory/src/client.rs: the continuations of a search and the walk over its pages. How
-- a page is fetched is a step of the world `W`.
pub mod Walks
mod Tests
use odp_rust.Prelude.{
  ℕ, zero, suc, ◌+◌, ◌-◌, ◌^◌, Bool, true, false, not, ◌||◌, Option, none, some, List, [], ◌∷◌,
  ◌++◌, Result, ok, err, ◌>>=◌, ◌>>◌, map_err, refuse_if, if◌then◌else◌, ltb, leb, length, take,
  ◌==◌, nat_eq,
}
use odp_rust.Prelude.Text.{Text, text, text_eq, is_empty, trim}
use odp_rust.Prelude.Maps.{Map}
use odp_rust.Prelude.Numbers.{decimal}
use odp_rust.Core.References.{is_some}
use odp_rust.Core.References.Url.{UrlLib}
use odp_rust.Core.Validation.Rules.{contains_name}
use odp_rust.Directory.Transport.{TransportError}

pub data DirectoryError : Type 0 where
  transport_error : TransportError → DirectoryError
  invalid_request invalid_response : Text → DirectoryError
  request_error : Map Text → Text → ℕ → DirectoryError

pub data Environment : Type 0 where
  production sandbox : Environment

unfoldable pub environment_origin : Environment → Text
environment_origin production = text "https://directory.offeringprotocol.org"
environment_origin sandbox = text "https://sandbox.inflowpay.ai"

abbrev pub maximum_traversal : ℕ
maximum_traversal = 10_000

abbrev pub maximum_pages : ℕ
maximum_pages = 16

unfoldable pub bounded : ℕ → ℕ → Text → Result DirectoryError ℕ
bounded value maximum name = do
  let chosen = if value == 0 then maximum else value
  refuse_if (ltb maximum chosen)
      (invalid_request (name ++ text " must be from 1 through " ++ decimal maximum))
  ok chosen

pub record IterationOptions : Type 0 where
  pub max_items : ℕ
  pub max_pages : ℕ

-- What the walk reads of a `SearchPage`.
pub record PageOf (T : Type 0) : Type 0 where
  pub items : List T
  pub next : Text

-- How many pages may follow the first one.
unfoldable pub traversal_limits : IterationOptions → Result DirectoryError ℕ
traversal_limits options = do
  pages ← bounded options.max_pages maximum_pages (text "max_pages")
  items ← bounded options.max_items maximum_traversal (text "max_items")
  ok (pages - 1)

-- `flat_map(|page| page.items)`
unfoldable pub flat_items : {T : Type 0} → List (PageOf T) → List T
flat_items [] = []
flat_items (page ∷ pages) = page.items ++ flat_items pages

module _ (url_lib : UrlLib) (environment : Environment) where
  open url_lib use {Url, parse, join, username, password, origin, as_str}

  unfoldable pub continuation_url : Text → Result DirectoryError Url
  continuation_url next = do
    refuse_if (is_empty (trim next)) (invalid_request (text "Directory continuation is empty"))
    base ← map_err invalid_response (parse (environment_origin environment))
    target ← map_err invalid_response (join base next)
    refuse_if
        (not (origin target == origin base)
          || not (is_empty (username target))
          || is_some (password target))
        (invalid_response (text "Directory continuation changed canonical origin"))
    ok target

  module _ {T W : Type 0} (request_page : Url → W → Result DirectoryError (PageOf T) × W) where
    -- The loop: how many pages may follow this one, the targets visited, and the items so far.
    unfoldable pub traverse_from :
        ℕ → ℕ → List Text → ℕ → PageOf T → W → Result DirectoryError (List (PageOf T)) × W
    traverse_from maximum_items zero visited items page w = (ok (page ∷ []), w)
    traverse_from maximum_items (suc left) visited items page w =
        let items' = items + length page.items in
        elim (is_empty page.next || leb maximum_items items') [
          | true ↦ (ok (page ∷ []), w)
          | false ↦ elim (continuation_url page.next) [
            | err e ↦ (err e, w)
            | ok target ↦ elim (contains_name visited (as_str target)) [
              | true ↦ (err (invalid_response (text "Directory pagination loop detected")), w)
              | false ↦
                  let (fetched, w') = request_page target w in
                  elim fetched [
                    | err e ↦ (err e, w')
                    | ok page' ↦
                        let (rest, w'') =
                          traverse_from maximum_items left (as_str target ∷ visited) items' page'
                            w' in
                        (rest >>= (λ pages. ok (page ∷ pages)), w'')
                  ]
            ]
          ]
        ]

    -- `search_services` is how the first page is fetched.
    module _ (search_services : W → Result DirectoryError (PageOf T) × W) where
      unfoldable pub traverse :
          IterationOptions → ℕ → W → Result DirectoryError (List (PageOf T)) × W
      traverse options maximum_items w = elim (traversal_limits options) [
        | err e ↦ (err e, w)
        | ok left ↦
            let (fetched, w') = search_services w in
            elim fetched [
              | err e ↦ (err e, w')
              | ok page ↦ traverse_from maximum_items left [] 0 page w'
            ]
      ]

      -- `usize::MAX` items.
      unfoldable pub search_pages :
          IterationOptions → W → Result DirectoryError (List (PageOf T)) × W
      search_pages options = traverse options (2 ^ 64 - 1)

      unfoldable pub collect_services : IterationOptions → W → Result DirectoryError (List T) × W
      collect_services options w =
          elim (bounded options.max_items maximum_traversal (text "max_items")) [
            | err e ↦ (err e, w)
            | ok maximum_items ↦
                let (pages, w') = traverse options maximum_items w in
                (pages >>= (λ found. ok (take maximum_items (flat_items found))), w')
          ]
