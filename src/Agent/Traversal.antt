-- ===== src/Agent/Traversal.antt =====
-- crates/odp-agent/src/client.rs: reading the pages of a list. The continuation of a page is a step
-- of the world `W`, the same for Collections and for Offerings.
pub mod Collected
pub mod Kept
mod Tests
use odp_rust.Prelude.{
  ℕ, zero, suc, ◌+◌, ◌-◌, Bool, true, false, ◌||◌, List, [], ◌∷◌, ◌++◌, Result, ok, err, refuse_if,
  ◌>>=◌, ◌>>◌, if◌then◌else◌, ltb, length, take, ◌==◌, nat_eq,
}
use odp_rust.Prelude.Text.{Text, text, is_empty}
use odp_rust.Agent.Redirects.{AgentError, invalid_request}

abbrev pub max_traversal_items : ℕ
max_traversal_items = 10_000

abbrev pub max_traversal_pages : ℕ
max_traversal_pages = 16

pub record TraversalOptions : Type 0 where
  pub max_items : ℕ
  pub max_pages : ℕ

unfoldable pub traversal_bounds : TraversalOptions → Result AgentError (ℕ × ℕ)
traversal_bounds options = do
  let maximum_items = if options.max_items == 0 then max_traversal_items else options.max_items
  let maximum_pages = if options.max_pages == 0 then max_traversal_pages else options.max_pages
  refuse_if (ltb max_traversal_items maximum_items || ltb max_traversal_pages maximum_pages)
      (invalid_request (text "traversal exceeds 10000 items or 16 pages"))
  ok (maximum_items, maximum_pages)

-- What the loop reads of a `Page` or an `OfferingPage`.
pub record Sheet (T : Type 0) : Type 0 where
  pub items : List T
  pub next : Text

module _ {T W : Type 0} (continue_with : Text → W → Result AgentError (Sheet T) × W) where
  -- The loop over the pages that are left, with what was collected before.
  unfoldable pub collect_from : ℕ → ℕ → List T → Sheet T → W → Result AgentError (List T) × W
  collect_from zero maximum_items result page w = (ok result, w)
  collect_from (suc pages) maximum_items result page w =
      let result' = result ++ take (maximum_items - length result) page.items in
      elim (length result' == maximum_items || is_empty page.next) [
        | true ↦ (ok result', w)
        | false ↦ elim pages [
          | zero ↦ (ok result', w)
          | suc more ↦
              let (continued, w') = continue_with page.next w in
              elim continued [
                | err e ↦ (err e, w')
                | ok page' ↦ collect_from pages maximum_items result' page' w'
              ]
        ]
      ]

  unfoldable pub collect : Sheet T → TraversalOptions → W → Result AgentError (List T) × W
  collect page options w = elim (traversal_bounds options) [
    | err e ↦ (err e, w)
    | ok bounds ↦ collect_from bounds.1 bounds.0 [] page w
  ]
