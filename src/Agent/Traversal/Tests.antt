-- ===== src/Agent/Traversal/Tests.antt =====
-- A list of numbers over two pages.
use odp_rust.Prelude.{ℕ, suc, ◌≡◌, ◌≤◌, ◌⊎◌, refl, true, List, [], ◌∷◌, ok, Result, length, take}
use odp_rust.Prelude.Text.{Text, text}
use odp_rust.Agent.Redirects.{AgentError}
use odp_rust.Agent.Traversal.{
  Sheet, TraversalOptions, traversal_bounds, collect_from, collect, max_traversal_items,
  max_traversal_pages,
}
use odp_rust.Agent.Traversal.Collected.{Chain, all_items, has_end, collect_inv}

-- The world counts the requests.
abbrev continues : Text → ℕ → Result AgentError (Sheet ℕ) × ℕ
continues next sent = (ok (record { items = 4 ∷ 5 ∷ []; next = [] }), suc sent)

abbrev first : Sheet ℕ
first = record { items = 1 ∷ 2 ∷ 3 ∷ []; next = text "/offerings?cursor=b" }

abbrev four : TraversalOptions
four = record { max_items = 4; max_pages = 0 }

collects : collect continues first four 0 ≡ (ok (1 ∷ 2 ∷ 3 ∷ 4 ∷ []), 1)
unfolding traversal_bounds collect_from collect
collects = refl

collect_inv_example :
    (bounds : ℕ × ℕ) × (traversal_bounds four ≡ ok bounds)
    × (bounds.0 ≤ max_traversal_items)
    × (bounds.1 ≤ max_traversal_pages)
    × (sheets : List (Sheet ℕ)) × Chain continues first 0 sheets 1
    × ((1 ∷ 2 ∷ 3 ∷ 4 ∷ []) ≡ take bounds.0 (all_items sheets))
    × (length sheets ≤ bounds.1)
    × ((4 ≡ bounds.0) ⊎ (has_end sheets ≡ true) ⊎ (length sheets ≡ bounds.1))
collect_inv_example = collect_inv continues first four 0 1 (1 ∷ 2 ∷ 3 ∷ 4 ∷ []) collects
