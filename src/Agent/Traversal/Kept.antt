-- ===== src/Agent/Traversal/Kept.antt =====
-- crates/odp-agent/src/client.rs: what the pages that are read keep of the world.
use odp_rust.Prelude.{
  ℕ, zero, suc, ◌+◌, ◌*◌, ◌≤◌, arith, ◌-◌, ◌++◌, ◌||◌, List, [], Result, Result-cases, Bool-cases,
  inl, inr, length, take, ◌==◌, nat_eq,
}
use odp_rust.Prelude.Text.{Text, is_empty}
use odp_rust.Agent.Redirects.{AgentError}
use odp_rust.Agent.Traversal.Collected.{traversal_bounds_inv}
use odp_rust.Agent.Traversal.{Sheet, TraversalOptions, traversal_bounds, collect_from, collect}

module _ {T W : Type 0} (continue_with : Text → W → Result AgentError (Sheet T) × W)
    (K : W → Type 0) (keep : (next : Text) (w : W) → K w → K (continue_with next w).1) where
  collect_from-Keeps :
      (pages maximum : ℕ) (result : List T) (page : Sheet T) (w : W)
      → K w
      → K (collect_from continue_with pages maximum result page w).1
  unfolding collect_from
  collect_from-Keeps zero maximum result page w k = k
  collect_from-Keeps (suc zero) maximum result page w k =
      let result' = result ++ take (maximum - length result) page.items in
      elim (Bool-cases (length result' == maximum || is_empty page.next)) [
        | inl done ↦ rw (collect_from, done) k
        | inr onward ↦ rw (collect_from, onward) k
      ]
  collect_from-Keeps (suc (suc more)) maximum result page w k =
      let result' = result ++ take (maximum - length result) page.items in
      let k' = keep page.next w k in
      elim (Bool-cases (length result' == maximum || is_empty page.next)) [
        | inl done ↦ rw (collect_from, done) k
        | inr onward ↦ elim (Result-cases (continue_with page.next w).0) [
          | inr (e, failed) ↦ rw (collect_from, onward, failed) k'
          | inl (page', found) ↦
              rw (collect_from, onward, found)
                (collect_from-Keeps (suc more) maximum result' page' (continue_with page.next w).1
                  k')
        ]
      ]

  pub collect-Keeps :
      (page : Sheet T) (options : TraversalOptions) (w : W)
      → K w
      → K (collect continue_with page options w).1
  unfolding collect
  collect-Keeps page options w k = elim (Result-cases (traversal_bounds options)) [
    | inr (e, refused) ↦ rw (collect, refused) k
    | inl (bounds, given) ↦ rw (collect, given) (collect_from-Keeps bounds.1 bounds.0 [] page w k)
  ]

-- How many requests the pages take that are asked for, where one takes at most six.
module _ {T W : Type 0} (continue_with : Text → W → Result AgentError (Sheet T) × W) (count : W → ℕ)
    (step : (next : Text) (w : W) → count (continue_with next w).1 ≤ count w + 6) where
  collect_from_bound :
      (pages maximum : ℕ) (result : List T) (page : Sheet T) (w : W)
      → count (collect_from continue_with pages maximum result page w).1 ≤ count w + (pages - 1) * 6
  unfolding collect_from
  collect_from_bound zero maximum result page w = omega arith
  collect_from_bound (suc zero) maximum result page w =
      let result' = result ++ take (maximum - length result) page.items in
      elim (Bool-cases (length result' == maximum || is_empty page.next)) [
        | inl done ↦ rw (collect_from, done) (omega arith)
        | inr onward ↦ rw (collect_from, onward) (omega arith)
      ]
  collect_from_bound (suc (suc more)) maximum result page w =
      let result' = result ++ take (maximum - length result) page.items in
      let w' = (continue_with page.next w).1 in
      let asked = step page.next w in
      elim (Bool-cases (length result' == maximum || is_empty page.next)) [
        | inl done ↦ rw (collect_from, done) (omega arith)
        | inr onward ↦ elim (Result-cases (continue_with page.next w).0) [
          | inr (e, failed) ↦ rw (collect_from, onward, failed) (omega arith)
          | inl (page', found) ↦
              let rest = collect_from_bound (suc more) maximum result' page' w' in
              rw (collect_from, onward, found) (omega arith)
        ]
      ]

  -- At most sixteen pages are read, the first of which is given.
  pub collect_bound :
      (page : Sheet T) (options : TraversalOptions) (w : W)
      → count (collect continue_with page options w).1 ≤ count w + 90
  unfolding collect
  collect_bound page options w = elim (Result-cases (traversal_bounds options)) [
    | inr (e, refused) ↦ rw (collect, refused) (omega arith)
    | inl (bounds, given) ↦
        let (_, below, _) = traversal_bounds_inv options bounds given in
        let total = collect_from_bound bounds.1 bounds.0 [] page w in
        rw (collect, given) (omega arith)
  ]
