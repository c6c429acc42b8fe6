-- ===== src/Service/Hierarchy/Fuel.antt =====
-- crates/odp-service/src/static_catalog.rs: the fuel of a visit is never what stops it.
use odp_rust.Prelude.{
  ℕ, zero, suc, ◌+◌, ◌≡◌, ◌≤◌, max, refl, List, [], ◌∷◌, err, length, Result-cases, Option-cases,
  inl, inr, arith, subst, sym,
}
use odp_rust.Prelude.Text.{Text}
use odp_rust.Prelude.Maps.{Map, lookup}
use odp_rust.Core.Documents.Resources.{Collection}
use odp_rust.Service.Hierarchy.{
  Visit, parents_depth, visit_collection, collection_depth, hierarchy_cycle,
}
use odp_rust.Service.Hierarchy.Depths.{KeepsVisiting, collection_depth-visiting}

-- Two visits answer alike while a set of Collections is being visited.
abbrev Alike : Visit → Visit → List Text → Type 0
Alike visit visit' visiting =
    (id : Text) (depths : Map ℕ) → visit id depths visiting ≡ visit' id depths visiting

module _ (visit visit' : Visit) (keeps : KeepsVisiting visit') where
  parents_depth-Alike :
      (parents : List Text) (depth : ℕ) (depths : Map ℕ) (visiting : List Text)
      → Alike visit visit' visiting
      → parents_depth visit parents depth depths visiting
        ≡ parents_depth visit' parents depth depths visiting
  unfolding parents_depth
  parents_depth-Alike [] depth depths visiting alike = refl
  parents_depth-Alike (p ∷ ps) depth depths visiting alike =
      elim (Result-cases (visit' p depths visiting)) [
        | inl (s, e) ↦
            let alike' = subst (Alike visit visit') (sym (keeps p depths visiting s e)) alike in
            let rest = parents_depth-Alike ps (max depth (1 + s.0)) s.1 s.2 alike' in
            rw (alike p depths, e) rest
        | inr (error, e) ↦ rw (alike p depths, e) refl
      ]

  visit_collection-Alike :
      (collections : Map Collection) (id : Text) (depths : Map ℕ) (visiting : List Text)
      → Alike visit visit' (id ∷ visiting)
      → visit_collection visit collections id depths visiting
        ≡ visit_collection visit' collections id depths visiting
  unfolding visit_collection
  visit_collection-Alike collections id depths visiting alike =
      elim (Option-cases (lookup id collections)) [
        | inl missing ↦ rw missing refl
        | inr (c, found) ↦
            rw (found, parents_depth-Alike c.parent_ids 0 depths (id ∷ visiting) alike) refl
      ]

full_visit :
    (visit : Visit) (collections : Map Collection) (id : Text) (depths : Map ℕ)
    (visiting : List Text)
    → 33 ≤ length visiting
    → visit_collection visit collections id depths visiting ≡ err hierarchy_cycle
unfolding visit_collection
full_visit visit collections id depths visiting full = ground arith

-- More fuel than what the limit on the Collections being visited leaves changes no visit: the
-- recursion of the source is bounded by that limit and the model never stops before it.
pub collection_depth_fuel :
    (fuel : ℕ) (collections : Map Collection) (id : Text) (depths : Map ℕ) (visiting : List Text)
    → 33 ≤ fuel + length visiting
    → collection_depth (suc fuel) collections id depths visiting
      ≡ collection_depth fuel collections id depths visiting
unfolding collection_depth
collection_depth_fuel zero collections id depths visiting enough =
    elim (Option-cases (lookup id depths)) [
      | inl missing ↦
          rw
            (
              collection_depth,
              missing,
              full_visit (collection_depth zero collections) collections id depths visiting
                  (omega arith),
            )
            refl
      | inr (depth, found) ↦ rw (collection_depth, found) refl
    ]
collection_depth_fuel (suc fuel) collections id depths visiting enough =
    let alike : Alike (collection_depth (suc fuel) collections) (collection_depth fuel collections)
        (id ∷ visiting) =
      λ p ds. collection_depth_fuel fuel collections p ds (id ∷ visiting) (omega arith) in
    elim (Option-cases (lookup id depths)) [
      | inl missing ↦
          rw
            (
              collection_depth,
              missing,
              visit_collection-Alike (collection_depth (suc fuel) collections)
                  (collection_depth fuel collections) (collection_depth-visiting fuel collections)
                  collections id depths visiting alike,
            )
            refl
      | inr (depth, found) ↦ rw (collection_depth, found) refl
    ]
