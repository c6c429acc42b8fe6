-- ===== src/Service/Hierarchy/Accepted.antt =====
-- crates/odp-service/src/static_catalog.rs: which hierarchies of Collections are accepted.
use odp_rust.Prelude.{
  ℕ, zero, suc, ◌+◌, ◌≡◌, ◌≤◌, ◌↔◌, max, refl, sym, subst, true, false, not, List, [], ◌∷◌, some,
  ok, is_ok, length, retain, All, Bool-cases, Option-cases, Result-cases, inl, inr, arith, ◌==◌,
}
use odp_rust.Prelude.Text.{Text, text_eq, text_eq_iff, text_leb}
use odp_rust.Prelude.Maps.{Map, lookup, insert}
use odp_rust.Core.Documents.Resources.{Collection}
use odp_rust.Core.Validation.Rules.{contains_name}
use odp_rust.Service.Hierarchy.{
  Visited, Visit, parents_depth, visit_collection, collection_depth, insert_key, keys, visit_all,
  hierarchy_depths,
}
use odp_rust.Service.Hierarchy.Depths.{
  Height, Height-suc, Height-le, Known, KeepsVisiting, Finds, AllHeight, parents_depth-Exact,
  parents-Height, collection_depth-visiting, collection_depth-Finds,
}

All-contains :
    (P : Text → Type 0) (xs : List Text) (id : Text) → All P xs → contains_name xs id ≡ true → P id
All-contains P [] id h e = cc
All-contains P (x ∷ xs) id (p, h) e = elim (Bool-cases (x == id)) [
  | inl same ↦ subst P ((text_eq_iff x id).0 same) p
  | inr differ ↦ All-contains P xs id h (ground arith)
]

All-forall :
    (H : ℕ → Type 0) (Q : ℕ → Text → Type 0) (xs : List Text)
    → ((m : ℕ) → H m → All (Q m) xs)
    → All (λ x. (m : ℕ) → H m → Q m x) xs
All-forall H Q [] f = tt
All-forall H Q (x ∷ xs) f = ((λ m h. (f m h).0), All-forall H Q xs (λ m h. (f m h).1))

module _ (collections : Map Collection) where
  -- A Collection stands below another.
  abbrev Below : Text → Text → Type 0
  Below id above = (m : ℕ) → Height collections (suc m) above → Height collections m id

  Below-irreflexive : (n : ℕ) (id : Text) → Below id id → Height collections n id → ⊥
  Below-irreflexive zero id below h = h
  Below-irreflexive (suc n) id below h = Below-irreflexive n id below (below n h)

  Below-trans : (p id v : Text) → Below p id → Below id v → Below p v
  Below-trans p id v lower below zero h = absurd (below zero h)
  Below-trans p id v lower below (suc m) h = Height-suc collections m p (lower m (below (suc m) h))

  All-Below :
      (p id : Text) (visiting : List Text)
      → Below p id
      → All (Below id) visiting
      → All (Below p) visiting
  All-Below p id [] lower h = tt
  All-Below p id (v ∷ vs) lower (below, h) =
      (Below-trans p id v lower below, All-Below p id vs lower h)

  fresh_lem :
      (n : ℕ) (id : Text) (visiting : List Text)
      → Height collections n id
      → All (Below id) visiting
      → contains_name visiting id ≡ false
  fresh_lem n id visiting h below = elim (Bool-cases (contains_name visiting id)) [
    | inl found ↦
        absurd (Below-irreflexive n id (All-contains (Below id) visiting id below found) h)
    | inr fresh ↦ fresh
  ]

  parents-Below :
      (id : Text) (visiting : List Text)
      → All (Below id) visiting
      → (parents : List Text) → All (λ p. Below p id) parents
      → All (λ p. All (Below p) (id ∷ visiting)) parents
  parents-Below id visiting below [] h = tt
  parents-Below id visiting below (p ∷ ps) (lower, h) =
      ((lower, All-Below p id visiting lower below), parents-Below id visiting below ps h)

  -- A visit succeeds where the hierarchy under the Collection is low enough.
  abbrev Completes : ℕ → Visit → Type 0
  Completes fuel visit =
      (n : ℕ) (id : Text) (depths : Map ℕ) (visiting : List Text)
      → Known collections depths
      → Height collections (suc n) id
      → n + length visiting ≤ 32
      → 33 ≤ fuel + length visiting
      → All (Below id) visiting
      → (r : Visited) × (visit id depths visiting ≡ ok r)

  module _ (fuel : ℕ) (visit : Visit) (keeps : KeepsVisiting visit)
      (finds : Finds collections visit) (completes : Completes fuel visit) where
    parents_depth-completes :
        (n : ℕ) (parents : List Text) (depth : ℕ) (depths : Map ℕ) (visiting : List Text)
        → Known collections depths
        → AllHeight collections n parents
        → n + length visiting ≤ 33
        → 33 ≤ fuel + length visiting
        → All (λ p. All (Below p) visiting) parents
        → (r : Visited) × (parents_depth visit parents depth depths visiting ≡ ok r)
    unfolding parents_depth
    parents_depth-completes n [] depth depths visiting known heights low enough below =
        ((depth, depths, visiting), refl)
    parents_depth-completes zero (p ∷ ps) depth depths visiting known heights low enough below =
        absurd heights.0
    parents_depth-completes (suc n) (p ∷ ps) depth depths visiting known heights low enough below =
        let (s, e) = completes n p depths visiting known heights.0 (omega arith) enough below.0 in
        let rest =
          parents_depth-completes (suc n) ps (max depth (1 + s.0)) s.1 visiting
            (finds p depths visiting s known e).2 heights.1 low enough below.1 in
        let (r, e') =
          subst (λ v. (r : Visited) × (parents_depth visit ps (max depth (1 + s.0)) s.1 v ≡ ok r))
            (sym (keeps p depths visiting s e)) rest in
        (r, rw e e')

    visit_collection_intro :
        (id : Text) (depths : Map ℕ) (visiting : List Text) (c : Collection) (s : Visited)
        → length visiting ≤ 32
        → contains_name visiting id ≡ false
        → lookup id collections ≡ some c
        → parents_depth visit c.parent_ids 0 depths (id ∷ visiting) ≡ ok s
        → s.0 ≤ 32
        → visit_collection visit collections id depths visiting
          ≡ ok (s.0, insert id s.0 s.1, retain (λ name. not (name == id)) s.2)
    unfolding visit_collection
    visit_collection_intro id depths visiting c s short fresh found parents low = ground arith

    visit_collection-Completes : Completes (suc fuel) (visit_collection visit collections)
    visit_collection-Completes n id depths visiting known height low enough below =
        let (c, found, heights) = height in
        let under =
          All-forall (λ m. Height collections (suc m) id) (λ m p. Height collections m p)
            c.parent_ids (λ m h. parents-Height collections id c m found h) in
        let (s, e) =
          parents_depth-completes n c.parent_ids 0 depths (id ∷ visiting) known heights
            (omega arith) (omega arith) (parents-Below id visiting below c.parent_ids under) in
        let exact =
          parents_depth-Exact collections visit finds c.parent_ids 0 depths (id ∷ visiting) s known
            e in
        let fresh = fresh_lem (suc n) id visiting height below in
        (
          (s.0, insert id s.0 s.1, retain (λ name. not (name == id)) s.2),
          visit_collection_intro id depths visiting c s (omega arith) fresh found e
              (omega (arith, exact.2 n heights (omega arith))),
        )

  collection_depth-Completes : (fuel : ℕ) → Completes fuel (collection_depth fuel collections)
  unfolding collection_depth
  collection_depth-Completes zero n id depths visiting known height low enough below =
      absurd (omega arith)
  collection_depth-Completes (suc fuel) n id depths visiting known height low enough below =
      elim (Option-cases (lookup id depths)) [
        | inl missing ↦
            let (r, e) =
              visit_collection-Completes fuel (collection_depth fuel collections)
                (collection_depth-visiting fuel collections)
                (collection_depth-Finds collections fuel) (collection_depth-Completes fuel) n id
                depths visiting known height low enough below in
            (r, rw (collection_depth, missing) e)
        | inr (depth, found) ↦ ((depth, depths, visiting), rw (collection_depth, found) refl)
      ]

  visit_all_iff :
      (ids : List Text) (depths : Map ℕ)
      → Known collections depths
      → (is_ok (visit_all collections ids depths) ≡ true) ↔ AllHeight collections 33 ids
  unfolding visit_all
  visit_all_iff [] depths known = (λ h. tt, λ h. refl)
  visit_all_iff (id ∷ ids) depths known =
      elim (Result-cases (collection_depth 33 collections id depths [])) [
        | inl (r, e) ↦
            let (exact, low, known') =
              collection_depth-Finds collections 33 id depths [] r known e in
            let rest = visit_all_iff ids r.1 known' in
            (
              λ h. (
                Height-le collections (suc r.0) 33 id (omega arith) exact.0,
                rest.0 (ground arith),
              ),
              λ h. rw e (rest.1 h.1),
            )
        | inr (error, e) ↦ (
          λ h. absurd (ground arith),
          λ h.
              let (r, e') =
                collection_depth-Completes 33 32 id depths [] known h.0 (omega arith) (omega arith)
                  tt in
              cc (e, e'),
        )
      ]

insert_key_iff :
    (P : Text → Type 0) (k : Text) (ks : List Text) → All P (insert_key k ks) ↔ (P k × All P ks)
unfolding insert_key
insert_key_iff P k [] = (λ h. h, λ h. h)
insert_key_iff P k (j ∷ ks) =
    let rest = insert_key_iff P k ks in
    elim (Bool-cases (text_leb k j)) [
      | inl before ↦ rw before (λ h. h, λ h. h)
      | inr after ↦
          rw after
            (λ h. let (p, q) = rest.0 h.1 in (p, (h.0, q)), λ h. (h.1.0, rest.1 (h.0, h.1.1)))
    ]

keys_iff :
    (P : Text → Type 0) (collections : Map Collection)
    → All P (keys collections) ↔ All (λ entry. P entry.0) collections
unfolding keys
keys_iff P [] = (λ h. h, λ h. h)
keys_iff P ((k, c) ∷ entries) =
    let rest = keys_iff P entries in
    let here = insert_key_iff P k (keys entries) in
    (λ h. let (p, q) = here.0 h in (p, rest.0 q), λ h. here.1 (h.0, rest.1 h.1))

-- The hierarchy of the Collections is accepted exactly when every parent that is named is a
-- Collection of the catalog and no chain of parents has more than 32 edges, a cycle included.
pub hierarchy_depths_iff :
    (collections : Map Collection)
    → (is_ok (hierarchy_depths collections) ≡ true)
      ↔ All (λ entry. Height collections 33 entry.0) collections
unfolding hierarchy_depths lookup
hierarchy_depths_iff collections =
    let run = visit_all_iff collections (keys collections) [] (λ id depth h. cc) in
    let every = keys_iff (λ id. Height collections 33 id) collections in
    (λ h. every.0 (run.0 h), λ h. run.1 (every.1 h))
