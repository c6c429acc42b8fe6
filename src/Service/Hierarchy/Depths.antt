-- ===== src/Service/Hierarchy/Depths.antt =====
-- crates/odp-service/src/static_catalog.rs: the depths are those of the hierarchy.
use odp_rust.Prelude.{
  ℕ, zero, suc, ◌+◌, ◌-◌, ◌≡◌, ◌≤◌, ◌<◌, max, refl, false, not, some, List, [], ◌∷◌, ok, ◌==◌,
  nat_eq, retain, All, arith, Option-cases, Bool-cases, inl, inr, bind_inv, sym, subst, ap, ◌∙◌,
}
use odp_rust.Prelude.Text.{Text, text_eq, text_eq_iff}
use odp_rust.Prelude.Maps.{Map, lookup, insert, lookup-insert}
use odp_rust.Core.Documents.Resources.{Collection}
use odp_rust.Core.Validation.Rules.{contains_name}
use odp_rust.Service.Hierarchy.{Visited, Visit, parents_depth, visit_collection, collection_depth}

-- The Collection is known, and every chain of parents from it has fewer Collections than the
-- number.
abbrev pub Height : Map Collection → ℕ → Text → Type 0
Height collections zero id = ⊥
Height collections (suc n) id =
    (c : Collection) × (lookup id collections ≡ some c)
    × All (λ parent. Height collections n parent) c.parent_ids

All-map : {P Q : Text → Type 0} (f : (x : Text) → P x → Q x) (xs : List Text) → All P xs → All Q xs
All-map f [] h = tt
All-map f (x ∷ xs) (p, h) = (f x p, All-map f xs h)

module _ (collections : Map Collection) where
  pub Height-suc : (n : ℕ) (id : Text) → Height collections n id → Height collections (suc n) id
  Height-suc zero id h = absurd h
  Height-suc (suc n) id (c, e, parents) = (c, e, All-map (Height-suc n) c.parent_ids parents)

  Height-add : (k n : ℕ) (id : Text) → Height collections n id → Height collections (k + n) id
  Height-add zero n id h =
      subst (λ m. Height collections m id) {x = n} {y = zero + n} (omega arith) h
  Height-add (suc k) n id h =
      subst (λ m. Height collections m id) {x = suc (k + n)} {y = suc k + n} (omega arith)
        (Height-suc (k + n) id (Height-add k n id h))

  pub Height-le : (m n : ℕ) (id : Text) → m ≤ n → Height collections m id → Height collections n id
  Height-le m n id le h =
      subst (λ k. Height collections k id) {x = n - m + m} {y = n} (omega arith)
        (Height-add (n - m) m id h)

-- The longest chain of parents has exactly so many edges.
abbrev pub Exact : Map Collection → Text → ℕ → Type 0
Exact collections id depth =
    Height collections (suc depth) id × ((m : ℕ) → Height collections (suc m) id → depth ≤ m)

-- What is remembered is exact and within the limit.
abbrev pub Known : Map Collection → Map ℕ → Type 0
Known collections depths =
    (id : Text) (depth : ℕ)
    → lookup id depths ≡ some depth
    → Exact collections id depth × (depth ≤ 32)

retain-absent :
    (xs : List Text) (id : Text)
    → contains_name xs id ≡ false
    → retain (λ name. not (name == id)) xs ≡ xs
retain-absent [] id h = refl
retain-absent (x ∷ xs) id h = ground (arith, retain-absent xs id)

pub retain_self :
    (xs : List Text) (id : Text)
    → contains_name xs id ≡ false
    → retain (λ name. not (name == id)) (id ∷ xs) ≡ xs
retain_self xs id h = ground (arith, retain-absent xs id h, text_eq_iff id id)

-- A visit gives the set of the Collections being visited back as it took it.
abbrev pub KeepsVisiting : Visit → Type 0
KeepsVisiting visit =
    (id : Text) (depths : Map ℕ) (visiting : List Text) (r : Visited)
    → visit id depths visiting ≡ ok r
    → r.2 ≡ visiting

module _ (visit : Visit) where
  visit_collection_inv :
      (collections : Map Collection) (id : Text) (depths : Map ℕ) (visiting : List Text)
      (r : Visited)
      → visit_collection visit collections id depths visiting ≡ ok r
      → (contains_name visiting id ≡ false)
        × (c : Collection) × (lookup id collections ≡ some c)
        × (s : Visited) × (parents_depth visit c.parent_ids 0 depths (id ∷ visiting) ≡ ok s)
        × (s.0 ≤ 32)
        × (r ≡ (s.0, insert id s.0 s.1, retain (λ name. not (name == id)) s.2))
  unfolding visit_collection
  visit_collection_inv collections id depths visiting r h = ground arith

module _ (visit : Visit) (keeps : KeepsVisiting visit) where
  pub parents_depth-visiting :
      (parents : List Text) (depth : ℕ) (depths : Map ℕ) (visiting : List Text) (r : Visited)
      → parents_depth visit parents depth depths visiting ≡ ok r
      → r.2 ≡ visiting
  unfolding parents_depth
  parents_depth-visiting [] depth depths visiting r h = ground arith
  parents_depth-visiting (p ∷ ps) depth depths visiting r h =
      let (s, e, next) =
        bind_inv (visit p depths visiting)
          (λ s. parents_depth visit ps (max depth (1 + s.0)) s.1 s.2) h in
      parents_depth-visiting ps (max depth (1 + s.0)) s.1 s.2 r next ∙ keeps p depths visiting s e

  pub visit_collection-visiting :
      (collections : Map Collection) → KeepsVisiting (visit_collection visit collections)
  unfolding visit_collection
  visit_collection-visiting collections id depths visiting r h =
      let (fresh, c, found, s, parents, low, e) =
        visit_collection_inv visit collections id depths visiting r h in
      let kept = parents_depth-visiting c.parent_ids 0 depths (id ∷ visiting) s parents in
      ap (λ v. v.2) e
      ∙ (ap (retain (λ name. not (name == id))) kept ∙ retain_self visiting id fresh)

pub collection_depth-visiting :
    (fuel : ℕ) (collections : Map Collection) → KeepsVisiting (collection_depth fuel collections)
unfolding collection_depth
collection_depth-visiting zero collections id depths visiting r h =
    elim (Option-cases (lookup id depths)) [
      | inl missing ↦ absurd (ground arith)
      | inr (depth, found) ↦ ground arith
    ]
collection_depth-visiting (suc fuel) collections id depths visiting r h =
    let keeps =
      visit_collection-visiting (collection_depth fuel collections)
        (collection_depth-visiting fuel collections) collections in
    elim (Option-cases (lookup id depths)) [
      | inl missing ↦ keeps id depths visiting r (ground arith)
      | inr (depth, found) ↦ ground arith
    ]

Exact-lt :
    (collections : Map Collection) (id : Text) (depth m : ℕ)
    → Exact collections id depth
    → Height collections m id
    → depth < m
Exact-lt collections id depth zero exact h = absurd h
Exact-lt collections id depth (suc m) exact h = omega (arith, exact.1 m h)

pub parents-Height :
    (collections : Map Collection) (id : Text) (c : Collection) (m : ℕ)
    → lookup id collections ≡ some c
    → Height collections (suc m) id
    → All (λ parent. Height collections m parent) c.parent_ids
parents-Height collections id c m found (c', found', heights) =
    subst (λ d. All (λ parent. Height collections m parent) d.parent_ids) {x = c'} {y = c}
      (cc (found, found')) heights

insert-Known :
    (collections : Map Collection) (id : Text) (depth : ℕ) (depths : Map ℕ)
    → Known collections depths
    → Exact collections id depth
    → depth ≤ 32
    → Known collections (insert id depth depths)
insert-Known collections id depth depths known exact low other d h =
    let found = sym (lookup-insert id other depth depths) ∙ h in
    elim (Bool-cases (id == other)) [
      | inl same ↦
          let e : id ≡ other = (text_eq_iff id other).0 same in
          let e' : depth ≡ d = ground arith in
          subst (λ k. Exact collections other k × (k ≤ 32)) e'
            (subst (λ k. Exact collections k depth) e exact, low)
      | inr differ ↦ known other d (ground arith)
    ]

-- A visit finds the exact depth, and leaves what is known exact.
abbrev pub Finds : Map Collection → Visit → Type 0
Finds collections visit =
    (id : Text) (depths : Map ℕ) (visiting : List Text) (r : Visited)
    → Known collections depths
    → visit id depths visiting ≡ ok r
    → Exact collections id r.0 × (r.0 ≤ 32) × Known collections r.1

module _ (collections : Map Collection) where
  abbrev pub AllHeight : ℕ → List Text → Type 0
  AllHeight n = All (λ id. Height collections n id)

  module _ (visit : Visit) (finds : Finds collections visit) where
    pub parents_depth-Exact :
        (parents : List Text) (depth : ℕ) (depths : Map ℕ) (visiting : List Text) (r : Visited)
        → Known collections depths
        → parents_depth visit parents depth depths visiting ≡ ok r
        → (depth ≤ r.0)
          × AllHeight r.0 parents
          × ((m : ℕ) → AllHeight m parents → depth ≤ m → r.0 ≤ m)
          × Known collections r.1
    unfolding parents_depth
    parents_depth-Exact [] depth depths visiting r known h =
        let e : (depth, depths, visiting) ≡ r = cc h in
        subst
          (λ q.
            (depth ≤ q.0)
            × Unit {0}
            × ((m : ℕ) → Unit {0} → depth ≤ m → q.0 ≤ m)
            × Known collections q.1)
          e (omega arith, tt, (λ m k le. le), known)
    parents_depth-Exact (p ∷ ps) depth depths visiting r known h =
        let (s, e, next) =
          bind_inv (visit p depths visiting)
            (λ s. parents_depth visit ps (max depth (1 + s.0)) s.1 s.2) h in
        let (exact, low, known') = finds p depths visiting s known e in
        let (le, heights, least, known'') =
          parents_depth-Exact ps (max depth (1 + s.0)) s.1 s.2 r known' next in
        (
          omega arith,
          (Height-le collections (suc s.0) r.0 p (omega arith) exact.0, heights),
          (λ m k le'. let lt = Exact-lt collections p s.0 m exact k.0 in least m k.1 (omega arith)),
          known'',
        )

    visit_collection-Finds : Finds collections (visit_collection visit collections)
    visit_collection-Finds id depths visiting r known h =
        let (fresh, c, found, s, parents, low, e) =
          visit_collection_inv visit collections id depths visiting r h in
        let (le, heights, least, known') =
          parents_depth-Exact c.parent_ids 0 depths (id ∷ visiting) s known parents in
        let here : Exact collections id s.0 = (
          (c, found, heights),
          (λ m k. least m (parents-Height collections id c m found k) (omega arith)),
        ) in
        subst (λ q. Exact collections id q.0 × (q.0 ≤ 32) × Known collections q.1) (sym e)
          (here, low, insert-Known collections id s.0 s.1 known' here low)

  -- A visit that succeeds where what is known is exact returns the exact depth of the Collection, the
  -- length of its longest chain of parents, which is at most 32, and what is known afterwards is exact.
  pub collection_depth-Finds : (fuel : ℕ) → Finds collections (collection_depth fuel collections)
  unfolding collection_depth
  collection_depth-Finds zero id depths visiting r known h =
      elim (Option-cases (lookup id depths)) [
        | inl missing ↦ absurd (ground arith)
        | inr (depth, found) ↦
            let e : (depth, depths, visiting) ≡ r = ground arith in
            let (exact, low) = known id depth found in
            subst (λ q. Exact collections id q.0 × (q.0 ≤ 32) × Known collections q.1) e
              (exact, low, known)
      ]
  collection_depth-Finds (suc fuel) id depths visiting r known h =
      let finds =
        visit_collection-Finds (collection_depth fuel collections) (collection_depth-Finds fuel) in
      elim (Option-cases (lookup id depths)) [
        | inl missing ↦ finds id depths visiting r known (ground arith)
        | inr (depth, found) ↦
            let e : (depth, depths, visiting) ≡ r = ground arith in
            let (exact, low) = known id depth found in
            subst (λ q. Exact collections id q.0 × (q.0 ≤ 32) × Known collections q.1) e
              (exact, low, known)
      ]
