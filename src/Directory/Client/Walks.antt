-- ===== src/Directory/Client/Walks.antt =====
-- crates/odp-directory/src/client.rs: the pages that a traversal visits.
use odp_rust.Prelude.{
  ℕ, zero, suc, ◌+◌, ◌≡◌, ◌≤◌, ap, subst, false, ◌||◌, List, [], ◌∷◌, All, Result, ok, err, ◌>>=◌,
  arith, length, leb, Result-cases, Bool-cases, inl, inr,
}
use odp_rust.Prelude.Text.{Text, is_empty, text_eq, text_eq_iff}
use odp_rust.Core.References.Url.{UrlLib}
use odp_rust.Core.Validation.Rules.{contains_name}
use odp_rust.Core.Validation.Unique.{Unique, All-contains_iff}
use odp_rust.Directory.Client.{
  DirectoryError, Environment, environment_origin, PageOf, IterationOptions, continuation_url,
  traverse_from, traversal_limits, traverse, bounded, maximum_pages,
}

module _ (url_lib : UrlLib) (environment : Environment) where
  open url_lib use {Url, parse, username, password, origin, as_str}

  -- The URL is on the origin of the Directory.
  abbrev pub IsCanonical : Url → Type 0
  IsCanonical target =
      (base : Url) × (parse (environment_origin environment) ≡ ok base)
      × (origin target ≡ origin base)

  -- A continuation that is followed is on the origin of the Directory.
  pub continuation_url-IsCanonical :
      (next : Text) (target : Url)
      → continuation_url url_lib environment next ≡ ok target
      → IsCanonical target
  unfolding continuation_url
  continuation_url-IsCanonical next target h =
      elim (Result-cases (parse (environment_origin environment))) [
        | inr (e, broken) ↦ absurd (ground arith)
        | inl (base, parsed) ↦
            (base, parsed, ground (arith, text_eq_iff (origin target) (origin base)))
      ]

  module _ {T W : Type 0} (request_page : Url → W → Result DirectoryError (PageOf T) × W) where
    -- The pages that were visited from one on, and the URLs that they were fetched from.
    pub data Walk : PageOf T → W → List (PageOf T) → List Text → W → Type 0 where
      stop : {page : PageOf T} {w : W} → Walk page w (page ∷ []) [] w
      go :
          {page page' : PageOf T} {w w' w'' : W} {pages : List (PageOf T)} {targets : List Text}
          {target : Url}
          → continuation_url url_lib environment page.next ≡ ok target
          → IsCanonical target
          → request_page target w ≡ (ok page', w')
          → Walk page' w' pages targets w''
          → Walk page w (page ∷ pages) (as_str target ∷ targets) w''

    abbrev IsWalked :
        ℕ → List Text → PageOf T → W → Result DirectoryError (List (PageOf T)) × W → Type 0
    IsWalked left visited page w (err e, w') = Unit
    IsWalked left visited page w (ok pages, w') =
        (targets : List Text) × Walk page w pages targets w'
        × All (λ t. contains_name visited t ≡ false) targets
        × Unique targets
        × (length pages ≤ suc left)

    one_page :
        (left : ℕ) (visited : List Text) (page : PageOf T) (w : W)
        → IsWalked left visited page w (ok (page ∷ []), w)
    one_page left visited page w = ([], stop, tt, tt, omega arith)

    next_page :
        (left : ℕ) (visited : List Text) (page page' : PageOf T) (w w₁ : W) (target : Url)
        (outcome : Result DirectoryError (List (PageOf T)) × W)
        → continuation_url url_lib environment page.next ≡ ok target
        → contains_name visited (as_str target) ≡ false
        → request_page target w ≡ (ok page', w₁)
        → IsWalked left (as_str target ∷ visited) page' w₁ outcome
        → IsWalked (suc left) visited page w (outcome.0 >>= (λ pages. ok (page ∷ pages)), outcome.1)
    next_page left visited page page' w w₁ target (err e, w') given unseen fetched rest = tt
    next_page left visited page page' w w₁ target (ok pages, w') given unseen fetched
          (targets, walk, outside, unique, few) =
        let (differ, outside') = (All-contains_iff (as_str target) visited targets).0 outside in
        (
          as_str target ∷ targets,
          go given (continuation_url-IsCanonical page.next target given) fetched walk,
          (unseen, outside'),
          (differ, unique),
          omega arith,
        )

    traverse_from-IsWalked :
        (maximum_items left : ℕ) (visited : List Text) (items : ℕ) (page : PageOf T) (w : W)
        → IsWalked left visited page w
            (traverse_from url_lib environment request_page maximum_items left visited items page w)
    unfolding traverse_from
    traverse_from-IsWalked maximum_items zero visited items page w = one_page zero visited page w
    traverse_from-IsWalked maximum_items (suc left) visited items page w =
        let items' = items + length page.items in
        elim (Bool-cases (is_empty page.next || leb maximum_items items')) [
          | inl ends ↦ rw (traverse_from, ends) (one_page (suc left) visited page w)
          | inr goes ↦ elim (Result-cases (continuation_url url_lib environment page.next)) [
            | inr (e, refused) ↦ rw (traverse_from, goes, refused) tt
            | inl (target, given) ↦ elim (Bool-cases (contains_name visited (as_str target))) [
              | inl seen ↦ rw (traverse_from, goes, given, seen) tt
              | inr unseen ↦ elim (Result-cases (request_page target w).0) [
                | inr (e, broken) ↦ rw (traverse_from, goes, given, unseen, broken) tt
                | inl (page', fetched) ↦
                    let w₁ = (request_page target w).1 in
                    rw (traverse_from, goes, given, unseen, fetched)
                      (next_page left visited page page' w w₁ target
                        (traverse_from url_lib environment request_page maximum_items left
                          (as_str target ∷ visited) items' page' w₁)
                        given unseen (ap (λ r. (r, w₁)) fetched)
                        (traverse_from-IsWalked maximum_items left (as_str target ∷ visited) items'
                          page' w₁))
              ]
            ]
          ]
        ]

    traversal_limits_bound :
        (options : IterationOptions) (left : ℕ)
        → traversal_limits options ≡ ok left
        → suc left ≤ maximum_pages
    unfolding traversal_limits bounded
    traversal_limits_bound options left h = ground arith

    -- A traversal returns at most sixteen pages, the first one and those that each continue the one
    -- before it; what it follows is on the origin of the Directory, and it follows no URL twice.
    pub traverse_inv :
        (search_services : W → Result DirectoryError (PageOf T) × W) (options : IterationOptions)
        (maximum_items : ℕ) (w w' : W) (pages : List (PageOf T))
        → traverse url_lib environment request_page search_services options maximum_items w
          ≡ (ok pages, w')
        → (page : PageOf T) × (first : W) × (search_services w ≡ (ok page, first))
          × (targets : List Text) × Walk page first pages targets w'
          × Unique targets
          × (length pages ≤ maximum_pages)
    unfolding traverse
    traverse_inv search_services options maximum_items w w' pages h =
        elim (Result-cases (traversal_limits options)) [
          | inr (e, refused) ↦ absurd (ground arith)
          | inl (left, limited) ↦ elim (Result-cases (search_services w).0) [
            | inr (e, broken) ↦ absurd (ground arith)
            | inl (page, fetched) ↦
                let first = (search_services w).1 in
                let few = traversal_limits_bound options left limited in
                let same : traverse_from url_lib environment request_page maximum_items left [] 0
                      page first
                    ≡ (ok pages, w') =
                  ground arith in
                let (targets, walk, outside, unique, short) =
                  subst (IsWalked left [] page first) same
                    (traverse_from-IsWalked maximum_items left [] 0 page first) in
                (page, first, ap (λ r. (r, first)) fetched, targets, walk, unique, omega arith)
          ]
        ]
