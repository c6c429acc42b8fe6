-- ===== src/Agent/Traversal/Collected.antt =====
-- crates/odp-agent/src/client.rs: what a traversal collects.
use odp_rust.Prelude.{
  ℕ, zero, suc, ◌-◌, ◌≡◌, ◌≤◌, ◌<◌, ◌⊎◌, refl, ap, sym, subst, ◌∙◌, Bool, true, false, ◌||◌, List,
  [], ◌∷◌, ◌++◌, Result, ok, err, arith, length, take, length-append, length-take, Result-cases,
  Bool-cases, inl, inr, ◌==◌, nat_eq,
}
use odp_rust.Prelude.Text.{Text, is_empty}
use odp_rust.Agent.Redirects.{AgentError}
use odp_rust.Agent.Traversal.{
  Sheet, TraversalOptions, traversal_bounds, collect_from, collect, max_traversal_items,
  max_traversal_pages,
}

zero-minus : (n : ℕ) → zero - n ≡ zero
zero-minus n = omega arith

minus-zero : (n : ℕ) → n - zero ≡ n
minus-zero n = omega arith

suc-minus : (m n : ℕ) → suc m - suc n ≡ m - n
suc-minus m n = omega arith

take-append {ℓ} :
    {A : Type ℓ} (n : ℕ) (xs ys : List A) → take n (xs ++ ys) ≡ take n xs ++ take (n - length xs) ys
take-append zero xs ys = rw (zero-minus (length xs)) refl
take-append (suc n) [] ys = rw (minus-zero (suc n)) refl
take-append (suc n) (x ∷ xs) ys =
    rw (suc-minus n (length xs)) (ap (λ l. x ∷ l) (take-append n xs ys))

append-nil {ℓ} : {A : Type ℓ} (xs : List A) → xs ++ [] ≡ xs
append-nil [] = refl
append-nil (x ∷ xs) = ap (λ l. x ∷ l) (append-nil xs)

append_assoc {ℓ} : {A : Type ℓ} (xs ys zs : List A) → (xs ++ ys) ++ zs ≡ xs ++ (ys ++ zs)
append_assoc [] ys zs = refl
append_assoc (x ∷ xs) ys zs = ap (λ l. x ∷ l) (append_assoc xs ys zs)

module _ {T W : Type 0} (continue_with : Text → W → Result AgentError (Sheet T) × W) where
  -- The pages that were read, each the continuation of the one before it.
  pub data Chain : Sheet T → W → List (Sheet T) → W → Type 0 where
    last : {page : Sheet T} {w : W} → Chain page w (page ∷ []) w
    more :
        {page page' : Sheet T} {w w' w'' : W} {sheets : List (Sheet T)}
        → is_empty page.next ≡ false
        → continue_with page.next w ≡ (ok page', w')
        → Chain page' w' sheets w''
        → Chain page w (page ∷ sheets) w''

abbrev pub all_items : {T : Type 0} → List (Sheet T) → List T
all_items [] = []
all_items (page ∷ sheets) = page.items ++ all_items sheets

abbrev pub has_end : {T : Type 0} → List (Sheet T) → Bool
has_end [] = false
has_end (page ∷ []) = is_empty page.next
has_end (page ∷ (page' ∷ sheets)) = has_end (page' ∷ sheets)

pub traversal_bounds_inv :
    (options : TraversalOptions) (bounds : ℕ × ℕ)
    → traversal_bounds options ≡ ok bounds
    → (bounds.0 ≤ max_traversal_items) × (bounds.1 ≤ max_traversal_pages) × (0 < bounds.1)
unfolding traversal_bounds
traversal_bounds_inv options bounds h = ground arith

module _ {T W : Type 0} (continue_with : Text → W → Result AgentError (Sheet T) × W) where
  -- What the pages give, after what was collected before.
  abbrev IsCollected : ℕ → ℕ → List T → Sheet T → W → List T → W → Type 0
  IsCollected pages maximum result page w collected w' =
      (sheets : List (Sheet T)) × Chain continue_with page w sheets w'
      × (collected ≡ result ++ take (maximum - length result) (all_items sheets))
      × (length sheets ≤ pages)
      × ((length collected ≡ maximum) ⊎ (has_end sheets ≡ true) ⊎ (length sheets ≡ pages))

  take_more :
      (maximum : ℕ) (result items rest : List T)
      → (result ++ take (maximum - length result) items)
          ++ take (maximum - length (result ++ take (maximum - length result) items)) rest
        ≡ result ++ take (maximum - length result) (items ++ rest)
  take_more maximum result items rest =
      let n = maximum - length result in
      let size : maximum - length (result ++ take n items) ≡ n - length items =
        omega (arith, length-append result (take n items), length-take n items) in
      rw
        (
          size,
          append_assoc result (take n items) (take (n - length items) rest),
          take-append n items rest,
        )
        refl

  take_one :
      (maximum : ℕ) (result items : List T)
      → result ++ take (maximum - length result) items
        ≡ result ++ take (maximum - length result) (items ++ [])
  take_one maximum result items =
      ap (λ l. result ++ take (maximum - length result) l) (sym (append-nil items))

  has_end-more :
      (page : Sheet T) {page' : Sheet T} {w w' : W} {sheets : List (Sheet T)}
      → Chain continue_with page' w sheets w'
      → has_end (page ∷ sheets) ≡ has_end sheets
  has_end-more page last = refl
  has_end-more page (more nonempty continued chain) = refl

  abbrev IsOutcome : ℕ → ℕ → List T → Sheet T → W → Result AgentError (List T) × W → Type 0
  IsOutcome pages maximum result page w (ok collected, w') =
      IsCollected pages maximum result page w collected w'
  IsOutcome pages maximum result page w (err e, w') = Unit

  stops :
      {pages_left : ℕ} (n maximum : ℕ) (next : Text)
      → (n == maximum || is_empty next) ≡ true
      → (n ≡ maximum) ⊎ (is_empty next ≡ true) ⊎ (suc pages_left ≡ 0)
  stops n maximum next h = ground arith

  one_page :
      (pages maximum : ℕ) (result : List T) (page : Sheet T) (w : W)
      → ((length (result ++ take (maximum - length result) page.items) ≡ maximum)
          ⊎ (is_empty page.next ≡ true)
          ⊎ (pages ≡ 0))
      → IsCollected
          (suc pages)
          maximum
          result
          page
          w
          (result ++ take (maximum - length result) page.items)
          w
  one_page pages maximum result page w stop = (
    page ∷ [],
    last,
    take_one maximum result page.items,
    omega arith,
    elim stop [
      | inl full ↦ inl full
      | inr (inl ends) ↦ inr (inl ends)
      | inr (inr bound) ↦ inr (inr (omega arith))
    ],
  )

  next_page :
      (pages maximum : ℕ) (result : List T) (page page' : Sheet T) (w w₁ w' : W)
      (collected : List T)
      → is_empty page.next ≡ false
      → continue_with page.next w ≡ (ok page', w₁)
      → IsCollected pages maximum
          (result ++ take (maximum - length result) page.items)
          page'
          w₁
          collected
          w'
      → IsCollected (suc pages) maximum result page w collected w'
  next_page pages maximum result page page' w w₁ w' collected nonempty continued
        (sheets, chain, given, few, stop) =
      (
        page ∷ sheets,
        more nonempty continued chain,
        given ∙ take_more maximum result page.items (all_items sheets),
        omega arith,
        elim stop [
          | inl full ↦ inl full
          | inr (inl ends) ↦ inr (inl (has_end-more page chain ∙ ends))
          | inr (inr bound) ↦ inr (inr (omega arith))
        ],
      )

  IsOutcome-next :
      (pages maximum : ℕ) (result : List T) (page page' : Sheet T) (w w₁ : W)
      (outcome : Result AgentError (List T) × W)
      → is_empty page.next ≡ false
      → continue_with page.next w ≡ (ok page', w₁)
      → IsOutcome pages maximum
          (result ++ take (maximum - length result) page.items)
          page'
          w₁
          outcome
      → IsOutcome (suc pages) maximum result page w outcome
  IsOutcome-next pages maximum result page page' w w₁ (ok collected, w') nonempty continued rest =
      next_page pages maximum result page page' w w₁ w' collected nonempty continued rest
  IsOutcome-next pages maximum result page page' w w₁ (err e, w') nonempty continued rest = tt

  collect_from-IsOutcome :
      (pages maximum : ℕ) (result : List T) (page : Sheet T) (w : W)
      → IsOutcome
          (suc pages)
          maximum
          result
          page
          w
          (collect_from continue_with (suc pages) maximum result page w)
  unfolding collect_from
  collect_from-IsOutcome zero maximum result page w =
      let result' = result ++ take (maximum - length result) page.items in
      elim (Bool-cases (length result' == maximum || is_empty page.next)) [
        | inl stop ↦ rw (collect_from, stop) (one_page zero maximum result page w (inr (inr refl)))
        | inr goes ↦ rw (collect_from, goes) (one_page zero maximum result page w (inr (inr refl)))
      ]
  collect_from-IsOutcome (suc pages) maximum result page w =
      let result' = result ++ take (maximum - length result) page.items in
      elim (Bool-cases (length result' == maximum || is_empty page.next)) [
        | inl stop ↦
            rw (collect_from, stop)
              (one_page (suc pages) maximum result page w
                (stops (length result') maximum page.next stop))
        | inr goes ↦ elim (Result-cases (continue_with page.next w).0) [
          | inr (e, broken) ↦ rw (collect_from, goes, broken) tt
          | inl (page', continued) ↦
              let w₁ = (continue_with page.next w).1 in
              let rest = collect_from-IsOutcome pages maximum result' page' w₁ in
              rw (collect_from, goes, continued)
                (IsOutcome-next (suc pages) maximum result page page' w w₁
                  (collect_from continue_with (suc pages) maximum result' page' w₁) (ground arith)
                  (ap (λ r. (r, w₁)) continued) rest)
        ]
      ]

  from_start :
      (pages maximum : ℕ) (page : Sheet T) (w w' : W) (collected : List T)
      → 0 < pages
      → collect_from continue_with pages maximum [] page w ≡ (ok collected, w')
      → IsCollected pages maximum [] page w collected w'
  from_start zero maximum page w w' collected some h = absurd (omega arith)
  from_start (suc pages) maximum page w w' collected some h =
      subst (IsOutcome (suc pages) maximum [] page w) h
        (collect_from-IsOutcome pages maximum [] page w)

  -- A traversal collects the items of pages that it read in turn, cut to the maximum; it read no more
  -- pages than allowed, and it stopped at the maximum of items, at a page without a continuation, or
  -- at the maximum of pages.
  pub collect_inv :
      (page : Sheet T) (options : TraversalOptions) (w w' : W) (collected : List T)
      → collect continue_with page options w ≡ (ok collected, w')
      → (bounds : ℕ × ℕ) × (traversal_bounds options ≡ ok bounds)
        × (bounds.0 ≤ max_traversal_items)
        × (bounds.1 ≤ max_traversal_pages)
        × (sheets : List (Sheet T)) × Chain continue_with page w sheets w'
        × (collected ≡ take bounds.0 (all_items sheets))
        × (length sheets ≤ bounds.1)
        × ((length collected ≡ bounds.0) ⊎ (has_end sheets ≡ true) ⊎ (length sheets ≡ bounds.1))
  unfolding collect
  collect_inv page options w w' collected h = elim (Result-cases (traversal_bounds options)) [
    | inr (e, refused) ↦ absurd (ground arith)
    | inl (bounds, given) ↦
        let (items, pages, some) = traversal_bounds_inv options bounds given in
        let (sheets, chain, taken, few, stop) =
          from_start bounds.1 bounds.0 page w w' collected some (ground arith) in
        (
          bounds,
          given,
          items,
          pages,
          sheets,
          chain,
          taken ∙ ap (λ n. take n (all_items sheets)) (minus-zero bounds.0),
          few,
          stop,
        )
  ]
