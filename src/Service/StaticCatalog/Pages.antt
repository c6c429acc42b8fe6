-- ===== src/Service/StaticCatalog/Pages.antt =====
-- crates/odp-service/src/static_catalog.rs: the pages of a list are the list.
use odp_rust.Prelude.{
  ℕ, zero, suc, ◌+◌, ◌-◌, ◌%◌, ◌^◌, ◌≡◌, ◌≤◌, ◌<◌, refl, ap, sym, ◌∙◌, min, true, false, some, List,
  [], ◌∷◌, map, Result, ok, err, ltb, leb, length, take, drop, length-drop, arith, Bool-cases,
  Result-cases, inl, inr, nat_eq,
}
use odp_rust.Prelude.Text.{Text}
use odp_rust.Service.Requests.{CatalogRequest, ServiceError}
use odp_rust.Service.Cursors.{CursorLib, decode_cursor, invalid_cursor}
use odp_rust.Service.StaticCatalog.{map_ok, page_limit, slice, next_link, page_from, page}

module _ {ℓ} {A : Type ℓ} where
  take-min : (m n : ℕ) (xs : List A) → m ≡ min n (length xs) → take m xs ≡ take n xs
  take-min zero zero xs h = refl
  take-min (suc m) zero xs h = absurd (omega arith)
  take-min zero (suc n) [] h = refl
  take-min (suc m) (suc n) [] h = refl
  take-min zero (suc n) (x ∷ xs) h = absurd (omega arith)
  take-min (suc m) (suc n) (x ∷ xs) h = ap (λ l. x ∷ l) (take-min m n xs (omega arith))

  pub take-all : (n : ℕ) (xs : List A) → length xs ≤ n → take n xs ≡ xs
  take-all zero [] h = refl
  take-all zero (x ∷ xs) h = absurd (omega arith)
  take-all (suc n) [] h = refl
  take-all (suc n) (x ∷ xs) h = ap (λ l. x ∷ l) (take-all n xs (omega arith))

  drop-nil : (n : ℕ) → drop {A = A} n [] ≡ []
  drop-nil zero = refl
  drop-nil (suc n) = refl

  pub drop-drop : (m n k : ℕ) (xs : List A) → k ≡ m + n → drop n (drop m xs) ≡ drop k xs
  drop-drop zero n k xs h = ap (λ j. drop j xs) (omega arith)
  drop-drop (suc m) n zero xs h = absurd (omega arith)
  drop-drop (suc m) n (suc k) [] h = drop-nil n
  drop-drop (suc m) n (suc k) (x ∷ xs) h = drop-drop m n k xs (omega arith)

  slice_lem :
      (offset end limit : ℕ) (xs : List A)
      → offset ≤ length xs
      → end ≡ min (offset + limit) (length xs)
      → slice offset end xs ≡ some (take limit (drop offset xs))
  unfolding slice
  slice_lem offset end limit xs within h =
      let low : leb offset end ≡ true = ground arith in
      let high : leb end (length xs) ≡ true = ground arith in
      rw (low, high)
        (ap some
          (take-min (end - offset) limit (drop offset xs) (omega (arith, length-drop offset xs))))

abbrev pub with_link : {T : Type 0} → List T → Text → List T × Text
with_link items next = (items, next)

map_ok_inv :
    {T : Type 0} (found : List T) (link : Result ServiceError Text) (items : List T) (next : Text)
    → some (map_ok (with_link found) link) ≡ some (ok (items, next))
    → (next' : Text) × (link ≡ ok next') × (items ≡ found) × (next' ≡ next)
map_ok_inv found (ok next') items next h = (next', refl, cc h, cc h)
map_ok_inv found (err e) items next h = cc

module _ (lib : CursorLib) (key : Text) (now later : ℕ) {T : Type 0} (values : List T)
    (request : CatalogRequest) (represent : T → T)
    (fits : page_limit request + length values < 2 ^ 64) where
  abbrev end_from : ℕ → ℕ
  end_from offset = min (offset + page_limit request) (length values)

  -- A page holds the values from its start on, as many as the limit allows, and no slice is out
  -- of range.
  page_from_result :
      (offset : ℕ) (link : Result ServiceError Text)
      → offset ≤ length values
      → next_link lib key now later values request (end_from offset) ≡ link
      → page_from lib key now later values request represent offset
        ≡ some (
            map_ok
              (with_link (map represent (take (page_limit request) (drop offset values))))
              link)
  unfolding page_from
  page_from_result offset link within linked =
      let end = min ((offset + page_limit request) % 2 ^ 64) (length values) in
      let whole : end ≡ end_from offset = omega arith in
      let inside : ltb (length values) offset ≡ false = ground arith in
      let cut = slice_lem offset end (page_limit request) values within whole in
      let linked' = ap (next_link lib key now later values request) whole ∙ linked in
      elim (Result-cases link) [
        | inl (next, e) ↦ rw (inside, linked', e, cut) refl
        | inr (error, failed) ↦ rw (inside, linked', failed) refl
      ]

  pub page_answer :
      (offset : ℕ) (link : Result ServiceError Text)
      → offset ≤ length values
      → decode_cursor lib request (page_limit request) key now ≡ ok offset
      → next_link lib key now later values request (end_from offset) ≡ link
      → page lib key now later values request represent
        ≡ some (
            map_ok
              (with_link (map represent (take (page_limit request) (drop offset values))))
              link)
  unfolding page
  page_answer offset link within decoded linked =
      rw (page, decoded) (page_from_result offset link within linked)

  page_from_outside :
      (offset : ℕ)
      → ltb (length values) offset ≡ true
      → page_from lib key now later values request represent offset ≡ some (err invalid_cursor)
  unfolding page_from
  page_from_outside offset outside = rw outside refl

  -- The page with its start decoded.
  pub page_inv :
      (items : List T) (next : Text)
      → page lib key now later values request represent ≡ some (ok (items, next))
      → (offset : ℕ) × (decode_cursor lib request (page_limit request) key now ≡ ok offset)
        × (offset ≤ length values)
        × (items ≡ map represent (take (page_limit request) (drop offset values)))
        × (next_link lib key now later values request (end_from offset) ≡ ok next)
  unfolding page
  page_inv items next h =
      elim (Result-cases (decode_cursor lib request (page_limit request) key now)) [
        | inl (offset, e) ↦
            let h' : page_from lib key now later values request represent offset
                ≡ some (ok (items, next)) =
              ground arith in
            elim (Bool-cases (ltb (length values) offset)) [
              | inl outside ↦ cc (page_from_outside offset outside, h')
              | inr inside ↦
                  let within : offset ≤ length values = ground arith in
                  let link = next_link lib key now later values request (end_from offset) in
                  let (next', linked, same, same') =
                    map_ok_inv (map represent (take (page_limit request) (drop offset values))) link
                      items next (sym (page_from_result offset link within refl) ∙ h') in
                  (offset, e, within, same, linked ∙ ap ok same')
            ]
        | inr (error, e) ↦ absurd (ground arith)
      ]
