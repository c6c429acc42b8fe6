-- ===== src/Service/StaticCatalog/Walks.antt =====
-- crates/odp-service: a client that follows the continuations of a list, each read by the Service
-- as the query of a request of its own and answered at a time of its own.
use mathlib.Core.List.{map-append}
use odp_rust.Prelude.{
  ℕ, ◌+◌, ◌^◌, ◌≡◌, ◌≤◌, ◌<◌, ◌⊎◌, ap, ap₂, sym, subst, ◌∙◌, min, Bool, true, false, none, some,
  List, [], ◌∷◌, ◌++◌, map, ok, err, if◌then◌else◌, ltb, leb, length, take, drop, take-append-drop,
  length-drop, arith, Bool-cases, inl, inr, nat_eq,
}
use odp_rust.Prelude.Text.{Text}
use odp_rust.Prelude.Text.Laws.{Lacks, split_inj}
use odp_rust.Service.Requests.{CatalogRequest, ServiceError, Request}
use odp_rust.Service.Cursors.{CursorLib, encode_cursor, decode_cursor, cursor_pairs, expired_cursor}
use odp_rust.Service.Cursors.RoundTrip.{Laws, issued_inv, decode_cursor-unix_seconds}
use odp_rust.Service.Queries.{catalog_request}
use odp_rust.Service.Queries.Continued.{asked, catalog_request-cursor_pairs}
use odp_rust.Service.StaticCatalog.{page_limit, next_link, page}
use odp_rust.Service.StaticCatalog.Pages.{page_inv, take-all, drop-drop}

-- The pages that answer a request and the requests that continue it, and all their items. A
-- continuation is a path and a query, which the Service reads as it reads any other.
pub data Walk (lib : CursorLib) (parse_query : Text → List (Text × Text)) (key : Text) {T : Type 0}
    (values : List T) (represent : T → T) : CatalogRequest → List T → Type 0 where
  last :
      {request : CatalogRequest} {items : List T} (now later : ℕ)
      → page lib key now later values request represent ≡ some (ok (items, []))
      → Walk lib parse_query key values represent request items
  continued :
      {request again : CatalogRequest} {items rest : List T} (now later : ℕ) (sent : Request)
      (language : Text)
      → page lib key now later values request represent
        ≡ some (ok (items, sent.path ++ 63 ∷ sent.query))
      → Lacks 63 sent.path
      → catalog_request parse_query sent language ≡ ok again
      → Walk lib parse_query key values represent again rest
      → Walk lib parse_query key values represent request (items ++ rest)

pub nonempty : (a : Text) (c : ℕ) (b : Text) → [] ≡ a ++ c ∷ b → ⊥
nonempty [] c b h = cc
nonempty (x ∷ a) c b h = cc

answer_inj : (b : Bool) (x y : ℕ) (e : ServiceError) → (if b then ok x else err e) ≡ ok y → y ≡ x
answer_inj true x y e h = cc
answer_inj false x y e h = cc

pub page_limit_given :
    (request : CatalogRequest) → 0 < request.limit → page_limit request ≡ request.limit
unfolding page_limit
page_limit_given request positive = ground arith

module _ (lib : CursorLib) (laws : Laws lib) (parse_query : Text → List (Text × Text))
    (parse-serialize : (pairs : List (Text × Text))
      → parse_query (lib.serialize_query pairs) ≡ pairs)
    (key : Text) {T : Type 0} (values : List T) (represent : T → T)
    (fits : length values < 2 ^ 63) where
  -- The request can only go on from the offset.
  abbrev GoesOn : CatalogRequest → ℕ → Type 0
  GoesOn request offset =
      (now found : ℕ)
      → decode_cursor lib request (page_limit request) key now ≡ ok found
      → found ≡ offset

  issued-GoesOn :
      (request again : CatalogRequest) (offset later : ℕ) (sent : Request) (language : Text)
      → page_limit request ≤ 100
      → 0 < page_limit request
      → Lacks 63 request.path
      → Lacks 63 sent.path
      → encode_cursor lib request (page_limit request) offset key later
        ≡ ok (sent.path ++ 63 ∷ sent.query)
      → catalog_request parse_query sent language ≡ ok again
      → (again.path ≡ request.path) × (page_limit again ≡ page_limit request) × GoesOn again offset
  unfolding page_limit
  issued-GoesOn request again offset later sent language small positive plain plain' issued read =
      let (expires, expiring, cursor, whole, verdict) =
        issued_inv lib laws request (page_limit request) offset key later
          (sent.path ++ 63 ∷ sent.query) issued in
      let (same_path, same_query) =
        split_inj 63 sent.path sent.query request.path
          (lib.serialize_query (cursor_pairs request (page_limit request) cursor)) plain' plain
          whole in
      let parsed : parse_query sent.query ≡ cursor_pairs request (page_limit request) cursor =
        ap parse_query same_query
        ∙ parse-serialize (cursor_pairs request (page_limit request) cursor) in
      let answer =
        catalog_request-cursor_pairs parse_query sent language cursor (page_limit request) request
          parsed positive small in
      let e : asked sent language cursor (page_limit request) request.representation ≡ again =
        cc (answer, read) in
      let path : again.path ≡ request.path = sym (ap (λ r. r.path) e) ∙ same_path in
      let limit : page_limit again ≡ page_limit request =
        ap page_limit (sym e)
        ∙ page_limit_given (asked sent language cursor (page_limit request) request.representation)
            positive in
      (
        path,
        limit,
        λ now found h.
            let named : again.cursor ≡ some cursor = sym (ap (λ r. r.cursor) e) in
            let h' : decode_cursor lib again (page_limit request) key now ≡ ok found =
              ap (λ l. decode_cursor lib again l key now) (sym limit) ∙ h in
            let (seconds, clock) =
              decode_cursor-unix_seconds lib again (page_limit request) found key cursor now named
                h' in
            let v =
              verdict again now seconds named path (sym (ap (λ r. r.representation) e)) clock in
            answer_inj (leb seconds expires) offset found expired_cursor (sym v ∙ h'),
      )

  pub next_link_inv :
      (request : CatalogRequest) (now later end : ℕ) (next : Text)
      → next_link lib key now later values request end ≡ ok next
      → ((length values ≤ end) × (next ≡ []))
        ⊎ ((end < length values)
            × (encode_cursor lib request (page_limit request) end key later ≡ ok next))
  unfolding next_link
  next_link_inv request now later end next h = elim (Bool-cases (ltb end (length values))) [
    | inl more ↦ inr (ground arith)
    | inr no_more ↦ inl (ground arith)
  ]

  joined :
      (offset limit end : ℕ) (items rest : List T)
      → end ≡ offset + limit
      → items ≡ map represent (take limit (drop offset values))
      → rest ≡ map represent (drop end values)
      → items ++ rest ≡ map represent (drop offset values)
  joined offset limit end items rest h e e' =
      ap₂ (λ a b. a ++ b) e (e' ∙ ap (map represent) (sym (drop-drop offset limit end values h)))
      ∙ (sym (
            map-append represent (take limit (drop offset values))
              (drop limit (drop offset values)))
          ∙ ap (map represent) (take-append-drop limit (drop offset values)))

  Walk-GoesOn :
      (request : CatalogRequest) (collected : List T) (offset : ℕ)
      → page_limit request ≤ 100
      → 0 < page_limit request
      → Lacks 63 request.path
      → GoesOn request offset
      → Walk lib parse_query key values represent request collected
      → collected ≡ map represent (drop offset values)
  Walk-GoesOn request collected offset small positive plain goes
        (last {items = items} now later answer) =
      let (found, decoded, within, same, linked) =
        page_inv lib key now later values request represent (omega arith) items [] answer in
      let e : found ≡ offset = goes now found decoded in
      elim (next_link_inv request now later (min (found + page_limit request) (length values)) []
        linked) [
          | inl (reached, empty) ↦
              same
              ∙ ap (map represent) (
                  take-all (page_limit request) (drop found values)
                    (omega (arith, length-drop found values))
                  ∙ ap (λ o. drop o values) e)
          | inr (short, issued) ↦ absurd (
              nonempty request.path 63 _
                (issued_inv lib laws request (page_limit request)
                  (min (found + page_limit request) (length values)) key later [] issued).3)
        ]
  Walk-GoesOn request collected offset small positive plain goes
        (continued {again = again} {items = items} {rest = rest} now later sent language answer
          plain' read walk) =
      let (found, decoded, within, same, linked) =
        page_inv lib key now later values request represent (omega arith) items
          (sent.path ++ 63 ∷ sent.query) answer in
      let e : found ≡ offset = goes now found decoded in
      let end = min (found + page_limit request) (length values) in
      elim (next_link_inv request now later end (sent.path ++ 63 ∷ sent.query) linked) [
        | inl (reached, empty) ↦ absurd (nonempty sent.path 63 sent.query (sym empty))
        | inr (short, issued) ↦
            let (path, limit, goes') =
              issued-GoesOn request again end later sent language small positive plain plain' issued
                read in
            let rest_is =
              Walk-GoesOn again rest end (omega (arith, limit)) (omega (arith, limit))
                (subst (Lacks 63) (sym path) plain) goes' walk in
            joined found (page_limit request) end items rest (omega arith) same rest_is
            ∙ ap (λ o. map represent (drop o values)) e
      ]

  -- A client that starts without a cursor and comes to the end of the pages has collected exactly the
  -- values of the list, represented, each once and in their order, where no request has a limit above
  -- 100.
  pub Walk-list :
      (request : CatalogRequest) (collected : List T)
      → request.cursor ≡ none
      → request.limit ≤ 100
      → Lacks 63 request.path
      → Walk lib parse_query key values represent request collected
      → collected ≡ map represent values
  unfolding page_limit decode_cursor
  Walk-list request collected started small plain walk =
      Walk-GoesOn request collected 0 (ground arith) (ground arith) plain
        (λ now found h. ground arith) walk
