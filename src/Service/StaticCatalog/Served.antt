-- ===== src/Service/StaticCatalog/Served.antt =====
-- crates/odp-service: a client that follows the continuations of a list comes to its end.
use odp_rust.Prelude.{
  ℕ, zero, suc, ◌+◌, ◌-◌, ◌^◌, ◌≡◌, ◌≤◌, ◌<◌, refl, ap, sym, subst, ◌∙◌, min, true, none, some,
  List, [], ◌∷◌, ◌++◌, map, ok, err, if◌then◌else◌, ltb, leb, length, take, drop, arith, Bool-cases,
  inl, inr, nat_eq,
}
use odp_rust.Prelude.Text.{Text, text}
use odp_rust.Prelude.Text.Laws.{Lacks}
use odp_rust.Service.Requests.{CatalogRequest, Request}
use odp_rust.Service.Cursors.{
  Cursor, Mac, CursorLib, cursor_for, encode_cursor, decode_cursor, cursor_pairs, expired_cursor,
  expiry, unix_seconds,
}
use odp_rust.Service.Cursors.RoundTrip.{Laws, issued_inv, expiry_lem}
use odp_rust.Service.Queries.Continued.{asked, catalog_request-cursor_pairs}
use odp_rust.Service.StaticCatalog.{page_limit, next_link}
use odp_rust.Service.StaticCatalog.Pages.{page_answer}
use odp_rust.Service.StaticCatalog.Walks.{Walk, last, continued, Walk-list, page_limit_given}

-- What a Service needs to issue continuations at a time: a clock after the epoch that does not end
-- within the hour, a key that the hmac crate takes, and cursors that serde_json writes.
pub record Issues (lib : CursorLib) (key : Text) (now : ℕ) : Type 0 where
  pub seconds : ℕ
  pub clock : unix_seconds now ≡ some seconds
  pub expires : ℕ
  pub expiring : expiry now ≡ some expires
  pub mac : Mac
  pub keyed : lib.new_from_slice key ≡ ok mac
  pub written : (cursor : Cursor) → (data' : Text) × (lib.to_vec cursor ≡ ok data')

pub encode_cursor-Issues :
    (lib : CursorLib) (key : Text) (now : ℕ)
    → Issues lib key now
    → (request : CatalogRequest) (limit offset : ℕ)
    → (next : Text) × (encode_cursor lib request limit offset key now ≡ ok next)
unfolding encode_cursor
encode_cursor-Issues lib key now issues request limit offset =
    let (data', written) = issues.written (cursor_for request limit issues.expires offset) in
    (
      request.path
          ++ 63
            ∷ lib.serialize_query (
                cursor_pairs request limit
                  (lib.encode data' ++ 46 ∷ lib.encode (issues.mac.finalize (lib.encode data')))),
      rw (issues.expiring, written, issues.keyed) refl,
    )

module _ (lib : CursorLib) (laws : Laws lib) (parse_query : Text → List (Text × Text))
    (parse-serialize : (pairs : List (Text × Text))
      → parse_query (lib.serialize_query pairs) ≡ pairs)
    (key : Text) (now : ℕ) (issues : Issues lib key now) {T : Type 0} (values : List T)
    (represent : T → T) (fits : length values < 2 ^ 63) where
  next_link_end :
      (request : CatalogRequest) (end : ℕ)
      → length values ≤ end
      → next_link lib key now now values request end ≡ ok []
  unfolding next_link
  next_link_end request end h = ground arith

  next_link_more :
      (request : CatalogRequest) (end : ℕ)
      → end < length values
      → next_link lib key now now values request end
        ≡ encode_cursor lib request (page_limit request) end key now
  unfolding next_link
  next_link_more request end h = ground arith

  sent_for : CatalogRequest → Text → Request
  sent_for request query = record {
    body = [];
    headers = [];
    method = text "GET";
    path = request.path;
    query = query;
  }

  abbrev Walked : CatalogRequest → Type 0
  Walked request =
      (collected : List T) × Walk lib parse_query key values represent request collected

  walk_last :
      (request : CatalogRequest) (offset : ℕ)
      → page_limit request ≤ 100
      → decode_cursor lib request (page_limit request) key now ≡ ok offset
      → offset ≤ length values
      → length values ≤ offset + page_limit request
      → Walked request
  walk_last request offset small decoded within reached =
      let end = min (offset + page_limit request) (length values) in
      let linked = next_link_end request end (omega arith) in
      (
        map represent (take (page_limit request) (drop offset values)),
        last now now (
            page_answer lib key now now values request represent (omega arith) offset (ok []) within
              decoded linked),
      )

  walk_continued :
      (request : CatalogRequest) (offset : ℕ)
      → page_limit request ≤ 100
      → 0 < page_limit request
      → Lacks 63 request.path
      → decode_cursor lib request (page_limit request) key now ≡ ok offset
      → offset + page_limit request < length values
      → ((again : CatalogRequest)
          → again.path ≡ request.path
          → page_limit again ≡ page_limit request
          → decode_cursor lib again (page_limit again) key now ≡ ok (offset + page_limit request)
          → Walked again)
      → Walked request
  unfolding sent_for
  walk_continued request offset small positive plain decoded short walk_on =
      let limit = page_limit request in
      let end = offset + limit in
      let (next, issued) = encode_cursor-Issues lib key now issues request limit end in
      let (expires, expiring, cursor, whole, verdict) =
        issued_inv lib laws request limit end key now next issued in
      let pairs = cursor_pairs request limit cursor in
      let sent = sent_for request (lib.serialize_query pairs) in
      let again = asked sent [] cursor limit request.representation in
      let same_limit = page_limit_given again positive in
      let read =
        catalog_request-cursor_pairs parse_query sent [] cursor limit request
          (parse-serialize pairs) positive small in
      let late = expiry_lem now expires issues.seconds expiring issues.clock in
      let early : leb issues.seconds expires ≡ true = ground arith in
      let decoded' : decode_cursor lib again (page_limit again) key now ≡ ok end =
        ap (λ l. decode_cursor lib again l key now) same_limit
        ∙ (verdict again now issues.seconds refl refl refl issues.clock
            ∙ ap (λ b. if b then ok end else err expired_cursor) early) in
      let (rest, walk) = walk_on again refl same_limit decoded' in
      let linked : next_link lib key now now values request (min end (length values))
          ≡ ok (request.path ++ 63 ∷ sent.query) =
        subst
          (λ k. next_link lib key now now values request k ≡ ok (request.path ++ 63 ∷ sent.query))
          {x = end} {y = min end (length values)} (omega arith)
          (next_link_more request end short ∙ (issued ∙ ap ok whole)) in
      (
        map represent (take limit (drop offset values)) ++ rest,
        continued now now sent []
            (page_answer lib key now now values request represent (omega arith) offset
              (ok (request.path ++ 63 ∷ sent.query)) (omega arith) decoded linked)
            plain read walk,
      )

  -- The walk from an offset, for as many pages as there are values left.
  walk_from :
      (left : ℕ) (request : CatalogRequest) (offset : ℕ)
      → page_limit request ≤ 100
      → 0 < page_limit request
      → Lacks 63 request.path
      → decode_cursor lib request (page_limit request) key now ≡ ok offset
      → offset ≤ length values
      → length values - offset ≤ left
      → Walked request
  walk_from zero request offset small positive plain decoded within enough =
      walk_last request offset small decoded within (omega arith)
  walk_from (suc left) request offset small positive plain decoded within enough =
      elim (Bool-cases (ltb (offset + page_limit request) (length values))) [
        | inr reached ↦ walk_last request offset small decoded within (ground arith)
        | inl more ↦
            let short : offset + page_limit request < length values = ground arith in
            walk_continued request offset small positive plain decoded short
              (λ again path limit decoded'.
                walk_from left again (offset + page_limit request) (omega (arith, limit))
                  (omega (arith, limit)) (subst (Lacks 63) (sym path) plain) decoded' (omega arith)
                  (omega arith))
      ]

  -- Such a client does come to the end: the pages of a list can be followed to the last one, and what
  -- they hold is the list, where the clock, the key and the JSON of cursors serve.
  pub Walk-served :
      (request : CatalogRequest)
      → request.cursor ≡ none
      → request.limit ≤ 100
      → Lacks 63 request.path
      → Walk lib parse_query key values represent request (map represent values)
  unfolding page_limit decode_cursor
  Walk-served request started small plain =
      let (collected, walk) =
        walk_from (length values) request 0 (ground arith) (ground arith) plain (ground arith)
          (omega arith) (omega arith) in
      subst (λ c. Walk lib parse_query key values represent request c)
        (Walk-list lib laws parse_query parse-serialize key values represent fits request collected
          started small plain walk)
        walk
