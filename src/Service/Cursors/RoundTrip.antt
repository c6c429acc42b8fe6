-- ===== src/Service/Cursors/RoundTrip.antt =====
-- crates/odp-service/src/static_catalog.rs: what a continuation that was issued decodes to, and
-- what one that is accepted was.
use odp_rust.Prelude.{
  ℕ, ◌+◌, ◌≡◌, ◌≤◌, ◌↔◌, refl, ap, subst, ◌∙◌, true, false, ◌∷◌, ◌++◌, some, ok, err, nat_eq, leb,
  arith, if◌then◌else◌,
}
use odp_rust.Prelude.Text.{Text, text_eq, text_eq_iff, split_once}
use odp_rust.Prelude.Text.Laws.{Lacks, split_once-append}
use odp_rust.Service.Requests.{CatalogRequest}
use odp_rust.Service.Cursors.{
  Cursor, Mac, CursorLib, cursor_for, cursor_pairs, encode_cursor, read_cursor, decode_cursor,
  expiry, names_other, representation_name, expired_cursor, unix_seconds,
}

-- What the crates promise: JSON and base64 are read back as they were written, base64 has no
-- dot, and a MAC accepts exactly what it gives.
pub record Laws (lib : CursorLib) : Type 0 where
  pub from_slice-to_vec :
      (cursor : Cursor) (data' : Text)
      → lib.to_vec cursor ≡ ok data'
      → lib.from_slice data' ≡ some cursor
  pub decode-encode : (s : Text) → lib.decode (lib.encode s) ≡ some s
  pub encode-Lacks : (s : Text) → Lacks 46 (lib.encode s)
  pub verify_slice_iff :
      (key : Text) (mac : Mac)
      → lib.new_from_slice key ≡ ok mac
      → (message tag : Text) → (mac.verify_slice message tag ≡ true) ↔ (tag ≡ mac.finalize message)

-- A continuation expires an hour after the second in which it was issued.
pub expiry_lem :
    (now expires seconds : ℕ)
    → expiry now ≡ some expires
    → unix_seconds now ≡ some seconds
    → expires ≡ seconds + 3600
unfolding expiry
expiry_lem now expires seconds h k = ground arith

module _ (lib : CursorLib) (request : CatalogRequest) (limit offset : ℕ) (key : Text)
    (now : ℕ) where
  encode_cursor_inv :
      (next : Text)
      → encode_cursor lib request limit offset key now ≡ ok next
      → (expires : ℕ) × (expiry now ≡ some expires)
        × (data' : Text) × (lib.to_vec (cursor_for request limit expires offset) ≡ ok data')
        × (mac : Mac) × (lib.new_from_slice key ≡ ok mac)
        × (next
            ≡ request.path
              ++ 63
                ∷ lib.serialize_query (
                    cursor_pairs request limit
                      (lib.encode data' ++ 46 ∷ lib.encode (mac.finalize (lib.encode data')))))
  unfolding encode_cursor
  encode_cursor_inv next h = ground arith

  -- What an accepted continuation is: a cursor for the request that has not expired, under the
  -- MAC of its own bytes.
  abbrev pub IsSigned : Text → Type 0
  IsSigned cursor =
      (payload signature : Text) × (split_once 46 cursor ≡ some (payload, signature))
      × (mac : Mac) × (lib.new_from_slice key ≡ ok mac)
      × (lib.decode signature ≡ some (mac.finalize payload))
      × (data' : Text) × (lib.decode payload ≡ some data')
      × (expires : ℕ) × (lib.from_slice data' ≡ some (cursor_for request limit expires offset))
      × (seconds : ℕ) × (unix_seconds now ≡ some seconds)
      × (seconds ≤ expires)

  read_cursor_inv :
      (cursor : Text)
      → read_cursor lib request limit cursor key now ≡ ok offset
      → (parts : Text × Text) × (split_once 46 cursor ≡ some parts)
        × (tag : Text) × (lib.decode parts.1 ≡ some tag)
        × (mac : Mac) × (lib.new_from_slice key ≡ ok mac)
        × (mac.verify_slice parts.0 tag ≡ true)
        × (data' : Text) × (lib.decode parts.0 ≡ some data')
        × (value : Cursor) × (lib.from_slice data' ≡ some value)
        × (seconds : ℕ) × (unix_seconds now ≡ some seconds)
        × (seconds ≤ value.expires)
        × (names_other request limit value ≡ false)
        × (value.offset ≡ offset)
  unfolding read_cursor
  read_cursor_inv cursor h = ground arith

  -- The verdict on a continuation that is signed and names the request.
  read_cursor_verdict :
      (cursor payload tag' tag data' : Text) (mac : Mac) (value : Cursor) (seconds : ℕ)
      → split_once 46 cursor ≡ some (payload, tag')
      → lib.decode tag' ≡ some tag
      → lib.new_from_slice key ≡ ok mac
      → mac.verify_slice payload tag ≡ true
      → lib.decode payload ≡ some data'
      → lib.from_slice data' ≡ some value
      → unix_seconds now ≡ some seconds
      → names_other request limit value ≡ false
      → read_cursor lib request limit cursor key now
        ≡ (if leb seconds value.expires then ok value.offset else err expired_cursor)
  unfolding read_cursor
  read_cursor_verdict cursor payload tag' tag data' mac value seconds a b c d e f g h = ground arith

names_other_iff :
    (request : CatalogRequest) (limit : ℕ) (value : Cursor)
    → (names_other request limit value ≡ false)
      ↔ (value ≡ cursor_for request limit value.expires value.offset)
names_other_iff request limit value =
    let same_path = text_eq_iff value.path request.path in
    let same_name = text_eq_iff value.representation (representation_name request) in
    (λ h. ground (arith, same_path, same_name), λ h. ground (arith, same_path, same_name))

module _ (lib : CursorLib) (laws : Laws lib) (request : CatalogRequest) (limit offset : ℕ)
    (key : Text) (now : ℕ) where
  -- What is accepted was signed for the request: a continuation decodes to an offset exactly when
  -- it is a cursor for the path, the limit and the representation of the request, under the MAC of
  -- its own bytes, and has not expired.
  pub read_cursor_iff :
      (cursor : Text)
      → (read_cursor lib request limit cursor key now ≡ ok offset)
        ↔ IsSigned lib request limit offset key now cursor
  read_cursor_iff cursor = (
    λ h.
        let (
          parts, cut, tag, tagged, mac, keyed, verified, data', decoded, value, read, seconds,
          clock, early, same, at,
        ) =
          read_cursor_inv lib request limit offset key now cursor h in
        let mine = (names_other_iff request limit value).0 same in
        let signed = (laws.verify_slice_iff key mac keyed parts.0 tag).0 verified in
        (
          parts.0,
          parts.1,
          cut,
          mac,
          keyed,
          tagged ∙ ap some signed,
          data',
          decoded,
          value.expires,
          read ∙ ap some (mine ∙ ap (cursor_for request limit value.expires) at),
          seconds,
          clock,
          early,
        ),
    λ (
      payload, signature, cut, mac, keyed, tagged, data', decoded, expires, read, seconds, clock,
      early,
    ).
        let value = cursor_for request limit expires offset in
        let verified =
          (laws.verify_slice_iff key mac keyed payload (mac.finalize payload)).1 refl in
        let verdict =
          read_cursor_verdict lib request limit offset key now cursor payload signature
            (mac.finalize payload) data' mac value seconds cut tagged keyed verified decoded read
            clock ((names_other_iff request limit value).1 refl) in
        let early' : (if leb seconds expires then ok offset else err expired_cursor) ≡ ok offset =
          ground arith in
        verdict ∙ early',
  )

  -- What becomes of a continuation that was issued, by when it expires.
  pub issued_inv :
      (next : Text)
      → encode_cursor lib request limit offset key now ≡ ok next
      → (expires : ℕ) × (expiry now ≡ some expires)
        × (cursor : Text) × (next
            ≡ request.path ++ 63 ∷ lib.serialize_query (cursor_pairs request limit cursor))
        × ((again : CatalogRequest) (later seconds : ℕ)
            → again.cursor ≡ some cursor
            → again.path ≡ request.path
            → again.representation ≡ request.representation
            → unix_seconds later ≡ some seconds
            → decode_cursor lib again limit key later
              ≡ (if leb seconds expires then ok offset else err expired_cursor))
  unfolding decode_cursor representation_name
  issued_inv next h =
      let (expires, expiring, data', written, mac, keyed, whole) =
        encode_cursor_inv lib request limit offset key now next h in
      let payload = lib.encode data' in
      let tag = lib.encode (mac.finalize payload) in
      (
        expires,
        expiring,
        payload ++ 46 ∷ tag,
        whole,
        λ again later seconds named path representation clock.
            let value = cursor_for request limit expires offset in
            let mine : value ≡ cursor_for again limit expires offset = cc (path, representation) in
            let cut = split_once-append 46 payload tag (laws.encode-Lacks data') in
            let verified =
              (laws.verify_slice_iff key mac keyed payload (mac.finalize payload)).1 refl in
            let verdict =
              read_cursor_verdict lib again limit offset key later (payload ++ 46 ∷ tag) payload tag
                (mac.finalize payload) data' mac value seconds cut
                (laws.decode-encode (mac.finalize payload)) keyed verified
                (laws.decode-encode data') (laws.from_slice-to_vec value data' written) clock
                ((names_other_iff again limit value).1 mine) in
            rw (decode_cursor, named) verdict,
      )

  -- A continuation that was issued is the path of its request with a cursor in its query, and the
  -- cursor decodes, for the same path, representation and limit, to the offset it was issued for; an
  -- hour after it was issued it is refused as expired.
  pub decode_cursor-encode_cursor :
      (next : Text) (issued : ℕ)
      → encode_cursor lib request limit offset key now ≡ ok next
      → unix_seconds now ≡ some issued
      → (cursor : Text) × (next
          ≡ request.path ++ 63 ∷ lib.serialize_query (cursor_pairs request limit cursor))
        × ((again : CatalogRequest) (later seconds : ℕ)
            → again.cursor ≡ some cursor
            → again.path ≡ request.path
            → again.representation ≡ request.representation
            → unix_seconds later ≡ some seconds
            → decode_cursor lib again limit key later
              ≡ (if leb seconds (issued + 3600) then ok offset else err expired_cursor))
  decode_cursor-encode_cursor next issued h clock =
      let (expires, expiring, cursor, whole, verdict) = issued_inv next h in
      let e = expiry_lem now expires issued expiring clock in
      (
        cursor,
        whole,
        λ again later seconds named path representation clock'.
            subst
              (λ x.
                decode_cursor lib again limit key later
                ≡ (if leb seconds x then ok offset else err expired_cursor))
              e (verdict again later seconds named path representation clock'),
      )

-- A continuation that decodes was read at a time.
pub decode_cursor-unix_seconds :
    (lib : CursorLib) (request : CatalogRequest) (limit offset : ℕ) (key cursor : Text) (now : ℕ)
    → request.cursor ≡ some cursor
    → decode_cursor lib request limit key now ≡ ok offset
    → (seconds : ℕ) × (unix_seconds now ≡ some seconds)
unfolding decode_cursor
decode_cursor-unix_seconds lib request limit offset key cursor now named h =
    let h' : read_cursor lib request limit cursor key now ≡ ok offset = ground arith in
    let (
      parts, cut, tag, tagged, mac, keyed, verified, data', decoded, value, read, seconds, clock,
      early, same, at,
    ) =
      read_cursor_inv lib request limit offset key now cursor h' in
    (seconds, clock)
