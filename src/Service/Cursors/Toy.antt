-- ===== src/Service/Cursors/Toy.antt =====
-- A small codec of continuations, at which the laws that Service/Cursors/RoundTrip names hold.
use odp_rust.Prelude.{
  ℕ, zero, suc, ◌+◌, ◌-◌, ◌≡◌, ◌↔◌, refl, ap, ap₂, subst, ◌∙◌, true, Option, none, some, List, [],
  ◌∷◌, ◌++◌, map, ok, ltb, if◌then◌else◌, ◌==◌, length, take, drop, arith,
}
use mathlib.Core.List.{append-nil}
use odp_rust.Prelude.Text.{Text, text_eq, text_eq_iff}
use odp_rust.Prelude.Text.Laws.{Lacks}
use odp_rust.Service.Cursors.{Cursor, Mac, CursorLib}
use odp_rust.Service.Cursors.RoundTrip.{Laws}

-- A cursor as its numbers, the length of its path and the rest.
abbrev written : Cursor → Text
written cursor =
    cursor.expires
    ∷ (cursor.limit
        ∷ (cursor.offset ∷ (length cursor.path ∷ (cursor.path ++ cursor.representation))))

abbrev read : Text → Option Cursor
read (expires ∷ (limit ∷ (offset ∷ (size ∷ rest)))) = some (record {
  expires = expires;
  limit = limit;
  offset = offset;
  path = take size rest;
  representation = drop size rest;
})
read _ = none

take-length : (xs ys : Text) → take (length xs) (xs ++ ys) ≡ xs
take-length [] ys = refl
take-length (x ∷ xs) ys = ap (λ l. x ∷ l) (take-length xs ys)

drop-length : (xs ys : Text) → drop (length xs) (xs ++ ys) ≡ ys
drop-length [] ys = refl
drop-length (x ∷ xs) ys = drop-length xs ys

read-written : (cursor : Cursor) → read (written cursor) ≡ some cursor
read-written cursor =
    rw
      (take-length cursor.path cursor.representation, drop-length cursor.path cursor.representation)
      refl

-- Every byte but the dot.
abbrev escape : ℕ → ℕ
escape c = if ltb c 46 then c else c + 1

abbrev unescape : ℕ → ℕ
unescape c = if ltb c 46 then c else c - 1

unescape-escape : (s : Text) → map unescape (map escape s) ≡ s
unescape-escape [] = refl
unescape-escape (c ∷ s) = ground (arith, unescape-escape s)

escape-Lacks : (s : Text) → Lacks 46 (map escape s)
escape-Lacks [] = tt
escape-Lacks (c ∷ s) = ((λ h. ground arith), escape-Lacks s)

-- A query as its bytes, two higher, with a 0 before a name and a 1 before a value.
abbrev raised : Text → Text
raised = map (λ c. suc (suc c))

abbrev serialize_query : List (Text × Text) → Text
serialize_query [] = []
serialize_query (pair ∷ pairs) = 0 ∷ (raised pair.0 ++ 1 ∷ (raised pair.1 ++ serialize_query pairs))

-- What was read from the end on: the bytes of the part, the value after it, and the pairs.
abbrev Parts : Type 0
Parts = Text × Text × List (Text × Text)

abbrev take_byte : ℕ → Parts → Parts
take_byte zero (part, value, pairs) = ([], [], (part, value) ∷ pairs)
take_byte (suc zero) (part, value, pairs) = ([], part, pairs)
take_byte (suc (suc c)) (part, value, pairs) = (c ∷ part, value, pairs)

abbrev parts : Text → Parts
parts [] = ([], [], [])
parts (c ∷ s) = take_byte c (parts s)

abbrev pub parse_query : Text → List (Text × Text)
parse_query s = (parts s).2

abbrev onto : Text → Parts → Parts
onto a (part, value, pairs) = (a ++ part, value, pairs)

parts-raised : (a s : Text) → parts (raised a ++ s) ≡ onto a (parts s)
parts-raised [] s = refl
parts-raised (c ∷ a) s = ap (take_byte (suc (suc c))) (parts-raised a s)

abbrev with_first : List (Text × Text) → Text → Text → Parts
with_first pairs name value = ([], [], (name, value) ∷ pairs)

parts-serialize_query :
    (pairs : List (Text × Text)) → parts (serialize_query pairs) ≡ ([], [], pairs)
parts-serialize_query [] = refl
parts-serialize_query ((name, value) ∷ pairs) =
    let after =
      parts-raised value (serialize_query pairs) ∙ ap (onto value) (parts-serialize_query pairs) in
    let before =
      parts-raised name (1 ∷ (raised value ++ serialize_query pairs))
      ∙ ap (λ p. onto name (take_byte 1 p)) after in
    ap (take_byte 0) before ∙ ap₂ (with_first pairs) (append-nil name) (append-nil value)

pub parse-serialize : (pairs : List (Text × Text)) → parse_query (serialize_query pairs) ≡ pairs
parse-serialize pairs = ap (λ p. p.2) (parts-serialize_query pairs)

abbrev pub toy_mac : Text → Mac
toy_mac key = record {
  finalize = λ message. key ++ message;
  verify_slice = λ message tag. tag == key ++ message;
}

abbrev pub toy_lib : CursorLib
toy_lib = record {
  to_vec = λ cursor. ok (written cursor);
  from_slice = read;
  encode = map escape;
  decode = λ s. some (map unescape s);
  new_from_slice = λ key. ok (toy_mac key);
  serialize_query = serialize_query;
}

pub toy-Laws : Laws toy_lib
toy-Laws = record {
  from_slice-to_vec =
      λ cursor data' h. let e : data' ≡ written cursor = cc h in ap read e ∙ read-written cursor;
  decode-encode = λ s. ap some (unescape-escape s);
  encode-Lacks = escape-Lacks;
  verify_slice_iff = λ key mac h message tag.
      let e : toy_mac key ≡ mac = cc h in
      subst (λ m. (m.verify_slice message tag ≡ true) ↔ (tag ≡ m.finalize message)) e
        (text_eq_iff tag (key ++ message));
}
