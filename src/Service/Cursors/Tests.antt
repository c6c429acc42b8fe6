-- ===== src/Service/Cursors/Tests.antt =====
-- A continuation under the codec of Service/Cursors/Toy.
use odp_rust.Prelude.{ℕ, ◌+◌, ◌≡◌, ◌↔◌, refl, none, some, ◌∷◌, ◌++◌, ok, err, leb, if◌then◌else◌}
use odp_rust.Prelude.Text.{Text, text}
use odp_rust.Core.Models.{full}
use odp_rust.Service.Requests.{CatalogRequest}
use odp_rust.Service.Cursors.{
  encode_cursor, decode_cursor, read_cursor, cursor_pairs, expired_cursor, expiry,
  representation_name, unix_seconds, unix_epoch,
}
use odp_rust.Service.Cursors.RoundTrip.{read_cursor_iff, IsSigned, decode_cursor-encode_cursor}
use odp_rust.Service.Cursors.Toy.{toy_lib, toy-Laws}

abbrev listing : CatalogRequest
listing = record {
  accept_language = none;
  cursor = none;
  language = text "en";
  limit = 2;
  path = text "/odp/offerings";
  representation = full;
}

abbrev noon : ℕ
noon = unix_epoch + 1000000000000

abbrev cursor : Text
cursor =
    toy_lib.encode (4600 ∷ (2 ∷ (7 ∷ (14 ∷ (text "/odp/offerings" ++ text "full")))))
    ++ 46
      ∷ toy_lib.encode (
          text "key"
          ++ toy_lib.encode (4600 ∷ (2 ∷ (7 ∷ (14 ∷ (text "/odp/offerings" ++ text "full"))))))

abbrev issued : Text
issued = text "/odp/offerings" ++ 63 ∷ toy_lib.serialize_query (cursor_pairs listing 2 cursor)

issues : encode_cursor toy_lib listing 2 7 (text "key") noon ≡ ok issued
unfolding encode_cursor expiry representation_name
issues = refl

read_cursor_iff_example :
    (read_cursor toy_lib listing 2 cursor (text "key") noon ≡ ok 7)
    ↔ IsSigned toy_lib listing 2 7 (text "key") noon cursor
read_cursor_iff_example = read_cursor_iff toy_lib toy-Laws listing 2 7 (text "key") noon cursor

decode_cursor-encode_cursor_example :
    (found : Text) × (issued
      ≡ text "/odp/offerings" ++ 63 ∷ toy_lib.serialize_query (cursor_pairs listing 2 found))
    × ((again : CatalogRequest) (later seconds : ℕ)
        → again.cursor ≡ some found
        → again.path ≡ text "/odp/offerings"
        → again.representation ≡ full
        → unix_seconds later ≡ some seconds
        → decode_cursor toy_lib again 2 (text "key") later
          ≡ (if leb seconds 4600 then ok 7 else err expired_cursor))
decode_cursor-encode_cursor_example =
    decode_cursor-encode_cursor toy_lib toy-Laws listing 2 7 (text "key") noon issued 1000 issues
      refl
