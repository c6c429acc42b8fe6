-- ===== src/Service/Cursors.antt =====
-- crates/odp-service/src/static_catalog.rs: the signed continuation of a page. A `SystemTime` is a
-- count of nanoseconds from 2^63 seconds before the epoch on, as Unix keeps it; the base64, hmac,
-- serde_json and url crates are parameters.
pub mod RoundTrip
pub mod Toy
mod Tests
use odp_rust.Prelude.{
  ℕ, ◌+◌, ◌-◌, ◌*◌, ◌/◌, ◌^◌, not, ◌||◌, Bool, Option, none, some, List, [], ◌∷◌, ◌++◌, Result, ok,
  err, ◌>>=◌, ◌>>◌, refuse_if, map_err, ok_or, ◌==◌, nat_eq, if◌then◌else◌, ltb,
}
use odp_rust.Prelude.Text.{Text, text, text_eq, split_once}
use odp_rust.Prelude.Numbers.{decimal}
use odp_rust.Core.Models.{Representation, terse, full}
use odp_rust.Service.Requests.{CatalogRequest, ServiceError, catalog_failure, request_error}

pub record Cursor : Type 0 where
  pub expires : ℕ
  pub limit : ℕ
  pub offset : ℕ
  pub path : Text
  pub representation : Text

-- A MAC under some key: what it gives for a message, and its test of what it was given.
pub record Mac : Type 0 where
  pub finalize : Text → Text
  pub verify_slice : Text → Text → Bool

pub record CursorLib : Type 0 where
  pub to_vec : Cursor → Result Text Text
  pub from_slice : Text → Option Cursor
  pub encode : Text → Text
  pub decode : Text → Option Text
  pub new_from_slice : Text → Result Text Mac
  pub serialize_query : List (Text × Text) → Text

abbrev pub nanoseconds : ℕ
nanoseconds = 1000000000

-- `UNIX_EPOCH`, `SystemTime::checked_add`, and `duration_since` of the epoch in seconds.
abbrev pub unix_epoch : ℕ
unix_epoch = 2 ^ 63 * nanoseconds

abbrev pub checked_add : ℕ → ℕ → Option ℕ
checked_add time duration =
    if ltb (time + duration) (2 ^ 64 * nanoseconds) then some (time + duration) else none

abbrev pub unix_seconds : ℕ → Option ℕ
unix_seconds time = if ltb time unix_epoch then none else some ((time - unix_epoch) / nanoseconds)

abbrev pub continuation_lifetime : ℕ
continuation_lifetime = 60 * 60 * nanoseconds

unfoldable pub representation_name : CatalogRequest → Text
representation_name request = elim request.representation [
  | terse ↦ text "terse"
  | full ↦ text "full"
]

unfoldable pub invalid_cursor : ServiceError
invalid_cursor =
    request_error 410 (text "CONTINUATION_UNAVAILABLE") (text "Continuation is unavailable")

unfoldable pub expired_cursor : ServiceError
expired_cursor = request_error 410 (text "CONTINUATION_EXPIRED") (text "Continuation has expired")

unfoldable pub expiry : ℕ → Option ℕ
expiry now = elim (checked_add now continuation_lifetime) [
  | none ↦ none
  | some time ↦ unix_seconds time
]

module _ (request : CatalogRequest) (limit : ℕ) where
  abbrev pub cursor_for : ℕ → ℕ → Cursor
  cursor_for expires offset = record {
    expires = expires;
    limit = limit;
    offset = offset;
    path = request.path;
    representation = representation_name request;
  }

  -- What a continuation names beside its path.
  abbrev pub cursor_pairs : Text → List (Text × Text)
  cursor_pairs cursor =
      (text "cursor", cursor)
      ∷ ((text "limit", decimal limit)
          ∷ ((text "representation", representation_name request) ∷ []))

  abbrev pub names_other : Cursor → Bool
  names_other value =
      not (value.limit == limit)
      || (not (value.path == request.path)
          || not (value.representation == representation_name request))

module _ (lib : CursorLib) (request : CatalogRequest) (limit : ℕ) where
  unfoldable pub encode_cursor : ℕ → Text → ℕ → Result ServiceError Text
  encode_cursor offset continuation_key now = do
    expires ← ok_or (expiry now) (catalog_failure (text "system clock is unavailable"))
    data' ← map_err catalog_failure (lib.to_vec (cursor_for request limit expires offset))
    let payload = lib.encode data'
    mac ← map_err catalog_failure (lib.new_from_slice continuation_key)
    let signature = lib.encode (mac.finalize payload)
    ok (
        request.path
        ++ 63 ∷ lib.serialize_query (cursor_pairs request limit (payload ++ 46 ∷ signature)))

  unfoldable pub read_cursor : Text → Text → ℕ → Result ServiceError ℕ
  read_cursor cursor continuation_key now = do
    parts ← ok_or (split_once 46 cursor) invalid_cursor
    signature ← ok_or (lib.decode parts.1) invalid_cursor
    mac ← map_err (λ e. invalid_cursor) (lib.new_from_slice continuation_key)
    refuse_if (not (mac.verify_slice parts.0 signature)) invalid_cursor
    data' ← ok_or (lib.decode parts.0) invalid_cursor
    value ← ok_or (lib.from_slice data') invalid_cursor
    seconds ← ok_or (unix_seconds now) invalid_cursor
    refuse_if (ltb value.expires seconds) expired_cursor
    refuse_if (names_other request limit value) invalid_cursor
    ok value.offset

  unfoldable pub decode_cursor : Text → ℕ → Result ServiceError ℕ
  decode_cursor continuation_key now = elim request.cursor [
    | none ↦ ok 0
    | some cursor ↦ read_cursor cursor continuation_key now
  ]
