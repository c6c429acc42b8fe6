-- ===== src/Core/Validation/Known.antt =====
-- crates/odp-core/src/validation.rs: which Actions, prices and schemas of an Offering an Agent knows.
use mathlib.Core.Option
use odp_rust.Prelude.{
  ◌≡◌, ◌↔◌, ◌⊎◌, refl, Bool, true, false, not, ◌||◌, Option, none, some, List, [], ◌∷◌,
  if◌then◌else◌, arith,
}
use odp_rust.Prelude.Text.{Text, text, text_eq, text_eq_iff}
use odp_rust.Core.Json.{
  Value, null, boolean, number, string, array, object, Members, empty_object, member_then, as_str,
  as_object, all_keys, pointer,
}
use odp_rust.Core.Validation.Filters.{is_among, has_unknown_authentication}
use odp_rust.Core.Validation.Normalize.{is_other, is_extended, known_action}

abbrev pub OneOf : List Text → Text → Type 0
OneOf [] s = ⊥
OneOf (name ∷ names) s = (name ≡ s) ⊎ OneOf names s

-- A text is one of these; what is no text, or is not there, may be anything.
abbrev pub SaysOneOf : List Text → Option Value → Type 0
SaysOneOf names (some (string s)) = OneOf names s
SaysOneOf names _ = Unit

abbrev pub AllKeys : (Text → Type 0) → Members → Type 0
AllKeys P empty_object = Unit
AllKeys P (member_then k v rest) = P k × AllKeys P rest

-- An object has no other members than these; what is no object may be anything.
abbrev pub HasOnly : List Text → Option Value → Type 0
HasOnly names (some (object members)) = AllKeys (OneOf names) members
HasOnly names _ = Unit

-- An Action that asks for an authentication that is known, by a method that is known, and that has
-- no members that are not, in itself and in what it says of HTTP and of OpenAPI.
abbrev pub IsKnownAction : Value → Type 0
IsKnownAction action =
    SaysOneOf (text "not-required" ∷ text "optional" ∷ text "required" ∷ [])
      (pointer (text "authentication" ∷ []) action)
    × SaysOneOf (text "GET" ∷ text "POST" ∷ []) (pointer (text "http" ∷ text "method" ∷ []) action)
    × HasOnly
        (text "authentication"
          ∷ text "description"
          ∷ text "http"
          ∷ text "id"
          ∷ text "openapi"
          ∷ text "rel"
          ∷ [])
        (some action)
    × HasOnly (text "href" ∷ text "method" ∷ text "request" ∷ text "response_content_types" ∷ [])
        (pointer (text "http" ∷ []) action)
    × HasOnly (text "content_type" ∷ text "schema" ∷ [])
        (pointer (text "http" ∷ text "request" ∷ []) action)
    × HasOnly (text "url" ∷ []) (pointer (text "http" ∷ text "request" ∷ text "schema" ∷ []) action)
    × HasOnly (text "operation_id" ∷ text "url" ∷ []) (pointer (text "openapi" ∷ []) action)

is_among_iff : (names : List Text) (s : Text) → (is_among names s ≡ true) ↔ OneOf names s
is_among_iff [] s = ((λ h. absurd cc), (λ h. absurd h))
is_among_iff (name ∷ names) s = ground (arith, is_among_iff names s, text_eq_iff name s)

all_keys_iff :
    (names : List Text) (members : Members)
    → (all_keys (is_among names) members ≡ true) ↔ AllKeys (OneOf names) members
unfolding all_keys
all_keys_iff names empty_object = ((λ h. tt), (λ u. refl))
all_keys_iff names (member_then k v rest) =
    ground (arith, is_among_iff names k, all_keys_iff names rest)

pub is_other_iff :
    (names : List Text) (found : Option Value)
    → (is_other names (Option.bind found as_str) ≡ false) ↔ SaysOneOf names found
unfolding Option.bind
is_other_iff names (some (string s)) = ground (arith, is_among_iff names s)
is_other_iff names none = ((λ h. tt), (λ u. refl))
is_other_iff names (some null) = ((λ h. tt), (λ u. refl))
is_other_iff names (some (boolean b)) = ((λ h. tt), (λ u. refl))
is_other_iff names (some (number n)) = ((λ h. tt), (λ u. refl))
is_other_iff names (some (array items)) = ((λ h. tt), (λ u. refl))
is_other_iff names (some (object members)) = ((λ h. tt), (λ u. refl))

pub is_extended_iff :
    (names : List Text) (found : Option Value)
    → (is_extended names (Option.bind found as_object) ≡ false) ↔ HasOnly names found
unfolding Option.bind
is_extended_iff names (some (object members)) = ground (arith, all_keys_iff names members)
is_extended_iff names none = ((λ h. tt), (λ u. refl))
is_extended_iff names (some null) = ((λ h. tt), (λ u. refl))
is_extended_iff names (some (boolean b)) = ((λ h. tt), (λ u. refl))
is_extended_iff names (some (number n)) = ((λ h. tt), (λ u. refl))
is_extended_iff names (some (array items)) = ((λ h. tt), (λ u. refl))
is_extended_iff names (some (string s)) = ((λ h. tt), (λ u. refl))

-- The tests of the source, one after another.
no_test_iff :
    (a b c d e f g : Bool)
    → ((if a || b || c || d || e || f then false else not g) ≡ true) ↔ (
        (a ≡ false)
        × (g ≡ false)
        × (b ≡ false)
        × (c ≡ false)
        × (d ≡ false)
        × (e ≡ false)
        × (f ≡ false))
no_test_iff true b c d e f g = ground arith
no_test_iff false true c d e f g = ground arith
no_test_iff false false c d e f g = ground arith

pub known_action_iff : (action : Value) → (known_action action ≡ true) ↔ IsKnownAction action
unfolding known_action has_unknown_authentication Option.bind
known_action_iff action =
    let authentication =
      is_other_iff (text "not-required" ∷ text "optional" ∷ text "required" ∷ [])
        (pointer (text "authentication" ∷ []) action) in
    let method =
      is_other_iff (text "GET" ∷ text "POST" ∷ [])
        (pointer (text "http" ∷ text "method" ∷ []) action) in
    let members =
      is_extended_iff
        (text "authentication"
          ∷ text "description"
          ∷ text "http"
          ∷ text "id"
          ∷ text "openapi"
          ∷ text "rel"
          ∷ [])
        (some action) in
    let http =
      is_extended_iff
        (text "href" ∷ text "method" ∷ text "request" ∷ text "response_content_types" ∷ [])
        (pointer (text "http" ∷ []) action) in
    let request =
      is_extended_iff (text "content_type" ∷ text "schema" ∷ [])
        (pointer (text "http" ∷ text "request" ∷ []) action) in
    let schema =
      is_extended_iff (text "url" ∷ [])
        (pointer (text "http" ∷ text "request" ∷ text "schema" ∷ []) action) in
    let openapi =
      is_extended_iff (text "operation_id" ∷ text "url" ∷ [])
        (pointer (text "openapi" ∷ []) action) in
    let tests = no_test_iff _ _ _ _ _ _ _ in
    (
      (λ h.
          let (a, g, b, c, d, e, f) = tests.0 h in
          (
            authentication.0 a,
            method.0 g,
            members.0 b,
            http.0 c,
            request.0 d,
            schema.0 e,
            openapi.0 f,
          )),
      (λ (a, g, b, c, d, e, f). tests.1 (
        authentication.1 a,
        method.1 g,
        members.1 b,
        http.1 c,
        request.1 d,
        schema.1 e,
        openapi.1 f,
      )),
    )
