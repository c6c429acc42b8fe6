-- ===== src/Core/Json.antt =====
-- `serde_json::Value` as the source reads and edits it. A number is kept by its spelling.
pub mod Laws
use odp_rust.Prelude.{
  Bool, true, false, ◌&&◌, ◌||◌, Option, none, some, List, [], ◌∷◌, if◌then◌else◌, ◌==◌,
}
use odp_rust.Prelude.Text.{Text, text_eq}

mutual
  pub data Value : Type 0 where
    null : Value
    boolean : Bool → Value
    number string : Text → Value
    array : Values → Value
    object : Members → Value

  pub data Values : Type 0 where
    empty_array : Values
    value_then : Value → Values → Values

  pub data Members : Type 0 where
    empty_object : Members
    member_then : Text → Value → Members → Members

-- `as_str`, `as_array` and `as_object`
abbrev pub as_str : Value → Option Text
as_str (string s) = some s
as_str _ = none

abbrev pub as_array : Value → Option Values
as_array (array items) = some items
as_array _ = none

abbrev pub as_object : Value → Option Members
as_object (object members) = some members
as_object _ = none

-- `get` of a map, and of a value.
unfoldable pub get_member : Text → Members → Option Value
get_member k empty_object = none
get_member k (member_then j v rest) =
    let found = get_member k rest in if j == k then some v else found

unfoldable pub get : Text → Value → Option Value
get k (object members) = get_member k members
get k _ = none

unfoldable pub set_member : Text → Value → Members → Members
set_member k v empty_object = empty_object
set_member k v (member_then j w rest) =
    let set_rest = set_member k v rest in
    if j == k then member_then j v rest else member_then j w set_rest

unfoldable pub remove_member : Text → Members → Members
remove_member k empty_object = empty_object
remove_member k (member_then j v rest) =
    let without = remove_member k rest in if j == k then without else member_then j v without

unfoldable pub retain_members : (Text → Bool) → Members → Members
retain_members keep empty_object = empty_object
retain_members keep (member_then j v rest) =
    let kept = retain_members keep rest in if keep j then member_then j v kept else kept

-- `keys().all` and `keys().any`
unfoldable pub all_keys : (Text → Bool) → Members → Bool
all_keys p empty_object = true
all_keys p (member_then j v rest) = p j && all_keys p rest

unfoldable pub retain_values : (Value → Bool) → Values → Values
retain_values keep empty_array = empty_array
retain_values keep (value_then v rest) =
    let kept = retain_values keep rest in if keep v then value_then v kept else kept

unfoldable pub map_values : (Value → Value) → Values → Values
map_values f empty_array = empty_array
map_values f (value_then v rest) = value_then (f v) (map_values f rest)

unfoldable pub any_value : (Value → Bool) → Values → Bool
any_value p empty_array = false
any_value p (value_then v rest) = p v || any_value p rest

abbrev pub is_empty_array : Values → Bool
is_empty_array empty_array = true
is_empty_array _ = false

abbrev pub is_empty_object : Members → Bool
is_empty_object empty_object = true
is_empty_object _ = false

-- The values under some key of a document, one level after another.
abbrev pub pointer : List Text → Value → Option Value
pointer [] v = some v
pointer (k ∷ ks) v = elim (get k v) [ none ↦ none | some w ↦ pointer ks w ]
