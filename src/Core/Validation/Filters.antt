-- ===== src/Core/Validation/Filters.antt =====
-- crates/odp-core/src/validation.rs: the edits that leave out of a document what an Agent does not
-- know, member by member.
use mathlib.Core.Option
use odp_rust.Prelude.{
  Bool, true, not, ◌&&◌, ◌||◌, Option, none, some, List, [], ◌∷◌, any, if◌then◌else◌, ◌==◌,
}
use odp_rust.Prelude.Text.{Text, text, text_eq}
use odp_rust.Core.References.{is_some_and}
use odp_rust.Core.Json.{
  Value, object, array, Values, Members, as_str, as_object, get_member, set_member, remove_member,
  retain_members, all_keys, retain_values, map_values, is_empty_array, is_empty_object, pointer,
}

-- `is_none_or`
abbrev pub is_none_or {ℓ} : {A : Type ℓ} → Option A → (A → Bool) → Bool
is_none_or none p = true
is_none_or (some a) p = p a

-- `recognized.contains(&value)`
abbrev pub is_among : List Text → Text → Bool
is_among recognized value = any (λ name. name == value) recognized

abbrev pub text_at : List Text → Value → Option Text
text_at path v = Option.bind (pointer path v) as_str

abbrev pub members_at : List Text → Value → Option Members
members_at path v = Option.bind (pointer path v) as_object

-- `as_object_mut`: an edit of what is an object.
abbrev pub on_object : (Members → Members) → Value → Value
on_object edit (object members) = object (edit members)
on_object edit v = v

-- `as_array_mut`
abbrev pub on_array : (Values → Values) → Value → Value
on_array edit (array items) = array (edit items)
on_array edit v = v

-- `get_mut`: an edit of a member that is there.
unfoldable pub on_member : Text → (Value → Value) → Members → Members
on_member member edit members = elim (get_member member members) [
  | none ↦ members
  | some v ↦ set_member member (edit v) members
]

-- `if items.is_empty() { object.remove(member) }`
abbrev pub store_items : Text → Members → Values → Members
store_items member members kept =
    if is_empty_array kept
    then remove_member member members
    else set_member member (array kept) members

abbrev pub retain_found : (Value → Bool) → Text → Members → Option Value → Members
retain_found keep member members (some (array items)) =
    store_items member members (retain_values keep items)
retain_found keep member members _ = members

-- A list of an object without some of its items, and the object without the list if none is left.
unfoldable pub retain_list : (Value → Bool) → Text → Members → Members
retain_list keep member members = retain_found keep member members (get_member member members)

unfoldable pub is_recognized : Text → List Text → Value → Bool
is_recognized discriminator recognized item =
    is_none_or (text_at (discriminator ∷ []) item) (is_among recognized)

unfoldable pub filter_list : Text → Text → List Text → Value → Value
filter_list member discriminator recognized =
    on_object (retain_list (is_recognized discriminator recognized) member)

unfoldable pub is_closed : List Text → Value → Bool
is_closed allowed item = is_none_or (as_object item) (all_keys (is_among allowed))

unfoldable pub filter_closed_object_list : Text → List Text → Value → Value
filter_closed_object_list member allowed = on_object (retain_list (is_closed allowed) member)

abbrev pub authentications : List Text
authentications = text "not-required" ∷ text "optional" ∷ text "required" ∷ []

unfoldable pub has_unknown_authentication : Value → Bool
has_unknown_authentication v =
    is_some_and (text_at (text "authentication" ∷ []) v)
      (λ authentication. not (is_among authentications authentication))

unfoldable pub filter_unknown_authentication : Text → Value → Value
filter_unknown_authentication member =
    on_object (retain_list (λ item. not (has_unknown_authentication item)) member)

unfoldable pub strip_object_list : Text → List Text → Value → Value
strip_object_list member allowed =
    on_object
      (on_member member (on_array (map_values (on_object (retain_members (is_among allowed))))))

abbrev pub payment_options : List Text
payment_options =
    text "algorand"
    ∷ text "aptos"
    ∷ text "arbitrum"
    ∷ text "arc"
    ∷ text "avalanche"
    ∷ text "base"
    ∷ text "card"
    ∷ text "ethereum"
    ∷ text "hedera"
    ∷ text "inflow"
    ∷ text "lightning"
    ∷ text "monad"
    ∷ text "polygon"
    ∷ text "solana"
    ∷ text "stellar"
    ∷ text "stripe"
    ∷ text "tempo"
    ∷ text "ton"
    ∷ []

unfoldable pub filter_payment_options : Value → Value
filter_payment_options = on_object (
    on_member (text "protocols") (
      on_object (
        on_member (text "payments") (
          on_array (
            map_values (
              on_object (
                retain_list (λ option. is_none_or (as_str option) (is_among payment_options))
                  (text "options"))))))))

abbrev pub brand_types : List Text
brand_types = text "image/png" ∷ text "image/svg+xml" ∷ text "image/webp" ∷ []

unfoldable pub has_unknown_image : Text → Members → Bool
has_unknown_image member branding =
    is_some_and (text_at (member ∷ text "type" ∷ []) (object branding))
      (λ image_type. not (is_among brand_types image_type))

-- The loop over `icon` and `logo`; none where the branding is left out.
unfoldable pub brand_images : List Text → Members → Option Members
brand_images [] branding = some branding
brand_images (member ∷ members) branding =
    let rest = brand_images members (
      on_member member (on_object (retain_members (λ k. k == text "src" || k == text "type")))
        branding) in
    if has_unknown_image member branding then none else rest

abbrev pub brand_members : List Text
brand_members = text "icon" ∷ text "logo" ∷ []

abbrev pub store_branding : Members → Option Members → Members
store_branding members none = remove_member (text "branding") members
store_branding members (some branding) =
    if is_empty_object branding
    then remove_member (text "branding") members
    else set_member (text "branding") (object branding) members

abbrev pub normalize_found_branding : Members → Option Value → Members
normalize_found_branding members (some (object branding)) =
    store_branding members
      (brand_images brand_members (retain_members (is_among brand_members) branding))
normalize_found_branding members _ = members

unfoldable pub normalize_branding : Value → Value
normalize_branding =
    on_object (λ members. normalize_found_branding members (get_member (text "branding") members))

unfoldable pub filter_problem_parameters : Value → Value
filter_problem_parameters = on_object (
    on_member (text "invalid_params") (
      on_array (
        retain_values (
          is_recognized (text "in")
            (text "body" ∷ text "header" ∷ text "path" ∷ text "query" ∷ [])))))

abbrev pub retain_category : List Text → Text → Members → Option Value → Members
retain_category recognized category protocols (some (array descriptors)) =
    let kept = retain_values (is_recognized (text "name") recognized) descriptors in
    if not (is_empty_array descriptors) && is_empty_array kept
    then remove_member category protocols
    else set_member category (array kept) protocols
retain_category recognized category protocols _ = protocols

unfoldable pub filter_agent_protocol_category : Text → List Text → Members → Members
filter_agent_protocol_category category recognized protocols =
    retain_category recognized category protocols (get_member category protocols)

abbrev pub known_protocols : Members → Members
known_protocols protocols = filter_agent_protocol_category (text "trust") (text "tap" ∷ []) (
    filter_agent_protocol_category (text "payments") (text "mpp" ∷ text "x402" ∷ [])
      (filter_agent_protocol_category (text "enrollment") (text "aep" ∷ []) protocols))

abbrev pub store_protocols : Members → Option Value → Members
store_protocols document (some (object protocols)) =
    let known = known_protocols protocols in
    if is_empty_object known
    then remove_member (text "protocols") document
    else set_member (text "protocols") (object known) document
store_protocols document _ = document

unfoldable pub filter_agent_protocols : Value → Value
filter_agent_protocols =
    on_object (λ document. store_protocols document (get_member (text "protocols") document))
