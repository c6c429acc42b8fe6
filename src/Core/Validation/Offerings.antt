-- ===== src/Core/Validation/Offerings.antt =====
-- crates/odp-core/src/validation.rs: how an Agent reads the members of an Offering.
use mathlib.Core.Option
use odp_rust.Prelude.{
  ◌≡◌, ◌≢◌, ◌↔◌, ◌⊎◌, inl, inr, refl, ap, ◌∙◌, Bool, true, false, ◌&&◌, ◌||◌, Option, none, some,
  [], ◌∷◌, ◌==◌, if◌then◌else◌, arith, Bool-cases,
}
use odp_rust.Prelude.Text.{Text, text, text_eq, text_beq}
use odp_rust.Core.Json.{
  Value, null, boolean, number, string, array, object, Values, empty_array, value_then, Members,
  as_str, get, get_member, remove_member, retain_values, pointer,
}
use odp_rust.Core.Json.Laws.{get_member-remove_member}
use odp_rust.Core.Validation.Filters.{members_at}
use odp_rust.Core.Validation.Normalize.{
  is_other, is_extended, known_action, drop_extended_schema, drop_unknown_price,
}
use odp_rust.Core.Validation.Kept.{kept_items, kept_list}
use odp_rust.Core.Validation.Known.{SaysOneOf, HasOnly, IsKnownAction, known_action_iff}

-- The Actions that are known, in their order.
pub data AreKnown : Values → Values → Type 0 where
  nothing : AreKnown empty_array empty_array
  keep :
      {action : Value} {actions known : Values}
      → IsKnownAction action
      → AreKnown actions known
      → AreKnown (value_then action actions) (value_then action known)
  leave :
      {action : Value} {actions known : Values}
      → ¬ IsKnownAction action
      → AreKnown actions known
      → AreKnown (value_then action actions) known

-- A list is read as its Actions that are known, and not at all if none is; what is no list stays.
abbrev pub IsReadList : Option Value → Option Value → Type 0
IsReadList (some (array actions)) read =
    (known : Values) × AreKnown actions known × (read ≡ kept_items known)
IsReadList found read = read ≡ found

-- A member is read where the condition holds, and not at all elsewhere.
abbrev pub IsReadIf : Type 0 → Option Value → Option Value → Type 0
IsReadIf P found read = (P × (read ≡ found)) ⊎ ((¬ P) × (read ≡ none))

abbrev pub HasKnownPrice : Value → Type 0
HasKnownPrice document =
    SaysOneOf
      (text "fixed"
        ∷ text "free"
        ∷ text "metered"
        ∷ text "quote"
        ∷ text "range"
        ∷ text "starting_at"
        ∷ [])
      (pointer (text "price" ∷ text "type" ∷ []) document)

abbrev pub HasKnownSchema : Value → Type 0
HasKnownSchema document = HasOnly (text "url" ∷ []) (pointer (text "schema" ∷ []) document)

-- How a member is read.
abbrev pub IsRead : Text → Value → Option Value → Type 0
IsRead k document read =
    ((k ≡ text "actions") × IsReadList (get k document) read)
    ⊎ (((k ≡ text "price") × IsReadIf (HasKnownPrice document) (get k document) read)
        ⊎ ((((k ≡ text "schema") ⊎ (k ≡ text "attributes"))
              × IsReadIf (HasKnownSchema document) (get k document) read)
            ⊎ ((k ≢ text "actions")
                × (k ≢ text "price")
                × (k ≢ text "schema")
                × (k ≢ text "attributes")
                × (read ≡ get k document))))

retain_values-AreKnown : (actions : Values) → AreKnown actions (retain_values known_action actions)
unfolding retain_values
retain_values-AreKnown empty_array = nothing
retain_values-AreKnown (value_then action actions) = elim (Bool-cases (known_action action)) [
  | inl known ↦
      rw (retain_values, known)
        (keep ((known_action_iff action).0 known) (retain_values-AreKnown actions))
  | inr unknown ↦
      rw (retain_values, unknown)
        (leave (λ h. absurd (cc ((known_action_iff action).1 h))) (retain_values-AreKnown actions))
]

pub kept_list-IsReadList : (found : Option Value) → IsReadList found (kept_list known_action found)
kept_list-IsReadList (some (array actions)) =
    (retain_values known_action actions, retain_values-AreKnown actions, refl)
kept_list-IsReadList none = refl
kept_list-IsReadList (some null) = refl
kept_list-IsReadList (some (boolean b)) = refl
kept_list-IsReadList (some (number n)) = refl
kept_list-IsReadList (some (string s)) = refl
kept_list-IsReadList (some (object members)) = refl

pub IsReadIf-if :
    {P : Type 0} (dropped : Bool) (found read : Option Value)
    → ((dropped ≡ false) ↔ P)
    → read ≡ (if dropped then none else found)
    → IsReadIf P found read
IsReadIf-if true found read h e = inr ((λ p. absurd (cc (h.1 p))), e)
IsReadIf-if false found read h e = inl (h.0 refl, e)

abbrev pub extended_schema : Members → Bool
extended_schema members =
    is_extended (text "url" ∷ []) (members_at (text "schema" ∷ []) (object members))

abbrev pub unknown_type : Option Value → Bool
unknown_type priced =
    is_other
      (text "fixed"
        ∷ text "free"
        ∷ text "metered"
        ∷ text "quote"
        ∷ text "range"
        ∷ text "starting_at"
        ∷ [])
      (Option.bind (elim priced [ none ↦ none | some w ↦ pointer (text "type" ∷ []) w ]) as_str)

get_member-drop_extended_schema :
    (k : Text) (members : Members)
    → get_member k (drop_extended_schema members) ≡ (
        if extended_schema members && (text "schema" == k || text "attributes" == k)
        then none
        else get_member k members)
unfolding drop_extended_schema
get_member-drop_extended_schema k members = elim (Bool-cases (extended_schema members)) [
  | inr closed ↦ rw (drop_extended_schema, closed) refl
  | inl open_ended ↦
      let first = get_member-remove_member (text "schema") k members in
      let second =
        get_member-remove_member (text "attributes") k (remove_member (text "schema") members) in
      rw (drop_extended_schema, open_ended) (ground (arith, first, second))
]

get_member-drop_unknown_price :
    (k : Text) (members : Members)
    → get_member k (drop_unknown_price members) ≡ (
        if unknown_type (get_member (text "price") members) && text "price" == k
        then none
        else get_member k members)
unfolding get drop_unknown_price
get_member-drop_unknown_price k members =
    elim (Bool-cases (unknown_type (get_member (text "price") members))) [
      | inr known ↦ rw (drop_unknown_price, known) refl
      | inl unknown ↦
          rw (drop_unknown_price, unknown) (get_member-remove_member (text "price") k members)
    ]

-- A member after both edits.
pub get_member-edited :
    (k : Text) (members : Members)
    → get_member k (drop_unknown_price (drop_extended_schema members)) ≡ (
        if unknown_type (get_member (text "price") members) && text "price" == k
        then none
        else if extended_schema members && (text "schema" == k || text "attributes" == k)
        then none
        else get_member k members)
unfolding text_beq
get_member-edited k members =
    let extended = extended_schema members in
    let found = get_member (text "price") members in
    let price : get_member (text "price") (drop_extended_schema members) ≡ found =
      get_member-drop_extended_schema (text "price") members ∙ ground arith in
    let same = ap unknown_type price in
    let second = get_member-drop_unknown_price k (drop_extended_schema members) in
    let first = get_member-drop_extended_schema k members in
    second
    ∙ (ap
          (λ u.
            if u && text "price" == k then none else get_member k (drop_extended_schema members))
          same
        ∙ ap (λ f. if unknown_type found && text "price" == k then none else f) first)
