-- ===== src/Core/Validation/Kept.antt =====
-- crates/odp-core/src/validation.rs: what is left of a document that an Agent normalizes.
use odp_rust.Prelude.{
  ◌≡◌, refl, Bool, true, false, Option, none, some, List, arith, if◌then◌else◌, ◌==◌, Bool-cases,
  inl, inr, subst,
}
use odp_rust.Prelude.Text.{Text, text_eq, text_eq_iff}
use odp_rust.Core.Json.{
  Value, null, boolean, number, string, object, array, Values, Members, get, get_member,
  retain_values, is_empty_array,
}
use odp_rust.Core.Json.Laws.{get_member-remove_member, get_member-set_member}
use odp_rust.Core.Validation.Filters.{retain_list, retain_found, filter_list, is_recognized}

-- A list without the items that are not kept, and nothing if none is left; what is no list stays.
abbrev pub kept_items : Values → Option Value
kept_items kept = if is_empty_array kept then none else some (array kept)

abbrev pub kept_list : (Value → Bool) → Option Value → Option Value
kept_list keep (some (array items)) = kept_items (retain_values keep items)
kept_list keep found = found

Bool-either :
    {A : Type 0} (P : A → Type 0) (b : Bool) {x y : A} → P x → P y → P (if b then x else y)
Bool-either P true p q = p
Bool-either P false p q = q

unchanged :
    (member k : Text) (members : Members) (found : Option Value)
    → get_member member members ≡ found
    → get_member k members ≡ (if member == k then found else get_member k members)
unchanged member k members found held = elim (Bool-cases (member == k)) [
  | inr other ↦ rw other refl
  | inl same ↦
      let e : member ≡ k = (text_eq_iff member k).0 same in
      rw same (subst (λ j. get_member j members ≡ found) e held)
]

get_member-retain_found :
    (keep : Value → Bool) (member k : Text) (members : Members) (found : Option Value)
    → get_member member members ≡ found
    → get_member k (retain_found keep member members found)
      ≡ (if member == k then kept_list keep found else get_member k members)
get_member-retain_found keep member k members none held = unchanged member k members none held
get_member-retain_found keep member k members (some null) held =
    unchanged member k members (some null) held
get_member-retain_found keep member k members (some (boolean b)) held =
    unchanged member k members (some (boolean b)) held
get_member-retain_found keep member k members (some (number n)) held =
    unchanged member k members (some (number n)) held
get_member-retain_found keep member k members (some (string s)) held =
    unchanged member k members (some (string s)) held
get_member-retain_found keep member k members (some (object o)) held =
    unchanged member k members (some (object o)) held
get_member-retain_found keep member k members (some (array items)) held =
    let kept = retain_values keep items in
    let removed = get_member-remove_member member k members in
    let stored = get_member-set_member member k (array kept) (array items) members held in
    ground (arith, text_eq_iff member k)

pub get_member-retain_list :
    (keep : Value → Bool) (member k : Text) (members : Members)
    → get_member k (retain_list keep member members)
      ≡ (if member == k then kept_list keep (get_member member members) else get_member k members)
unfolding retain_list
get_member-retain_list keep member k members =
    get_member-retain_found keep member k members (get_member member members) refl

-- Filtering a list by a discriminator leaves the items that have none or a recognized one, and no
-- list where none is left; every other member is as before.
pub filter_list_lem :
    (member discriminator : Text) (recognized : List Text) (k : Text) (document : Value)
    → get k (filter_list member discriminator recognized document) ≡ (
        if member == k
        then kept_list (is_recognized discriminator recognized) (get member document)
        else get k document)
unfolding filter_list get
filter_list_lem member discriminator recognized k (object members) =
    get_member-retain_list (is_recognized discriminator recognized) member k members
filter_list_lem member discriminator recognized k null = ground arith
filter_list_lem member discriminator recognized k (boolean b) = ground arith
filter_list_lem member discriminator recognized k (number n) = ground arith
filter_list_lem member discriminator recognized k (string s) = ground arith
filter_list_lem member discriminator recognized k (array items) = ground arith
