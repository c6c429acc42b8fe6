-- ===== src/Core/Json/Laws.antt =====
-- What a member reads after an edit.
use odp_rust.Prelude.{◌≡◌, none, some, arith, if◌then◌else◌, ◌==◌}
use odp_rust.Prelude.Text.{Text, text_eq, text_eq_iff}
use odp_rust.Core.Json.{
  Value, Members, empty_object, member_then, get_member, set_member, remove_member,
}

pub get_member-remove_member :
    (removed k : Text) (members : Members)
    → get_member k (remove_member removed members)
      ≡ (if removed == k then none else get_member k members)
unfolding get_member remove_member
get_member-remove_member removed k empty_object = ground arith
get_member-remove_member removed k (member_then j v rest) = ground (
  arith,
  get_member-remove_member removed k rest,
  text_eq_iff removed k,
  text_eq_iff j removed,
  text_eq_iff j k,
)

pub get_member-set_member :
    (set k : Text) (v w : Value) (members : Members)
    → get_member set members ≡ some w
    → get_member k (set_member set v members) ≡ (if set == k then some v else get_member k members)
unfolding get_member set_member
get_member-set_member set k v w empty_object held = cc
get_member-set_member set k v w (member_then j u rest) held = ground (
  arith,
  get_member-set_member set k v w rest,
  text_eq_iff set k,
  text_eq_iff j set,
  text_eq_iff j k,
)
