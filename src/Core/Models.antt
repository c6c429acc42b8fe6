-- ===== src/Core/Models.antt =====
-- crates/odp-core/src/models.rs: the enumerations that the other parts branch on.
use odp_rust.Prelude.{◌≡◌, ◌↔◌, Bool, true, false, PartialEq, ◌==◌, ℕ, nat_eq, arith}
use odp_rust.Prelude.Text.{Text, text}

pub data Operation : Type 0 where
  get_collection get_offering list_collection_offerings list_collections : Operation
  list_offerings search_collections search_offerings : Operation

unfoldable pub operation_name : Operation → Text
operation_name get_collection = text "get-collection"
operation_name get_offering = text "get-offering"
operation_name list_collection_offerings = text "list-collection-offerings"
operation_name list_collections = text "list-collections"
operation_name list_offerings = text "list-offerings"
operation_name search_collections = text "search-collections"
operation_name search_offerings = text "search-offerings"

pub data Representation : Type 0 where
  terse full : Representation

pub data ResourceType : Type 0 where
  collection offering : ResourceType

-- The place of an operation in the declaration, which the derived equality compares.
abbrev pub operation_index : Operation → ℕ
operation_index get_collection = 0
operation_index get_offering = 1
operation_index list_collection_offerings = 2
operation_index list_collections = 3
operation_index list_offerings = 4
operation_index search_collections = 5
operation_index search_offerings = 6

abbrev pub operation_beq : Operation → Operation → Bool
operation_beq a b = operation_index a == operation_index b

pub operation_eq_iff : (a b : Operation) → (operation_beq a b ≡ true) ↔ (a ≡ b)
operation_eq_iff a b = ground arith

instance abbrev pub operation_eq : PartialEq Operation
operation_eq = record { eq = operation_beq; decides = operation_eq_iff }

abbrev pub representation_beq : Representation → Representation → Bool
representation_beq terse terse = true
representation_beq full full = true
representation_beq _ _ = false

pub representation_eq_iff : (a b : Representation) → (representation_beq a b ≡ true) ↔ (a ≡ b)
representation_eq_iff a b = ground arith

instance abbrev pub representation_eq : PartialEq Representation
representation_eq = record { eq = representation_beq; decides = representation_eq_iff }
