-- ===== src/Core/Validation/Normalized.antt =====
-- crates/odp-core/src/validation.rs: what is left of an Offering that an Agent normalizes.
use odp_rust.Prelude.Text.{Text, text, text_eq}
use odp_rust.Core.Json.{Value, get}
use odp_rust.Core.Validation.Offerings.{IsReadList, IsReadIf, HasKnownPrice, HasKnownSchema}

-- What is left of each member.
record IsNormalized (document read : Value) : Type 0 where
  actions : IsReadList (get (text "actions") document) (get (text "actions") read)
  price : IsReadIf (HasKnownPrice document) (get (text "price") document) (get (text "price") read)
  schema :
      IsReadIf (HasKnownSchema document) (get (text "schema") document) (get (text "schema") read)
  attributes :
      IsReadIf
        (HasKnownSchema document)
        (get (text "attributes") document)
        (get (text "attributes") read)
