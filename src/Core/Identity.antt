-- ===== src/Core/Identity.antt =====
-- crates/odp-core/src/identity.rs: the global identity of a resource.
pub mod Keys
mod Tests
use odp_rust.Prelude.{
  ℕ, Bool, not, List, [], ◌∷◌, ◌++◌, Result, ok, err, ◌>>=◌, ◌>>◌, refuse_if, ◌≡◌,
}
use odp_rust.Prelude.Text.{Text, text}
use odp_rust.Core.Models.{
  Operation, get_collection, get_offering, ResourceType, collection, offering,
}
use odp_rust.Core.References.Url.{UrlLib}
use odp_rust.Core.References.{
  ReferenceError, invalid_resource_identifier, is_local_resource_identifier, derive_service_origin,
}

pub record ResourceIdentity : Type 0 where
  pub id : Text
  pub service : Text
  pub resource_type : ResourceType

abbrev pub operation_of : ResourceType → Operation
operation_of collection = get_collection
operation_of offering = get_offering

-- `ResourceIdentity::new`.
unfoldable pub new : UrlLib → Text → ResourceType → Text → Result ReferenceError ResourceIdentity
new lib service_document_url resource_type id = do
  refuse_if (not (is_local_resource_identifier id))
      (invalid_resource_identifier (operation_of resource_type))
  service ← derive_service_origin lib service_document_url
  ok (record { id = id; service = service; resource_type = resource_type })

abbrev pub type_name : ResourceType → Text
type_name collection = text "collection"
type_name offering = text "offering"

-- The three parts, separated by NUL.
unfoldable pub key : ResourceIdentity → Text
key identity = identity.service ++ 0 ∷ (type_name identity.resource_type ++ 0 ∷ identity.id)
