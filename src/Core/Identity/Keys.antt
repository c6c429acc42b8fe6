-- ===== src/Core/Identity/Keys.antt =====
-- A key determines its identity.
use odp_rust.Prelude.{◌≡◌, refl, ok, arith}
use odp_rust.Prelude.Text.{Text}
use odp_rust.Prelude.Text.Laws.{Lacks, split_inj}
use odp_rust.Core.Models.{ResourceType, collection, offering}
use odp_rust.Core.References.Url.{UrlLib}
use odp_rust.Core.References.{derive_service_origin}
use odp_rust.Core.References.Paths.{IsLocal, is_local_resource_identifier_iff}
use odp_rust.Core.Identity.{ResourceIdentity, new, key, type_name}

type_name-Lacks : (r : ResourceType) → Lacks 0 (type_name r)
type_name-Lacks collection = omega arith
type_name-Lacks offering = omega arith

type_name_inj : (r s : ResourceType) → type_name r ≡ type_name s → r ≡ s
type_name_inj collection collection h = refl
type_name_inj offering offering h = refl
type_name_inj collection offering h = ground arith
type_name_inj offering collection h = ground arith

-- Two identities whose Service origins hold no NUL have the same key only if they are the same
-- identity.
pub key_inj :
    (a b : ResourceIdentity) → Lacks 0 a.service → Lacks 0 b.service → key a ≡ key b → a ≡ b
unfolding key
key_inj a b ha hb e =
    let (services, rest) = split_inj 0 a.service _ b.service _ ha hb e in
    let (names, ids) =
      split_inj 0 (type_name a.resource_type) a.id (type_name b.resource_type) b.id
        (type_name-Lacks a.resource_type) (type_name-Lacks b.resource_type) rest in
    let types = type_name_inj a.resource_type b.resource_type names in
    λ i. record { id = ids i; service = services i; resource_type = types i }

-- A new identity holds the given type, a local identifier, and the origin of the document's URL.
pub new_lem :
    (lib : UrlLib) (url : Text) (resource_type : ResourceType) (id : Text)
    (identity : ResourceIdentity)
    → new lib url resource_type id ≡ ok identity
    → (identity.id ≡ id)
      × (identity.resource_type ≡ resource_type)
      × IsLocal identity.id
      × (derive_service_origin lib url ≡ ok identity.service)
unfolding new
new_lem lib url resource_type id identity h = (
  ground arith,
  ground arith,
  (is_local_resource_identifier_iff identity.id).0 (ground arith),
  ground arith,
)
