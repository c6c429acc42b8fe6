-- ===== src/Core/Identity/Tests.antt =====
-- The theorems on identities at concrete inputs.
use odp_rust.Prelude.Text.{text}
use odp_rust.Core.Models.{offering}
use odp_rust.Core.Identity.{ResourceIdentity}

abbrev plant : ResourceIdentity
plant = record {
  id = text "plant-1";
  service = text "https://shop.example";
  resource_type = offering;
}
