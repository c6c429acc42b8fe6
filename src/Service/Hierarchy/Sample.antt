-- ===== src/Service/Hierarchy/Sample.antt =====
-- A Collection with parents.
use odp_rust.Prelude.{false, none, List, []}
use odp_rust.Prelude.Text.{Text, text}
use odp_rust.Core.Documents.Resources.{Collection}

abbrev pub named : Text → List Text → Collection
named id parent_ids = record {
  auth_expands = false;
  description = [];
  detail_fields = [];
  id = id;
  images = [];
  language = [];
  localizations = [];
  name = id;
  odp_version = text "1.0";
  parent_ids = parent_ids;
  search_capabilities = none;
  web_url = [];
  additional = [];
}
