-- ===== src/Service/Toy.antt =====
-- A Service of two resources that reads and writes a resource as its name, to apply the theorems at.
use odp_rust.Prelude.{ℕ, suc, ltb, leb, false, none, some, [], ◌∷◌, ok, err, length, Option, Result}
use odp_rust.Prelude.Text.{Text, text}
use odp_rust.Prelude.Numbers.{parse_u64}
use odp_rust.Core.Json.{Value, string}
use odp_rust.Core.Models.{list_offerings, get_offering}
use odp_rust.Core.Documents.Resources.{Offering}
use odp_rust.Core.Documents.Services.{ServiceDocument}
use odp_rust.Core.Documents.Searches.{OfferingPage}
use odp_rust.Core.Documents.Enums.{not_required, required}
use odp_rust.Core.Validation.Rules.{LanguageTag}
use odp_rust.Service.Requests.{Request}
use odp_rust.Service.Negotiation.{Floats}
use odp_rust.Service.Answers.{Serde, ServiceLib}
use odp_rust.Service.Catalogs.{Catalog, default_catalog}
use odp_rust.Service.Hierarchy.Sample.{named}
use odp_rust.Service.Handler.{Service}
use odp_rust.Service.Builder.{ServiceBuilder, new_builder}

-- Weights are whole numbers.
abbrev pub toy_floats : Floats
toy_floats = record {
  F32 = ℕ;
  zero_weight = 0;
  full_weight = 1;
  parse_f32 = parse_u64;
  is_positive = λ weight. ltb 0 weight;
  total_leb = leb;
}

abbrev pub fern : Offering
fern = record {
  actions = [];
  auth_expands = false;
  attributes = [];
  collection_ids = [];
  description = [];
  detail_fields = [];
  id = text "fern";
  images = [];
  language = [];
  localizations = [];
  name = text "fern";
  odp_version = text "1.0";
  price = none;
  schema = none;
  web_url = [];
  additional = [];
}

abbrev pub fern_page : OfferingPage Offering
fern_page = record {
  auth_expands = false;
  items = fern ∷ [];
  next = [];
  odp_version = text "1.0";
  refinements = [];
  additional = [];
}

abbrev pub garden : ServiceBuilder
garden = new_builder (text "Garden") (text "Ferns") (text "en") (text "/odp/")

abbrev pub garden_document : ServiceDocument
garden_document = record garden.document {
  operations =
      record { authentication = required; name = list_offerings }
      ∷ (record { authentication = not_required; name = get_offering } ∷ []);
}

abbrev any_tag : Text → Option LanguageTag
any_tag tag = some (record { variant_subtags = []; extension_singletons = [] })

abbrev serde : {T : Type 0} → (T → Text) → T → Serde T
serde write held = record {
  to_value = λ t. ok (string (write t));
  to_vec = λ t. ok (write t);
  decode = λ v. ok held;
}

abbrev written : Value → Result Text Text
written (string s) = ok s
written _ = ok []

abbrev pub toy_service_lib : ServiceLib
toy_service_lib = record {
  floats = toy_floats;
  json = record {
    from_slice = λ bytes. ok (string bytes);
    to_text = λ v. [];
    schemas = ok (
        (text "offering.schema.json", λ v. [])
        ∷ ((text "page-envelope.schema.json", λ v. [])
            ∷ ((text "service-document.schema.json", λ v. []) ∷ [])));
    parse_tag = any_tag;
    bucket_key = λ v. [];
  };
  parse_query = λ query. [];
  sha256 = λ bytes. length bytes ∷ [];
  value_to_vec = written;
  problem_to_vec = λ problem. ok problem.detail;
  documents = serde (λ document. document.name) garden_document;
  offerings = serde (λ offering. offering.id) fern;
  collections = serde (λ collection. collection.id) (named (text "plants") []);
  offering_pages = serde (λ page. page.next) fern_page;
  collection_pages =
      serde (λ page. page.next)
        (record {
          auth_expands = false;
          items = [];
          next = [];
          odp_version = text "1.0";
          additional = [];
        });
  decode_page = λ v. ok (record {
    auth_expands = false;
    items = [];
    next = [];
    odp_version = text "1.0";
    additional = [];
  });
  decode_offering_search = λ v. err [];
  decode_collection_search = λ v. err [];
}

-- A catalog of one Offering, which counts its calls.
abbrev pub toy_catalog : Catalog ℕ
toy_catalog =
    default_catalog (list_offerings ∷ (get_offering ∷ []))
      (λ request calls. (ok fern_page, suc calls)) (λ id request calls. (ok (some fern), suc calls))

abbrev pub toy_service : Service ℕ
toy_service = record {
  catalog = toy_catalog;
  document = garden_document;
  endpoint_base = text "/odp";
}

abbrev pub request_for : Text → Text → Request
request_for method path = record {
  body = [];
  headers = (text "accept", text "application/odp+json") ∷ [];
  method = method;
  path = path;
  query = [];
}
