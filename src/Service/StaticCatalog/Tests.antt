-- ===== src/Service/StaticCatalog/Tests.antt =====
-- A catalog of three numbers, and the theorems at it.
use odp_rust.Prelude.{
  ℕ, suc, ◌+◌, ◌≡◌, ◌↔◌, refl, true, false, none, List, [], ◌∷◌, map, ok, is_ok, All, arith, Option,
}
use odp_rust.Prelude.Text.{Text, text, text_beq, text_leb, strip_prefix}
use odp_rust.Prelude.Text.Laws.{Lacks, Lacks-all}
use odp_rust.Core.Models.{terse}
use odp_rust.Core.Validation.Parsing.{
  parse_offering, parse, validate_value, offering_representation_issues,
  collection_representation_issues, compatible, is_minor_version, parse_collection,
}
use odp_rust.Core.Validation.Depth.{
  validate_json_depth, depth_run, check_pending, values_in, push_members, push_values,
}
use odp_rust.Prelude.Maps.{lookup, insert}
use odp_rust.Service.Hierarchy.{
  collection_depth, hierarchy_depths, insert_key, keys, parents_depth, visit_all, visit_collection,
}
use odp_rust.Core.Json.{string, get, get_member, set_member}
use odp_rust.Core.Documents.Resources.{Offering}
use odp_rust.Core.Validation.Rules.{
  LanguageTag, representation_issues, validate_localizations, distinct, repeats, offering_issues,
  collection_issues, valid_language_tag,
}
use odp_rust.Core.Validation.Unique.{Unique}
use odp_rust.Service.Requests.{CatalogRequest}
use odp_rust.Service.Hierarchy.Sample.{named}
use odp_rust.Service.Hierarchy.Depths.{Height}
use odp_rust.Service.StaticCatalog.{
  StaticCatalog, StaticCatalogOptions, CatalogLib, new_static_catalog, validate_offering,
  validate_collection, index_by, check_references,
}
use odp_rust.Service.StaticCatalog.WellFormed.{IsReferring}
use odp_rust.Service.StaticCatalog.Accepted.{new_static_catalog_iff}
use odp_rust.Service.Cursors.{unix_epoch, expiry}
use odp_rust.Service.Cursors.Toy.{toy_lib, toy-Laws, toy_mac, parse_query, parse-serialize}
use odp_rust.Service.StaticCatalog.Walks.{Walk, Walk-list}
use odp_rust.Service.StaticCatalog.Served.{Issues, Walk-served}

abbrev listing : CatalogRequest
listing = record {
  accept_language = none;
  cursor = none;
  language = text "en";
  limit = 2;
  path = text "/odp/offerings";
  representation = terse;
}

abbrev noon : ℕ
noon = unix_epoch + 1000000000000

Issues-at_noon : Issues toy_lib (text "key") noon
unfolding expiry
Issues-at_noon = record {
  seconds = 1000;
  clock = refl;
  expires = 4600;
  expiring = refl;
  mac = toy_mac (text "key");
  keyed = refl;
  written = λ cursor. (_, refl);
}

no_question : Lacks 63 (text "/odp/offerings")
no_question = Lacks-all 63 (text "/odp/offerings") refl

Walk-served_example :
    Walk toy_lib parse_query (text "key") (1 ∷ 2 ∷ 3 ∷ []) suc listing (2 ∷ 3 ∷ 4 ∷ [])
Walk-served_example =
    Walk-served toy_lib toy-Laws parse_query parse-serialize (text "key") noon Issues-at_noon
      (1 ∷ 2 ∷ 3 ∷ []) suc (omega arith) listing refl (omega arith) no_question

walked : Walk toy_lib parse_query (text "key") (1 ∷ 2 ∷ 3 ∷ []) suc listing (2 ∷ 3 ∷ 4 ∷ [])
walked =
    Walk-served toy_lib toy-Laws parse_query parse-serialize (text "key") noon Issues-at_noon
      (1 ∷ 2 ∷ 3 ∷ []) suc (omega arith) listing refl (omega arith) no_question

Walk-list_example : (2 ∷ 3 ∷ 4 ∷ []) ≡ map suc (1 ∷ 2 ∷ 3 ∷ [])
Walk-list_example =
    Walk-list toy_lib toy-Laws parse_query parse-serialize (text "key") (1 ∷ 2 ∷ 3 ∷ []) suc
      (omega arith) listing (2 ∷ 3 ∷ 4 ∷ []) refl (omega arith) no_question walked

abbrev shown : Text → List Text → Offering
shown id collection_ids = record {
  actions = [];
  auth_expands = false;
  attributes = [];
  collection_ids = collection_ids;
  description = [];
  detail_fields = [];
  id = id;
  images = [];
  language = [];
  localizations = [];
  name = id;
  odp_version = text "1.0";
  price = none;
  schema = none;
  web_url = [];
  additional = [];
}

abbrev no_language : Text → Option LanguageTag
no_language tag = none

-- A resource is its identifier.
abbrev catalog_lib : CatalogLib
catalog_lib = record {
  fill = ok (text "key");
  json = record {
    from_slice = λ bytes. ok (string bytes);
    to_text = λ v. [];
    schemas =
        ok (
          (text "offering.schema.json", λ v. []) ∷ ((text "collection.schema.json", λ v. []) ∷ []));
    parse_tag = no_language;
    bucket_key = λ v. [];
  };
  offering_to_vec = λ value. ok value.id;
  collection_to_vec = λ value. ok value.id;
  decode_offering = λ v. ok (shown (text "decoded") []);
  decode_collection = λ v. ok (named (text "decoded") []);
}

abbrev garden : StaticCatalogOptions
garden = record {
  collections = named (text "plants") [] ∷ [];
  offerings = shown (text "fern") (text "plants" ∷ []) ∷ (shown (text "moss") [] ∷ []);
}

abbrev made : StaticCatalog
made = record {
  collections = garden.collections;
  collection_by_id = (text "plants", named (text "plants") []) ∷ [];
  offerings = garden.offerings;
  offering_by_id =
      (text "fern", shown (text "fern") (text "plants" ∷ []))
      ∷ ((text "moss", shown (text "moss") []) ∷ []);
  continuation_key = text "key";
}

makes_garden : new_static_catalog catalog_lib garden ≡ ok made
unfolding new_static_catalog text_beq text_leb index_by parse_offering parse validate_value
    validate_json_depth depth_run check_pending values_in lookup offering_representation_issues
    representation_issues validate_localizations distinct repeats offering_issues get get_member
    set_member push_members push_values collection_representation_issues compatible is_minor_version
    parse_collection collection_issues insert collection_depth hierarchy_depths insert_key keys
    parents_depth visit_all visit_collection check_references validate_collection validate_offering
    strip_prefix valid_language_tag
makes_garden = refl

new_static_catalog_iff_example : (is_ok (new_static_catalog catalog_lib garden) ≡ true) ↔ (
    (is_ok catalog_lib.fill ≡ true)
    × (All (λ value. validate_offering catalog_lib value ≡ ok tt) garden.offerings
        × All (λ value. validate_collection catalog_lib value ≡ ok tt) garden.collections)
    × (Unique (text "fern" ∷ (text "moss" ∷ [])) × Unique (text "plants" ∷ []))
    × IsReferring made.collection_by_id garden.offerings
    × All (λ entry. Height made.collection_by_id 33 entry.0) made.collection_by_id)
new_static_catalog_iff_example = new_static_catalog_iff catalog_lib garden
