-- ===== src/Agent/Operations/Site.antt =====
-- A site with its URL library, its documents and a client of it.
use odp_rust.Prelude.{
  ◌≡◌, false, subst, refl, ap, Option, none, some, List, [], ◌∷◌, ◌++◌, Result, ok, err, bind_inv,
  arith,
}
use odp_rust.Prelude.Text.{Text, text, text_beq, strip_prefix}
use odp_rust.Prelude.Text.Laws.{strip_prefix-append}
use odp_rust.Core.Json.{Value, object, empty_object}
use odp_rust.Core.Models.{get_offering}
use odp_rust.Core.Documents.Enums.{not_required}
use odp_rust.Core.References.Url.{domain, UrlLib}
use odp_rust.Core.References.{parse_url, require_secure_url, derive_service_origin}
use odp_rust.Core.Documents.Services.{ServiceDocument}
use odp_rust.Core.Documents.Resources.{Offering}
use odp_rust.Core.Validation.Parsing.{
  JsonLib, parse_agent_service_document, parse_service_document, normalize_agent_response,
}
use odp_rust.Core.Validation.Rules.{service_document_issues}
use odp_rust.Core.Validation.Accepted.{parse_iff}
use odp_rust.Directory.Transport.{HttpRequest, HttpResponse, TransportError, Transport, send_to_by}
use odp_rust.Agent.Cache.{MemoryCache}
use odp_rust.Agent.Redirects.{media_type}
use odp_rust.Agent.Setup.{ServiceClient, memory_cache, default_fallbacks}
use odp_rust.Agent.Validators.{DocumentLib, read_document}
use odp_rust.Agent.Operations.{ClientLib}
use odp_rust.Agent.Operations.Urls.{IsPlain, plain, UrlLaws}
use odp_rust.Agent.Operations.Asked.{ClientLaws}

abbrev pub home : Text
home = text "https://shop.example"

abbrev located : Option Text → Result Text Text
located none = err (text "relative URL without a base")
located (some path) = ok path

abbrev pub site_parse : Text → Result Text Text
site_parse value = located (strip_prefix home value)

-- A URL is what follows the origin.
abbrev pub site : UrlLib
site = record {
  Url = Text;
  parse = site_parse;
  join = λ base reference. ok reference;
  username = λ u. [];
  password = λ u. none;
  fragment = λ u. none;
  host = λ u. some (domain (text "shop.example"));
  scheme = λ u. text "https";
  origin = λ u. home;
  as_str = λ u. home ++ u;
}

abbrev pub site_pair : Text → Text → Text → Text
site_pair u name value = u ++ (text "?" ++ (name ++ (text "=" ++ value)))

site_respelt : (u : Text) → site_parse (home ++ u) ≡ ok u
site_respelt u = ap located (strip_prefix-append home u)

pub site_laws : UrlLaws site site_pair
site_laws = record {
  respelt = site_respelt;
  rooted = λ u v path secure rooted spelt. ((refl, refl, refl), refl, refl);
  joined = λ u v path rooted joins. refl;
  paired = λ u name value. ((refl, refl, refl), refl, refl);
}

abbrev pub document : ServiceDocument
document = record {
  branding = none;
  description = [];
  documentation_url = [];
  http = record { endpoint_base = text "/odp/"; openapi = none; additional = [] };
  keywords = [];
  language = text "en";
  localizations = text "en" ∷ [];
  mcp = [];
  name = text "Shop";
  odp_version = text "1.0";
  operations = record { authentication = not_required; name = get_offering } ∷ [];
  payment_origins = [];
  protocols = none;
  search_capabilities = none;
  status_url = [];
  support_url = [];
  website_url = [];
  additional = [];
}

abbrev pub offering : Offering
offering = record {
  actions = [];
  auth_expands = false;
  attributes = [];
  collection_ids = [];
  description = [];
  detail_fields = [];
  id = text "tea";
  images = [];
  language = [];
  localizations = [];
  name = text "Tea";
  odp_version = text "1.0";
  price = none;
  schema = none;
  web_url = [];
  additional = [];
}

-- Any JSON is an empty object, and its schemas accept it.
abbrev pub json : JsonLib
json = record {
  from_slice = λ bytes. ok (object empty_object);
  to_text = λ v. text "{}";
  schemas = ok (
      (text "service-document.schema.json", λ v. []) ∷ (text "offering.schema.json", λ v. []) ∷ []);
  parse_tag = λ value. some (record { variant_subtags = []; extension_singletons = [] });
  bucket_key = λ v. [];
}

abbrev refused : {A : Type 0} → Value → Result Text A
refused v = err (text "not here")

abbrev pub documents : DocumentLib
documents = record {
  json = json;
  decode_document = λ v. ok document;
  decode_collection = refused;
  decode_offering = λ v. ok offering;
  decode_collection_page = refused;
  decode_offering_page = refused;
  collection_to_vec = λ value. ok [];
  offering_to_vec = λ value. ok [];
  collection_search_to_vec = λ value. ok [];
  offering_search_to_vec = λ value. ok [];
}

-- The world keeps the requests.
abbrev pub answer :
    HttpRequest → List HttpRequest → Result TransportError HttpResponse × List HttpRequest
answer request log = (
  ok (record { body = text "{}"; headers = (text "content-type", media_type) ∷ []; status = 200 }),
  request ∷ log,
)

abbrev pub records : Transport (List HttpRequest)
records = record {
  send = answer;
  send_limited = λ request limit log. ((answer request log).0, request ∷ log);
  send_to = send_to_by;
}

abbrev pub lib : ClientLib (List HttpRequest)
lib = record {
  libs = record {
    url_lib = site;
    parse_http_date = λ value. none;
    time_limit = 100_000_000_000;
    sha256 = λ bytes. [];
    failure_message = λ response. [];
  };
  documents = documents;
  append_pair = site_pair;
  now = λ log. 5;
}

abbrev pub client : ServiceClient (List HttpRequest) MemoryCache
client = record {
  accept_language = none;
  cache = memory_cache;
  cache_fallbacks = default_fallbacks;
  cache_partition = text "shared";
  service_origin = home;
  supporting_transport = records;
  transport = records;
}

site_based :
    (bytes : Text) (found : ServiceDocument)
    → read_document documents bytes ≡ ok found
    → IsPlain found.http.endpoint_base
unfolding parse_agent_service_document parse_service_document
site_based bytes found h =
    let read : parse_agent_service_document json documents.decode_document bytes ≡ ok found =
      ground arith in
    let (encoded, normal, h1) =
      bind_inv (normalize_agent_response json bytes (text "service-document")) _ read in
    let (raw, _, _, _, decoded, _) =
      (parse_iff json documents.decode_document encoded (text "service-document.schema.json")
          (text "Service Document") (service_document_issues json.parse_tag) found).0
        h1 in
    let same : document ≡ found = cc decoded in
    subst (λ d. IsPlain d.http.endpoint_base) same (plain (text "/odp/") refl)

pub site-ClientLaws : ClientLaws lib client
unfolding require_secure_url derive_service_origin parse_url strip_prefix text_beq
site-ClientLaws = record {
  urls = site_laws;
  service_url = home;
  derived = refl;
  based = site_based;
}
