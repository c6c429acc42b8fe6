-- ===== src/Core/Validation/Normalize.antt =====
-- crates/odp-core/src/validation.rs: what an Agent reads of a document, `normalize_agent_document`.
use mathlib.Core.Option
use odp_rust.Prelude.{
  Bool, true, false, not, ◌&&◌, ◌||◌, Option, none, some, List, [], ◌∷◌, if◌then◌else◌, ◌==◌,
}
use odp_rust.Prelude.Text.{Text, text, text_eq}
use odp_rust.Core.References.{is_some_and}
use odp_rust.Core.Json.{
  Value, object, array, Members, as_str, as_array, as_object, get_member, set_member, remove_member,
  all_keys, retain_values, map_values, any_value, is_empty_array, is_empty_object, pointer,
}
use odp_rust.Core.Validation.Filters.{
  is_among, text_at, members_at, on_object, on_array, on_member, retain_list, filter_list,
  filter_closed_object_list, has_unknown_authentication, filter_unknown_authentication,
  strip_object_list, filter_payment_options, normalize_branding, filter_problem_parameters,
  filter_agent_protocols,
}

-- A text that is there and is none of these.
abbrev pub is_other : List Text → Option Text → Bool
is_other recognized value = is_some_and value (λ name. not (is_among recognized name))

unfoldable pub known_filter : Value → Bool
known_filter definition = elim (as_object definition) [
  | none ↦ true
  | some members ↦
      not (
        is_other
          (text "boolean"
            ∷ text "date"
            ∷ text "date-time"
            ∷ text "decimal"
            ∷ text "integer"
            ∷ text "number"
            ∷ text "string"
            ∷ [])
          (text_at (text "type" ∷ []) definition))
      && (not (
            is_some_and (Option.bind (pointer (text "operators" ∷ []) definition) as_array) (
              any_value (λ v.
                is_other
                  (text "eq"
                    ∷ text "exists"
                    ∷ text "gt"
                    ∷ text "gte"
                    ∷ text "in"
                    ∷ text "lt"
                    ∷ text "lte"
                    ∷ [])
                  (as_str v))))
          && not (
              is_other (text "service" ∷ text "ucum" ∷ [])
                (text_at (text "unit" ∷ text "system" ∷ []) definition)))
]

abbrev pub has_unknown_order : Value → Bool
has_unknown_order sort_key =
    is_other (text "ascending" ∷ text "descending" ∷ []) (text_at (text "direction" ∷ []) sort_key)
    || is_other (text "first" ∷ text "last" ∷ []) (text_at (text "missing" ∷ []) sort_key)

unfoldable pub known_sort : Value → Bool
known_sort definition = not (
    is_some_and (Option.bind (pointer (text "keys" ∷ []) definition) as_array)
      (any_value has_unknown_order))

unfoldable pub filter_definitions : (Value → Bool) → Value → Value
filter_definitions recognized =
    on_object (on_member (text "items") (on_array (retain_values recognized)))

abbrev pub store_inline : Text → Members → Members → Option Value → (Value → Bool) → Members
store_inline member capabilities source (some (array items)) recognized =
    let kept = retain_values recognized items in
    if is_empty_array kept
    then remove_member member capabilities
    else set_member member (object (set_member (text "inline") (array kept) source)) capabilities
store_inline member capabilities source _ recognized = capabilities

unfoldable pub filter_inline_definitions : Text → (Value → Bool) → Members → Members
filter_inline_definitions member recognized capabilities =
    elim (Option.bind (get_member member capabilities) as_object) [
      | none ↦ capabilities
      | some source ↦
          store_inline member capabilities source (get_member (text "inline") source) recognized
    ]

abbrev pub store_capabilities : Members → Option Value → Members
store_capabilities members (some (object capabilities)) =
    let known =
      filter_inline_definitions (text "sorts") known_sort
        (filter_inline_definitions (text "filters") known_filter capabilities) in
    if is_empty_object known
    then remove_member (text "search_capabilities") members
    else set_member (text "search_capabilities") (object known) members
store_capabilities members _ = members

unfoldable pub normalize_search_capabilities : Value → Value
normalize_search_capabilities =
    on_object
      (λ members. store_capabilities members (get_member (text "search_capabilities") members))

-- An object that has a key other than these.
abbrev pub is_extended : List Text → Option Members → Bool
is_extended allowed members = is_some_and members (λ m. not (all_keys (is_among allowed) m))

unfoldable pub known_action : Value → Bool
known_action action =
    if has_unknown_authentication action
      || is_extended
          (text "authentication"
            ∷ text "description"
            ∷ text "http"
            ∷ text "id"
            ∷ text "openapi"
            ∷ text "rel"
            ∷ [])
          (as_object action)
      || is_extended
          (text "href" ∷ text "method" ∷ text "request" ∷ text "response_content_types" ∷ [])
          (members_at (text "http" ∷ []) action)
      || is_extended (text "content_type" ∷ text "schema" ∷ [])
          (members_at (text "http" ∷ text "request" ∷ []) action)
      || is_extended (text "url" ∷ [])
          (members_at (text "http" ∷ text "request" ∷ text "schema" ∷ []) action)
      || is_extended (text "operation_id" ∷ text "url" ∷ [])
          (members_at (text "openapi" ∷ []) action)
    then false
    else not (
        is_other (text "GET" ∷ text "POST" ∷ [])
          (text_at (text "http" ∷ text "method" ∷ []) action))

unfoldable pub drop_extended_schema : Members → Members
drop_extended_schema members =
    if is_extended (text "url" ∷ []) (members_at (text "schema" ∷ []) (object members))
    then remove_member (text "attributes") (remove_member (text "schema") members)
    else members

unfoldable pub drop_unknown_price : Members → Members
drop_unknown_price members =
    if is_other
      (text "fixed"
        ∷ text "free"
        ∷ text "metered"
        ∷ text "quote"
        ∷ text "range"
        ∷ text "starting_at"
        ∷ [])
      (text_at (text "price" ∷ text "type" ∷ []) (object members))
    then remove_member (text "price") members
    else members

unfoldable pub normalize_offering : Value → Value
normalize_offering = on_object (λ members.
    retain_list known_action (text "actions") (drop_unknown_price (drop_extended_schema members)))

unfoldable pub normalize_service_document : Value → Value
normalize_service_document document =
    let protocols = filter_agent_protocols document in
    let payments =
      on_object (on_member (text "protocols") (filter_unknown_authentication (text "payments")))
        protocols in
    let named =
      filter_list (text "operations") (text "name")
        (text "get-collection"
          ∷ text "get-offering"
          ∷ text "list-collection-offerings"
          ∷ text "list-collections"
          ∷ text "list-offerings"
          ∷ text "search-collections"
          ∷ text "search-offerings"
          ∷ [])
        payments in
    let authenticated = filter_unknown_authentication (text "operations") named in
    let streamed =
      filter_list (text "mcp") (text "type") (text "streamable-http" ∷ []) authenticated in
    let closed =
      filter_closed_object_list (text "operations") (text "authentication" ∷ text "name" ∷ [])
        streamed in
    let described =
      filter_closed_object_list (text "mcp")
        (text "description" ∷ text "name" ∷ text "type" ∷ text "url" ∷ []) closed in
    normalize_search_capabilities (normalize_branding (filter_payment_options described))

unfoldable pub normalize_resource : Bool → Value → Value
normalize_resource is_offering document =
    let typed =
      filter_list (text "images") (text "type")
        (text "image/avif"
          ∷ text "image/jpeg"
          ∷ text "image/png"
          ∷ text "image/svg+xml"
          ∷ text "image/webp"
          ∷ [])
        document in
    let stripped =
      strip_object_list (text "images")
        (text "alt" ∷ text "height" ∷ text "src" ∷ text "type" ∷ text "width" ∷ []) typed in
    let searched = normalize_search_capabilities stripped in
    if is_offering then normalize_offering searched else searched

unfoldable pub normalize_page : Bool → Value → Value
normalize_page is_offering =
    on_object (on_member (text "items") (on_array (map_values (normalize_resource is_offering))))

unfoldable pub normalize_agent_document : Text → Value → Value
normalize_agent_document kind document =
    if kind == text "service-document"
    then normalize_service_document document
    else if kind == text "collection" || kind == text "offering"
    then normalize_resource (kind == text "offering") document
    else if kind == text "collection-page" || kind == text "offering-page"
    then normalize_page (kind == text "offering-page") document
    else if kind == text "filter-page"
    then filter_definitions known_filter document
    else if kind == text "sort-page"
    then filter_definitions known_sort document
    else if kind == text "problem"
    then filter_problem_parameters document
    else document
