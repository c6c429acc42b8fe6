-- ===== src/Core/Validation/Accepted.antt =====
-- crates/odp-core/src/validation.rs: which documents the parse functions accept.
use odp_rust.Prelude.{
  ℕ, ◌↔◌, ◌≡◌, ◌≤◌, refl, true, some, List, [], ◌∷◌, map, Result, ok, arith, if◌then◌else◌, ◌==◌,
  nat_eq, leb, Result-cases, Option-cases, Bool-cases, inl, inr, ap, sym, ◌∙◌,
}
use odp_rust.Prelude.Text.{Text, text, text_eq, text_eq_iff, is_empty}
use odp_rust.Prelude.Maps.{lookup, Map}
use odp_rust.Core.Json.{Value}
use odp_rust.Core.Documents.Resources.{ProblemDetails}
use odp_rust.Core.Validation.{ValidationIssue}
use odp_rust.Core.Validation.Depth.{nesting, validate_json_depth_lem}
use odp_rust.Core.Validation.Rules.{problem_type_of, problem_details_issues}
use odp_rust.Core.Validation.Versions.{IsReadAs, compatible_iff}
use odp_rust.Core.Validation.Parsing.{
  JsonLib, SchemaError, schema_issue, compatible, validate_value, parse, parse_problem_details,
  parse_problem_response,
}

-- How deep a document of a schema may nest.
abbrev pub depth_limit : Text → ℕ
depth_limit schema_name = if schema_name == text "service-document.schema.json" then 8 else 16

problem_type-problem_type_of :
    (problem : ProblemDetails)
    → problem_details_issues problem ≡ []
    → problem.problem_type ≡ problem_type_of problem.code
unfolding problem_details_issues
problem_type-problem_type_of problem h =
    ground (arith, text_eq_iff problem.problem_type (problem_type_of problem.code))

module _ (lib : JsonLib) where
  -- The schema is there and finds no error in the value, read as of the version 1.0 where it is of
  -- another minor version.
  abbrev pub Conforms : Text → Value → Type 0
  Conforms schema_name v =
      (validators : Map (Value → List SchemaError)) × (lib.schemas ≡ ok validators)
      × (validator : Value → List SchemaError) × (lookup schema_name validators ≡ some validator)
      × (read : Value) × IsReadAs v read
      × (validator read ≡ [])

  is_empty-map :
      (errors : List SchemaError) → is_empty (map schema_issue errors) ≡ true → errors ≡ []
  is_empty-map [] h = refl
  is_empty-map (e ∷ errors) h = cc

  nothing : (issues : List ValidationIssue) → is_empty issues ≡ true → issues ≡ []
  nothing [] h = refl
  nothing (i ∷ issues) h = cc

  validate_value_inv :
      (v : Value) (schema_name document_type : Text)
      → validate_value lib v schema_name document_type ≡ ok tt
      → (nesting v ≤ depth_limit schema_name) × Conforms schema_name v
  unfolding validate_value
  validate_value_inv v schema_name document_type h =
      let deep = (validate_json_depth_lem v (depth_limit schema_name)).1 in
      elim (Bool-cases (leb (nesting v) (depth_limit schema_name))) [
        | inr over ↦ absurd (ground arith)
        | inl within ↦ elim (Result-cases lib.schemas) [
          | inr (e, broken) ↦ absurd (ground arith)
          | inl (validators, held) ↦ elim (Option-cases (lookup schema_name validators)) [
            | inl missing ↦ absurd (ground arith)
            | inr (validator, found) ↦ (
              ground arith,
              (
                validators,
                held,
                validator,
                found,
                compatible v,
                (compatible_iff v (compatible v)).1 refl,
                is_empty-map (validator (compatible v)) (ground arith),
              ),
            )
          ]
        ]
      ]

  validate_value_accepts :
      (v : Value) (schema_name document_type : Text)
      → nesting v ≤ depth_limit schema_name
      → Conforms schema_name v
      → validate_value lib v schema_name document_type ≡ ok tt
  unfolding validate_value
  validate_value_accepts v schema_name document_type fits
        (validators, held, validator, found, read, versioned, clean) =
      let deep = (validate_json_depth_lem v (depth_limit schema_name)).1 in
      let within : leb (nesting v) (depth_limit schema_name) ≡ true = ground arith in
      let same = (compatible_iff v read).0 versioned in
      let none_found : validator (compatible v) ≡ [] = ap validator (sym same) ∙ clean in
      rw (validate_value, deep, within, held, found, none_found) refl

  -- The bytes are JSON that nests within the limit and conforms to its schema, is read as the value,
  -- and the value breaks none of the rules that go with it.
  abbrev pub IsDocument :
      {T : Type 0} → (Value → Result Text T) → Text → Text → (T → List ValidationIssue) → T → Type 0
  IsDocument decode bytes schema_name refine value =
      (raw : Value) × (lib.from_slice bytes ≡ ok raw)
      × (nesting raw ≤ depth_limit schema_name)
      × Conforms schema_name raw
      × (decode raw ≡ ok value)
      × (refine value ≡ [])

  parse_inv :
      {T : Type 0} (decode : Value → Result Text T) (bytes schema_name document_type : Text)
      (refine : T → List ValidationIssue) (value : T)
      → parse lib decode bytes schema_name document_type refine ≡ ok value
      → IsDocument decode bytes schema_name refine value
  unfolding parse
  parse_inv decode bytes schema_name document_type refine value h =
      elim (Result-cases (lib.from_slice bytes)) [
        | inr (e, broken) ↦ absurd (ground arith)
        | inl (raw, read) ↦ elim (Result-cases (validate_value lib raw schema_name document_type)) [
          | inr (e, refused) ↦ absurd (ground arith)
          | inl (u, valid) ↦ elim (Result-cases (decode raw)) [
            | inr (e, broken) ↦ absurd (ground arith)
            | inl (decoded, made) ↦
                let (deep, conforms) = validate_value_inv raw schema_name document_type valid in
                let same : decoded ≡ value = ground arith in
                let clean : is_empty (refine decoded) ≡ true = ground arith in
                (
                  raw,
                  read,
                  deep,
                  conforms,
                  made ∙ ap ok same,
                  ap refine (sym same) ∙ nothing (refine decoded) clean,
                )
          ]
        ]
      ]

  parse_accepts :
      {T : Type 0} (decode : Value → Result Text T) (bytes schema_name document_type : Text)
      (refine : T → List ValidationIssue) (value : T)
      → IsDocument decode bytes schema_name refine value
      → parse lib decode bytes schema_name document_type refine ≡ ok value
  unfolding parse
  parse_accepts decode bytes schema_name document_type refine value
        (raw, read, deep, conforms, made, clean) =
      let valid = validate_value_accepts raw schema_name document_type deep conforms in
      rw (parse, read, valid, made, clean) refl

  -- Bytes are parsed as a value exactly where they are JSON that nests no deeper than 8 levels for
  -- a Service Document and 16 for any other, in which the schema finds no error once a minor
  -- version 1.N, for N from 1 on and without a zero before it, is written as 1.0, where that JSON
  -- is read as the value, and the value breaks none of the rules that go with it.
  pub parse_iff :
      {T : Type 0} (decode : Value → Result Text T) (bytes schema_name document_type : Text)
      (refine : T → List ValidationIssue) (value : T)
      → (parse lib decode bytes schema_name document_type refine ≡ ok value)
        ↔ IsDocument decode bytes schema_name refine value
  parse_iff decode bytes schema_name document_type refine value = (
    parse_inv decode bytes schema_name document_type refine value,
    parse_accepts decode bytes schema_name document_type refine value,
  )

  -- A problem that a response of some status carries names that status, and its type is that of its
  -- code.
  pub parse_problem_response_inv :
      (decode : Value → Result Text ProblemDetails) (bytes : Text) (http_status : ℕ)
      (value : ProblemDetails)
      → parse_problem_response lib decode bytes http_status ≡ ok value
      → (value.status ≡ http_status) × (value.problem_type ≡ problem_type_of value.code)
  unfolding parse_problem_response
  parse_problem_response_inv decode bytes http_status value h =
      elim (Result-cases (parse_problem_details lib decode bytes)) [
        | inr (e, broken) ↦ absurd (ground arith)
        | inl (read, parsed) ↦
            let same : read ≡ value = ground arith in
            let parsed_as =
              parse_inv decode bytes (text "problem-details.schema.json") (text "Problem Details")
                problem_details_issues read (unfold parse_problem_details in parsed) in
            let typed = problem_type-problem_type_of read parsed_as.5 in
            (
              ground arith,
              ap (λ p. p.problem_type) (sym same) ∙ typed ∙ ap (λ p. problem_type_of p.code) same,
            )
      ]
