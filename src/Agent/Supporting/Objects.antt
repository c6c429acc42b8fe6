-- ===== src/Agent/Supporting/Objects.antt =====
-- crates/odp-agent/src/client.rs: which bodies are read as a supporting document.
use odp_rust.Prelude.{
  ℕ, ◌≡◌, ◌≤◌, refl, ap, ◌∙◌, arith, true, Result, ok, Result-cases, Bool-cases, bind_inv, subst,
  leb, length, ◌==◌, nat_eq, inl, inr, if◌then◌else◌,
}
use odp_rust.Prelude.Text.{Text, text, text_eq}
use odp_rust.Core.Json.{Value}
use odp_rust.Core.Validation.Depth.{nesting, validate_json_depth_lem}
use odp_rust.Agent.Setup.{Libs}
use odp_rust.Agent.Linked.{
  Wanted, SupportingDocument, is_object, decode_json_object, supporting_document,
}

module _ (libs : Libs) (from_slice : Text → Result Text Value) where
  abbrev pub depth_of : Text → ℕ
  depth_of resource_class = if resource_class == text "openapi" then 32 else 16

  -- What is returned: a JSON object that nests no deeper than its class may.
  pub record IsAdmitted (wanted : Wanted) (document : SupportingDocument) : Type 0 where
    pub body : Text
    pub decoded : from_slice body ≡ ok document.value
    pub is_an_object : is_object document.value ≡ true
    pub shallow : nesting document.value ≤ depth_of wanted.resource_class
    pub counted : document.bytes ≡ length body

  decode_json_object_inv :
      (body : Text) (value : Value)
      → decode_json_object from_slice body ≡ ok value
      → (from_slice body ≡ ok value) × (is_object value ≡ true)
  unfolding decode_json_object
  decode_json_object_inv body value h = elim (Result-cases (from_slice body)) [
    | inr (e, failed) ↦ absurd (ground arith)
    | inl (found, read) ↦ elim (Bool-cases (is_object found)) [
      | inr other ↦ absurd (ground arith)
      | inl held ↦
          let same : found ≡ value = ground arith in
          (read ∙ ap ok same, subst (λ v. is_object v ≡ true) same held)
    ]
  ]

  pub supporting_document-IsAdmitted :
      (wanted : Wanted) (body final_url : Text) (document : SupportingDocument)
      → supporting_document from_slice body final_url wanted.resource_class ≡ ok document
      → IsAdmitted wanted document
  unfolding supporting_document decode_json_object
  supporting_document-IsAdmitted wanted body final_url document h =
      let (value, decoded, h1) = bind_inv (decode_json_object from_slice body) _ h in
      let depth = (validate_json_depth_lem value (depth_of wanted.resource_class)).1 in
      let (read, held) : (from_slice body ≡ ok value) × (is_object value ≡ true) =
        decode_json_object_inv body value decoded in
      elim (Bool-cases (leb (nesting value) (depth_of wanted.resource_class))) [
        | inr deep ↦ absurd (ground arith)
        | inl fits ↦
            let same : record { value = value; final_url = final_url; bytes = length body }
                ≡ document =
              ground arith in
            subst (IsAdmitted wanted) same (record {
              body = body;
              decoded = read;
              is_an_object = held;
              shallow = ground arith;
              counted = refl;
            })
      ]
