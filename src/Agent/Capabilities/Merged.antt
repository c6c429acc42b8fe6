-- ===== src/Agent/Capabilities/Merged.antt =====
-- crates/odp-agent/src/capabilities.rs: how much a source may add.
use odp_rust.Prelude.{
  ℕ, suc, ◌+◌, ◌≡◌, ◌≤◌, refl, ap, ◌∙◌, some, List, [], ◌∷◌, map, ltb, length, Bool-cases,
  Option-cases, inl, inr, arith,
}
use odp_rust.Prelude.Text.{Text, text_eq}
use odp_rust.Prelude.Maps.{Map, lookup, insert, remove, length-insert, length-remove}
use odp_rust.Core.Documents.Services.{FilterDefinition, SortKey}
use odp_rust.Core.Validation.Rules.{contains_name}
use odp_rust.Agent.Capabilities.{
  merged, remove_names, insert_accepted, accepted, duplicate_ids, available, insert_entry, in_order,
}

module _ {V : Type 0} where
  length-remove_names :
      (names : List Text) (held : Map V) → length (remove_names names held) ≤ length held
  unfolding remove_names
  length-remove_names [] held = omega arith
  length-remove_names (name ∷ names) held =
      omega (arith, length-remove_names names (remove name held), length-remove name held)

  length-insert_accepted :
      (duplicates : List Text) (values : List (Text × V)) (held : Map V)
      → length (insert_accepted duplicates values held) ≤ length held + accepted duplicates values
  unfolding insert_accepted accepted
  length-insert_accepted duplicates [] held = omega arith
  length-insert_accepted duplicates (value ∷ values) held =
      let more = length-insert value.0 value.1 held in
      elim (Bool-cases (contains_name duplicates value.0)) [
        | inl twice ↦
            rw (insert_accepted, accepted, twice) (length-insert_accepted duplicates values held)
        | inr once ↦
            let rest = length-insert_accepted duplicates values (insert value.0 value.1 held) in
            rw (insert_accepted, accepted, once) (omega (arith, more, rest))
      ]

  pub merged_bound :
      (maximum : ℕ) (values : List (Text × V)) (held : Map V)
      → length held ≤ maximum
      → length (merged maximum values held).1 ≤ maximum
  unfolding merged
  merged_bound maximum values held low =
      let duplicates = duplicate_ids (map (λ value. value.0) values) held in
      let left = remove_names duplicates held in
      let shorter = length-remove_names duplicates held in
      let longer = length-insert_accepted duplicates values left in
      elim (Bool-cases (ltb maximum (length left + accepted duplicates values))) [
        | inl full ↦ rw (merged, full) (omega (arith, low, shorter))
        | inr fits ↦
            let room : length left + accepted duplicates values ≤ maximum = ground arith in
            rw (merged, fits) (omega (arith, longer, room))
      ]

  length-insert_entry :
      (entry : Text × V) (entries : Map V)
      → length (insert_entry entry entries) ≡ suc (length entries)
  unfolding insert_entry
  length-insert_entry entry [] = refl
  length-insert_entry entry (other ∷ entries) = ground (arith, length-insert_entry entry entries)

  pub length-in_order : (entries : Map V) → length (in_order entries) ≡ length entries
  unfolding in_order
  length-in_order [] = refl
  length-in_order (entry ∷ entries) =
      length-insert_entry entry (in_order entries) ∙ ap suc (length-in_order entries)

length-available :
    (filters : Map FilterDefinition) (keys : List SortKey)
    → length (available filters keys) ≤ length keys
unfolding available
length-available filters [] = omega arith
length-available filters (key ∷ keys) =
    let rest = length-available filters keys in
    elim (Option-cases (lookup key.filter_id filters)) [
      | inl missing ↦ rw (available, missing) (omega (arith, rest))
      | inr (value, e) ↦ rw (available, e) (omega (arith, rest))
    ]

-- As many as the keys are those of the keys.
pub available_lem :
    (filters : Map FilterDefinition) (keys : List SortKey)
    → length (available filters keys) ≡ length keys
    → map (λ value. some value) (available filters keys)
      ≡ map (λ key. lookup key.filter_id filters) keys
unfolding available
available_lem filters [] h = refl
available_lem filters (key ∷ keys) h =
    let rest = length-available filters keys in
    elim (Option-cases (lookup key.filter_id filters)) [
      | inl missing ↦ absurd (ground arith)
      | inr (value, e) ↦
          let same : length (available filters keys) ≡ length keys = ground arith in
          rw (available, e) (ap (λ ds. some value ∷ ds) (available_lem filters keys same))
    ]
