-- ===== src/Agent/Capabilities/Offered.antt =====
-- crates/odp-agent/src/capabilities.rs: what becomes of a filter or a sort that is offered twice.
use odp_rust.Prelude.{
  ℕ, ◌+◌, ◌≡◌, refl, ap, sym, ◌∙◌, Bool, true, false, not, ◌&&◌, ◌||◌, Option, none, some, List, [],
  ◌∷◌, map, if◌then◌else◌, ltb, leb, length, Bool-cases, Option-cases, inl, inr, arith, ◌==◌,
}
use odp_rust.Prelude.Text.{Text, text_eq, text_eq_iff, text_leb}
use odp_rust.Prelude.Maps.{Map, lookup, insert, remove, contains_key, lookup-insert, lookup-remove}
use odp_rust.Core.Validation.Rules.{contains_name}
use odp_rust.Agent.Capabilities.{
  merged, remove_names, insert_accepted, accepted, duplicate_ids, duplicates_from, insert_name,
}

contains_name-insert_name :
    (id name : Text) (names : List Text)
    → contains_name (insert_name name names) id ≡ (name == id || contains_name names id)
unfolding insert_name
contains_name-insert_name id name [] = refl
contains_name-insert_name id name (other ∷ names) =
    let rest = contains_name-insert_name id name names in
    elim (Bool-cases (name == other)) [
      | inl same ↦
          let e : name ≡ other = (text_eq_iff name other).0 same in
          rw (insert_name, same, e) (ground arith)
      | inr apart ↦ elim (Bool-cases (text_leb name other)) [
        | inl before ↦ rw (insert_name, apart, before) refl
        | inr after ↦ rw (insert_name, apart, after) (ground (arith, rest))
      ]
    ]

module _ {V : Type 0} (id : Text) where
  -- The values with an identifier, in their order.
  unfoldable pub values_of : List (Text × V) → List V
  values_of [] = []
  values_of (value ∷ values) =
      let rest = values_of values in if value.0 == id then value.1 ∷ rest else rest

  -- What is held and what is offered under an identifier.
  abbrev pub offers : List (Text × V) → Map V → List V
  offers values held = elim (lookup id held) [
    | none ↦ values_of values
    | some v ↦ v ∷ values_of values
  ]

  abbrev pub sole : List V → Option V
  sole [] = none
  sole (v ∷ []) = some v
  sole (v ∷ (u ∷ vs)) = none

  abbrev latest : List V → Option V → Option V
  latest [] held = held
  latest (v ∷ vs) held = latest vs (some v)

  duplicates_from_lem :
      (existing : Text → Bool) (seen : List Text) (values : List (Text × V))
      → contains_name (duplicates_from existing seen (map (λ value. value.0) values)) id ≡ (
          (leb 1 (length (values_of values)) && (contains_name seen id || existing id))
          || leb 2 (length (values_of values)))
  unfolding duplicates_from values_of
  duplicates_from_lem existing seen [] = refl
  duplicates_from_lem existing seen ((name, value) ∷ values) =
      let rest = duplicates_from_lem existing (name ∷ seen) values in
      let names = duplicates_from existing (name ∷ seen) (map (λ value. value.0) values) in
      let put = contains_name-insert_name id name names in
      elim (Bool-cases (name == id)) [
        | inl same ↦
            let e : name ≡ id = (text_eq_iff name id).0 same in
            let equal : existing name ≡ existing id = ap existing e in
            let seen_equal : contains_name seen name ≡ contains_name seen id =
              ap (contains_name seen) e in
            elim (Bool-cases (contains_name seen name || existing name)) [
              | inl twice ↦ rw (duplicates_from, values_of, twice, same) (ground (arith, rest, put))
              | inr once ↦ rw (duplicates_from, values_of, once, same) (ground (arith, rest))
            ]
        | inr other ↦ elim (Bool-cases (contains_name seen name || existing name)) [
          | inl twice ↦ rw (duplicates_from, values_of, twice, other) (ground (arith, rest, put))
          | inr once ↦ rw (duplicates_from, values_of, once, other) (ground (arith, rest))
        ]
      ]

  lookup-remove_names :
      (names : List Text) (held : Map V)
      → lookup id (remove_names names held)
        ≡ (if contains_name names id then none else lookup id held)
  unfolding remove_names
  lookup-remove_names [] held = refl
  lookup-remove_names (name ∷ names) held =
      ground (arith, lookup-remove_names names (remove name held), lookup-remove name id held)

  lookup-insert_accepted_twice :
      (duplicates : List Text) (values : List (Text × V)) (held : Map V)
      → contains_name duplicates id ≡ true
      → lookup id (insert_accepted duplicates values held) ≡ lookup id held
  unfolding insert_accepted
  lookup-insert_accepted_twice duplicates [] held h = refl
  lookup-insert_accepted_twice duplicates (value ∷ values) held h =
      elim (Bool-cases (contains_name duplicates value.0)) [
        | inl twice ↦
            rw (insert_accepted, twice) (lookup-insert_accepted_twice duplicates values held h)
        | inr once ↦
            let rest =
              lookup-insert_accepted_twice duplicates values (insert value.0 value.1 held) h in
            let stored = lookup-insert value.0 id value.1 held in
            let apart : (value.0 == id) ≡ false = elim (Bool-cases (value.0 == id)) [
              | inl same ↦
                  let e : value.0 ≡ id = (text_eq_iff value.0 id).0 same in
                  let both : contains_name duplicates id ≡ false =
                    sym (ap (contains_name duplicates) e) ∙ once in
                  absurd (cc (both, h))
              | inr other ↦ other
            ] in
            rw (insert_accepted, once)
              (rest ∙ (stored ∙ ap (λ b. if b then some value.1 else lookup id held) apart))
      ]

  lookup-insert_accepted_once :
      (duplicates : List Text) (values : List (Text × V)) (held : Map V)
      → contains_name duplicates id ≡ false
      → lookup id (insert_accepted duplicates values held)
        ≡ latest (values_of values) (lookup id held)
  unfolding insert_accepted values_of
  lookup-insert_accepted_once duplicates [] held h = refl
  lookup-insert_accepted_once duplicates (value ∷ values) held h =
      let stored = lookup-insert value.0 id value.1 held in
      elim (Bool-cases (value.0 == id)) [
        | inl same ↦
            let e : value.0 ≡ id = (text_eq_iff value.0 id).0 same in
            let once : contains_name duplicates value.0 ≡ false =
              ap (contains_name duplicates) e ∙ h in
            let kept = stored ∙ ap (λ b. if b then some value.1 else lookup id held) same in
            rw (insert_accepted, values_of, once, same)
              (lookup-insert_accepted_once duplicates values (insert value.0 value.1 held) h
                ∙ ap (latest (values_of values)) kept)
        | inr other ↦
            let kept = stored ∙ ap (λ b. if b then some value.1 else lookup id held) other in
            elim (Bool-cases (contains_name duplicates value.0)) [
              | inl twice ↦
                  rw (insert_accepted, values_of, twice, other)
                    (lookup-insert_accepted_once duplicates values held h)
              | inr once ↦
                  rw (insert_accepted, values_of, once, other)
                    (lookup-insert_accepted_once duplicates values (insert value.0 value.1 held) h
                      ∙ ap (latest (values_of values)) kept)
            ]
      ]

  sole-once :
      (vs : List V) (held : Option V)
      → ((leb 1 (length vs) && not (elim held [ none ↦ true | some v ↦ false ]))
          || leb 2 (length vs))
        ≡ false
      → latest vs held ≡ sole (elim held [ none ↦ vs | some v ↦ v ∷ vs ])
  sole-once [] none h = refl
  sole-once [] (some v) h = refl
  sole-once (v ∷ []) none h = refl
  sole-once (v ∷ []) (some u) h = absurd (ground arith)
  sole-once (v ∷ (u ∷ vs)) none h = absurd (ground arith)
  sole-once (v ∷ (u ∷ vs)) (some t) h = absurd (ground arith)

  sole-twice :
      (vs : List V) (held : Option V)
      → ((leb 1 (length vs) && not (elim held [ none ↦ true | some v ↦ false ]))
          || leb 2 (length vs))
        ≡ true
      → sole (elim held [ none ↦ vs | some v ↦ v ∷ vs ]) ≡ none
  sole-twice [] none h = absurd (ground arith)
  sole-twice [] (some v) h = absurd (ground arith)
  sole-twice (v ∷ []) none h = absurd (ground arith)
  sole-twice (v ∷ []) (some u) h = refl
  sole-twice (v ∷ (u ∷ vs)) none h = refl
  sole-twice (v ∷ (u ∷ vs)) (some t) h = refl

  contains_key_lem :
      (held : Map V)
      → contains_key id held ≡ not (elim (lookup id held) [ none ↦ true | some v ↦ false ])
  contains_key_lem held = elim (Option-cases (lookup id held)) [
    | inl missing ↦ rw (contains_key, missing) refl
    | inr (v, e) ↦ rw (contains_key, e) refl
  ]

  -- Where the values of a source fit, an identifier stands after that source for the one value
  -- among those that the source offers under it and the one that is still held from the sources
  -- before, and for none where these are none or several; what was removed before counts as not
  -- held.
  pub merged-sole :
      (maximum : ℕ) (values : List (Text × V)) (held : Map V)
      → (merged maximum values held).0 ≡ true
      → lookup id (merged maximum values held).1 ≡ sole (offers values held)
  unfolding merged duplicate_ids
  merged-sole maximum values held fits =
      let duplicates = duplicate_ids (map (λ value. value.0) values) held in
      let left = remove_names duplicates held in
      let room : ltb maximum (length left + accepted duplicates values) ≡ false =
        elim (Bool-cases (ltb maximum (length left + accepted duplicates values))) [
          | inl full ↦ absurd (ground arith)
          | inr roomy ↦ roomy
        ] in
      let found : contains_name duplicates id ≡ (
          (leb 1 (length (values_of values))
            && not (elim (lookup id held) [ none ↦ true | some v ↦ false ]))
          || leb 2 (length (values_of values))) =
        duplicates_from_lem (λ name. contains_key name held) [] values
        ∙ ap (λ b. (leb 1 (length (values_of values)) && b) || leb 2 (length (values_of values)))
            (contains_key_lem held) in
      let kept = lookup-remove_names duplicates held in
      elim (Bool-cases (contains_name duplicates id)) [
        | inl twice ↦
            rw (merged, room)
              (lookup-insert_accepted_twice duplicates values left twice
                ∙ (kept
                    ∙ (ap (λ b. if b then none else lookup id held) twice
                        ∙ sym
                            (sole-twice (values_of values) (lookup id held) (sym found ∙ twice)))))
        | inr once ↦
            rw (merged, room)
              (lookup-insert_accepted_once duplicates values left once
                ∙ (ap (latest (values_of values))
                      (kept ∙ ap (λ b. if b then none else lookup id held) once)
                    ∙ sole-once (values_of values) (lookup id held) (sym found ∙ once)))
      ]
