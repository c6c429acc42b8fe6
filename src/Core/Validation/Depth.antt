-- ===== src/Core/Validation/Depth.antt =====
-- crates/odp-core/src/validation.rs: `validate_json_depth`. The stack has its top first; the fuel is
-- the number of values of the document, each of which is popped once.
use odp_rust.Prelude.{
  ℕ, zero, suc, ◌+◌, max, ◌≡◌, ◌∙◌, ◌≤◌, refl, Bool, true, false, not, ◌&&◌, ◌||◌, Option, none,
  some, List, [], ◌∷◌, Result, ok, err, if◌then◌else◌, ltb, leb, ◌==◌, nat_eq, arith,
}
use odp_rust.Prelude.Text.{text}
use odp_rust.Core.Json.{
  Value, null, boolean, number, string, array, object, Values, empty_array, value_then, Members,
  empty_object, member_then,
}
use odp_rust.Core.Validation.{ParseError, validation, issue}

abbrev pub is_container : Value → Bool
is_container (array items) = true
is_container (object members) = true
is_container _ = false

unfoldable pub push_values : ℕ → Values → List (Value × ℕ) → List (Value × ℕ)
push_values depth empty_array pending = pending
push_values depth (value_then v rest) pending = push_values depth rest ((v, depth) ∷ pending)

unfoldable pub push_members : ℕ → Members → List (Value × ℕ) → List (Value × ℕ)
push_members depth empty_object pending = pending
push_members depth (member_then k v rest) pending = push_members depth rest ((v, depth) ∷ pending)

abbrev pub push_children : ℕ → Value → List (Value × ℕ) → List (Value × ℕ)
push_children depth (array items) pending = push_values depth items pending
push_children depth (object members) pending = push_members depth members pending
push_children depth _ pending = pending

abbrev pub too_deep : ParseError
too_deep = validation (record {
  document_type = text "JSON document";
  issues = issue [] (text "depth") (text "exceeds the JSON nesting depth limit") ∷ [];
})

-- None where the fuel is spent before the stack is empty.
unfoldable pub check_pending : ℕ → ℕ → List (Value × ℕ) → Option (Result ParseError (Unit {0}))
check_pending fuel maximum [] = some (ok tt)
check_pending zero maximum (top ∷ pending) = none
check_pending (suc fuel) maximum ((v, depth) ∷ pending) =
    let rest = check_pending fuel maximum (push_children (depth + 1) v pending) in
    if is_container v && ltb maximum depth then some (err too_deep) else rest

unfoldable mutual
  pub values_in : Value → ℕ
  values_in (array items) = suc (values_of items)
  values_in (object members) = suc (values_under members)
  values_in _ = 1

  pub values_of : Values → ℕ
  values_of empty_array = 0
  values_of (value_then v rest) = values_in v + values_of rest

  pub values_under : Members → ℕ
  values_under empty_object = 0
  values_under (member_then k v rest) = values_in v + values_under rest

unfoldable pub depth_run : Value → ℕ → Option (Result ParseError (Unit {0}))
depth_run v maximum = check_pending (values_in v) maximum ((v, 1) ∷ [])

-- The fuel is enough, as `validate_json_depth_lem` shows.
abbrev pub run_result : Option (Result ParseError (Unit {0})) → Result ParseError (Unit {0})
run_result none = ok tt
run_result (some result) = result

unfoldable pub validate_json_depth : Value → ℕ → Result ParseError (Unit {0})
validate_json_depth v maximum = run_result (depth_run v maximum)

-- How deep objects and arrays nest.
unfoldable mutual
  pub nesting : Value → ℕ
  nesting (array items) = suc (nesting_of items)
  nesting (object members) = suc (nesting_under members)
  nesting _ = 0

  pub nesting_of : Values → ℕ
  nesting_of empty_array = 0
  nesting_of (value_then v rest) = max (nesting v) (nesting_of rest)

  pub nesting_under : Members → ℕ
  nesting_under empty_object = 0
  nesting_under (member_then k v rest) = max (nesting v) (nesting_under rest)

unfoldable fit : ℕ → ℕ → ℕ → Bool
fit maximum n depth = n == 0 || leb (n + depth) (suc maximum)

fit-max :
    (maximum a b depth : ℕ)
    → fit maximum (max a b) depth ≡ (fit maximum a depth && fit maximum b depth)
unfolding fit
fit-max maximum a b depth = ground arith

fit-suc :
    (maximum n depth : ℕ)
    → fit maximum (suc n) depth ≡ (not (ltb maximum depth) && fit maximum n (depth + 1))
unfolding fit
fit-suc maximum n depth = ground arith

fit_one : (maximum n : ℕ) → fit maximum n 1 ≡ leb n maximum
unfolding fit
fit_one maximum n = ground arith

fit-zero : (maximum depth : ℕ) → fit maximum 0 depth ≡ true
unfolding fit
fit-zero maximum depth = refl

and_swap : (a b c : Bool) → (a && (b && c)) ≡ ((b && a) && c)
and_swap a b c = ground arith

abbrev all_fit : ℕ → List (Value × ℕ) → Bool
all_fit maximum [] = true
all_fit maximum ((v, depth) ∷ pending) = fit maximum (nesting v) depth && all_fit maximum pending

abbrev pending_values : List (Value × ℕ) → ℕ
pending_values [] = 0
pending_values ((v, depth) ∷ pending) = values_in v + pending_values pending

all_fit-push_values :
    (maximum depth : ℕ) (items : Values) (pending : List (Value × ℕ))
    → all_fit maximum (push_values depth items pending)
      ≡ (fit maximum (nesting_of items) depth && all_fit maximum pending)
unfolding push_values nesting
all_fit-push_values maximum depth empty_array pending = rw (fit-zero maximum depth) refl
all_fit-push_values maximum depth (value_then v rest) pending =
    let below = all_fit-push_values maximum depth rest ((v, depth) ∷ pending) in
    let swapped =
      and_swap (fit maximum (nesting_of rest) depth) (fit maximum (nesting v) depth)
        (all_fit maximum pending) in
    rw (fit-max maximum (nesting v) (nesting_of rest) depth) (below ∙ swapped)

all_fit-push_members :
    (maximum depth : ℕ) (members : Members) (pending : List (Value × ℕ))
    → all_fit maximum (push_members depth members pending)
      ≡ (fit maximum (nesting_under members) depth && all_fit maximum pending)
unfolding push_members nesting
all_fit-push_members maximum depth empty_object pending = rw (fit-zero maximum depth) refl
all_fit-push_members maximum depth (member_then k v rest) pending =
    let below = all_fit-push_members maximum depth rest ((v, depth) ∷ pending) in
    let swapped =
      and_swap (fit maximum (nesting_under rest) depth) (fit maximum (nesting v) depth)
        (all_fit maximum pending) in
    rw (fit-max maximum (nesting v) (nesting_under rest) depth) (below ∙ swapped)

pending_values-push_values :
    (depth : ℕ) (items : Values) (pending : List (Value × ℕ))
    → pending_values (push_values depth items pending) ≡ values_of items + pending_values pending
unfolding push_values values_in
pending_values-push_values depth empty_array pending = omega arith
pending_values-push_values depth (value_then v rest) pending =
    omega (arith, pending_values-push_values depth rest ((v, depth) ∷ pending))

pending_values-push_members :
    (depth : ℕ) (members : Members) (pending : List (Value × ℕ))
    → pending_values (push_members depth members pending)
      ≡ values_under members + pending_values pending
unfolding push_members values_in
pending_values-push_members depth empty_object pending = omega arith
pending_values-push_members depth (member_then k v rest) pending =
    omega (arith, pending_values-push_members depth rest ((v, depth) ∷ pending))

abbrev verdict : Bool → Result ParseError (Unit {0})
verdict fits = if fits then ok tt else err too_deep

check_pending_lem :
    (fuel maximum : ℕ) (pending : List (Value × ℕ))
    → pending_values pending ≤ fuel
    → check_pending fuel maximum pending ≡ some (verdict (all_fit maximum pending))
unfolding check_pending nesting values_in
check_pending_lem fuel maximum [] enough = refl
check_pending_lem zero maximum ((null, depth) ∷ pending) enough = absurd (omega arith)
check_pending_lem zero maximum ((boolean b, depth) ∷ pending) enough = absurd (omega arith)
check_pending_lem zero maximum ((number n, depth) ∷ pending) enough = absurd (omega arith)
check_pending_lem zero maximum ((string s, depth) ∷ pending) enough = absurd (omega arith)
check_pending_lem zero maximum ((array items, depth) ∷ pending) enough = absurd (omega arith)
check_pending_lem zero maximum ((object members, depth) ∷ pending) enough = absurd (omega arith)
check_pending_lem (suc fuel) maximum ((null, depth) ∷ pending) enough =
    rw (fit-zero maximum depth) (check_pending_lem fuel maximum pending (omega arith))
check_pending_lem (suc fuel) maximum ((boolean b, depth) ∷ pending) enough =
    rw (fit-zero maximum depth) (check_pending_lem fuel maximum pending (omega arith))
check_pending_lem (suc fuel) maximum ((number n, depth) ∷ pending) enough =
    rw (fit-zero maximum depth) (check_pending_lem fuel maximum pending (omega arith))
check_pending_lem (suc fuel) maximum ((string s, depth) ∷ pending) enough =
    rw (fit-zero maximum depth) (check_pending_lem fuel maximum pending (omega arith))
check_pending_lem (suc fuel) maximum ((array items, depth) ∷ pending) enough =
    let below = push_values (depth + 1) items pending in
    let size = pending_values-push_values (depth + 1) items pending in
    let rest = check_pending_lem fuel maximum below (omega arith) in
    ground (
      arith,
      rest,
      all_fit-push_values maximum (depth + 1) items pending,
      fit-suc maximum (nesting_of items) depth,
    )
check_pending_lem (suc fuel) maximum ((object members, depth) ∷ pending) enough =
    let below = push_members (depth + 1) members pending in
    let size = pending_values-push_members (depth + 1) members pending in
    let rest = check_pending_lem fuel maximum below (omega arith) in
    ground (
      arith,
      rest,
      all_fit-push_members maximum (depth + 1) members pending,
      fit-suc maximum (nesting_under members) depth,
    )

-- The loop ends within its fuel, and accepts a document exactly when its objects and arrays nest no
-- deeper than the maximum.
pub validate_json_depth_lem :
    (v : Value) (maximum : ℕ)
    → (depth_run v maximum ≡ some (verdict (leb (nesting v) maximum)))
      × (validate_json_depth v maximum ≡ verdict (leb (nesting v) maximum))
unfolding validate_json_depth depth_run
validate_json_depth_lem v maximum =
    let ends = check_pending_lem (values_in v) maximum ((v, 1) ∷ []) (omega arith) in
    ground (arith, ends, fit_one maximum (nesting v))
