-- ===== src/Core/Validation/Versions.antt =====
-- crates/odp-core/src/validation.rs: as which version a document is validated.
use mathlib.Core.Option
use odp_rust.Prelude.{
  ℕ, ◌≡◌, ◌≤◌, ◌↔◌, ◌⊎◌, inl, inr, refl, sym, ap, ◌∙◌, Bool, true, not, ◌&&◌, ◌||◌, Option, none,
  some, [], ◌∷◌, ◌++◌, subst, All, all, all_iff, ◌==◌, nat_eq, arith, Bool-cases, Option-cases,
}
use odp_rust.Prelude.Text.{Text, text, text_eq, text_beq, is_empty, strip_prefix, starts_with}
use odp_rust.Prelude.Text.Laws.{strip_prefix-append, strip_prefix_inv}
use odp_rust.Core.References.{is_some_and}
use odp_rust.Core.Json.{
  Value, null, boolean, number, array, string, object, as_str, get, set_member,
}
use odp_rust.Core.Validation.Filters.{text_at, on_object}
use odp_rust.Core.Validation.Parsing.{version, is_digit, is_minor_version, compatible}

abbrev pub IsDigit : ℕ → Type 0
IsDigit c = (48 ≤ c) × (c ≤ 57)

-- `1.N` for a number N from 1 on, written without a zero before it.
abbrev pub IsMinor : Text → Type 0
IsMinor value =
    (first : ℕ) × (rest : Text) × (value ≡ text "1." ++ first ∷ rest)
    × (49 ≤ first)
    × (first ≤ 57)
    × All IsDigit rest

-- What the source asks of the part after the dot.
abbrev numeral : Text → Bool
numeral minor =
    not (is_empty minor)
    && ((minor == text "0" || not (starts_with (text "0") minor)) && all is_digit minor)

is_digit_iff : (c : ℕ) → (is_digit c ≡ true) ↔ IsDigit c
is_digit_iff c = ground arith

numeral_iff :
    (first : ℕ) (rest : Text)
    → ((not (text "1." ++ first ∷ rest == version) && numeral (first ∷ rest)) ≡ true)
      ↔ ((49 ≤ first) × (first ≤ 57) × All IsDigit rest)
unfolding text_beq strip_prefix
numeral_iff first [] = ground arith
numeral_iff first (c ∷ rest) = ground (arith, all_iff is_digit_iff (c ∷ rest))

numeral_inv :
    (value minor : Text)
    → value ≡ text "1." ++ minor
    → (not (value == version) && numeral minor) ≡ true
    → IsMinor value
numeral_inv value [] e h = absurd (ground arith)
numeral_inv value (first ∷ rest) e h =
    let tested = sym (ap (λ v. not (v == version) && numeral (first ∷ rest)) e) ∙ h in
    let (low, high, digits) = (numeral_iff first rest).0 tested in
    (first, rest, e, low, high, digits)

is_minor_version_iff : (value : Text) → (is_minor_version value ≡ true) ↔ IsMinor value
unfolding is_minor_version
is_minor_version_iff value = (
  (λ h. elim (Option-cases (strip_prefix (text "1.") value)) [
    | inl e ↦ absurd (ground arith)
    | inr (minor, e) ↦
        numeral_inv value minor (strip_prefix_inv (text "1.") value minor e) (ground arith)
  ]),
  (λ (first, rest, e, low, high, digits).
      let stripped = strip_prefix-append (text "1.") (first ∷ rest) in
      let tested = (numeral_iff first rest).1 (low, high, digits) in
      rw (is_minor_version, e, stripped) tested),
)

-- The document says that it has such a version.
abbrev pub HasMinor : Value → Type 0
HasMinor v = (value : Text) × (get (text "odp_version") v ≡ some (string value)) × IsMinor value

abbrev pub with_version : Value → Value
with_version = on_object (set_member (text "odp_version") (string (text "1.0")))

-- A document of another minor version is read as one of the version 1.0, any other as it is.
abbrev pub IsReadAs : Value → Value → Type 0
IsReadAs v read = (HasMinor v × (read ≡ with_version v)) ⊎ ((¬ HasMinor v) × (read ≡ v))

abbrev says_minor : Value → Bool
says_minor v = is_some_and (text_at (text "odp_version" ∷ []) v) is_minor_version

-- The text of the version is none where there is no text.
says_minor_not :
    (v : Value) (found : Option Value)
    → get (text "odp_version") v ≡ found
    → Option.bind found as_str ≡ none
    → ((says_minor v ≡ true) ↔ HasMinor v)
unfolding Option.bind
says_minor_not v found e plain = ((λ h. absurd (ground arith)), (λ (value, e', m). absurd (cc)))

says_minor_read :
    (v : Value) (value : Text)
    → get (text "odp_version") v ≡ some (string value)
    → ((says_minor v ≡ true) ↔ HasMinor v)
unfolding Option.bind
says_minor_read v value e = (
  (λ h. (value, e, (is_minor_version_iff value).0 (ground arith))),
  (λ (value', e', m).
      let same : value' ≡ value = cc in
      let minor = (is_minor_version_iff value).1 (subst IsMinor same m) in
      ground (arith, e, minor)),
)

says_minor_of :
    (v : Value) (found : Option Value)
    → get (text "odp_version") v ≡ found
    → ((says_minor v ≡ true) ↔ HasMinor v)
unfolding Option.bind
says_minor_of v none e = says_minor_not v none e refl
says_minor_of v (some (string value)) e = says_minor_read v value e
says_minor_of v (some null) e = says_minor_not v (some null) e refl
says_minor_of v (some (boolean b)) e = says_minor_not v (some (boolean b)) e refl
says_minor_of v (some (number n)) e = says_minor_not v (some (number n)) e refl
says_minor_of v (some (array items)) e = says_minor_not v (some (array items)) e refl
says_minor_of v (some (object members)) e = says_minor_not v (some (object members)) e refl

-- A document is read as exactly one value, the one that is validated.
pub compatible_iff : (v read : Value) → IsReadAs v read ↔ (read ≡ compatible v)
unfolding compatible
compatible_iff v read =
    let says = says_minor_of v (get (text "odp_version") v) refl in
    elim (Bool-cases (says_minor v)) [
      | inl said ↦ rw (compatible, said) ((λ r. ground (arith, says)), (λ e. inl (says.0 said, e)))
      | inr unsaid ↦
          rw (compatible, unsaid)
            ((λ r. ground (arith, says)), (λ e. inr ((λ m. absurd (cc (says.1 m))), e)))
    ]
