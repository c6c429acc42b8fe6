-- ===== src/Core/References/Paths.antt =====
-- Local identifiers and operation paths of references.rs.
use odp_rust.Prelude.{
  ℕ, ◌≤◌, ◌≡◌, refl, ◌↔◌, ◌≢◌, Bool, true, false, Option, none, some, [], ◌∷◌, ok, arith, length,
  all, All,
}
use odp_rust.Prelude.Text.{Text, text, text_eq_iff}
use odp_rust.Prelude.Text.Laws.{Lacks}
use odp_rust.Core.Models.{Operation}
use odp_rust.Core.References.{
  is_local_resource_identifier, is_identifier_byte, operation_path, path_of, is_resource,
  or_default,
}

-- From 1 to 128 bytes of the unreserved set, and no dot segment.
pub record IsLocal (id : Text) : Type 0 where
  pub present : 1 ≤ length id
  pub short : length id ≤ 128
  pub unreserved : All (λ b. is_identifier_byte b ≡ true) id
  pub no_dot : id ≢ text "."
  pub no_dots : id ≢ text ".."

pub all-All : (p : ℕ → Bool) (xs : Text) → (all p xs ≡ true) ↔ All (λ b. p b ≡ true) xs
all-All p [] = ((λ _. tt), λ _. refl)
all-All p (x ∷ xs) = ground (arith, all-All p xs)

-- An identifier is accepted exactly when it is local.
pub is_local_resource_identifier_iff :
    (id : Text) → (is_local_resource_identifier id ≡ true) ↔ IsLocal id
unfolding is_local_resource_identifier
is_local_resource_identifier_iff [] = (
  (λ h. absurd (ground (arith, text_eq_iff [] (text "."), text_eq_iff [] (text "..")))),
  λ h. absurd (omega (arith, h.present)),
)
is_local_resource_identifier_iff (x ∷ xs) = (
  (λ h. record {
    present = omega arith;
    short = ground arith;
    unreserved = (all-All is_identifier_byte (x ∷ xs)).0 (ground arith);
    no_dot = ground (arith, text_eq_iff (x ∷ xs) (text "."));
    no_dots = ground (arith, text_eq_iff (x ∷ xs) (text ".."));
  }),
  (λ h.
      let chars = (all-All is_identifier_byte (x ∷ xs)).1 h.unreserved in
      ground (
        arith,
        chars,
        h.short,
        h.no_dot,
        h.no_dots,
        text_eq_iff (x ∷ xs) (text "."),
        text_eq_iff (x ∷ xs) (text ".."),
      )),
)

-- The identifiers that an operation takes.
abbrev pub Takes : Operation → Option Text → Type 0
Takes operation none = is_resource operation ≡ false
Takes operation (some id) = (is_resource operation ≡ true) × IsLocal id

-- An operation has a path exactly when it is given the identifier that it takes: a local one for an
-- operation on one resource, and none for any other.
pub operation_path_iff :
    (operation : Operation) (id : Option Text)
    → (operation_path operation id ≡ ok (path_of operation (or_default id))) ↔ Takes operation id
unfolding operation_path
operation_path_iff operation none = ground arith
operation_path_iff operation (some id) = ground (arith, is_local_resource_identifier_iff id)

-- No identifier holds a slash or a NUL.
pub IsLocal-Lacks :
    (id : Text) → All (λ b. is_identifier_byte b ≡ true) id → Lacks 47 id × Lacks 0 id
IsLocal-Lacks [] h = (tt, tt)
IsLocal-Lacks (x ∷ xs) (h, hs) =
    let (p, q) = IsLocal-Lacks xs hs in ((ground arith, p), (ground arith, q))
