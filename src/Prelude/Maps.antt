-- ===== src/Prelude/Maps.antt =====
-- `BTreeMap<String, V>` as an association list. What depends on the order of the keys is not read.
use Prim.Native.Nat.{◌+◌, ◌≤◌, ◌<◌}
use mathlib.Core.Path.{◌≡◌, refl}
use mathlib.Core.Bool.{Bool, true, false}
use mathlib.Core.Option.{Option, none, some}
use mathlib.Core.List.{List, [], ◌∷◌}
use native.Mathlib.Omega.{arith}
use odp_rust.Prelude.Tests.{◌==◌, if◌then◌else◌}
use odp_rust.Prelude.Lists.{length}
use odp_rust.Prelude.Text.{Text, text_eq, text_eq_iff}

abbrev pub Map {ℓ} : Type ℓ → Type ℓ
Map V = List (Text × V)

module _ {ℓ} {V : Type ℓ} where
  unfoldable pub lookup : Text → Map V → Option V
  lookup k [] = none
  lookup k (entry ∷ m) = let found = lookup k m in if entry.0 == k then some entry.1 else found

  abbrev pub contains_key : Text → Map V → Bool
  contains_key k m = elim (lookup k m) [ none ↦ false | some v ↦ true ]

  unfoldable pub insert : Text → V → Map V → Map V
  insert k v [] = (k, v) ∷ []
  insert k v (entry ∷ m) =
      let rest = insert k v m in if entry.0 == k then (k, v) ∷ m else entry ∷ rest

  unfoldable pub remove : Text → Map V → Map V
  remove k [] = []
  remove k ((j, w) ∷ m) = let rest = remove k m in if j == k then rest else (j, w) ∷ rest

module _ {ℓ} {V : Type ℓ} where
  -- What a key reads after a store under one.
  pub lookup-insert :
      (stored read : Text) (value : V) (entries : Map V)
      → lookup read (insert stored value entries)
        ≡ (if stored == read then some value else lookup read entries)
  unfolding lookup insert
  lookup-insert stored read value [] = refl
  lookup-insert stored read value ((name, held) ∷ entries) =
      let rest = lookup-insert stored read value entries in
      ground (arith, rest, text_eq_iff stored read, text_eq_iff name stored, text_eq_iff name read)

  pub lookup-remove :
      (k j : Text) (m : Map V) → lookup j (remove k m) ≡ (if k == j then none else lookup j m)
  unfolding lookup remove
  lookup-remove k j [] = ground arith
  lookup-remove k j ((i, w) ∷ m) =
      ground (arith, text_eq_iff k j, text_eq_iff i k, text_eq_iff i j, lookup-remove k j m)

  pub length-insert : (k : Text) (v : V) (m : Map V) → length (insert k v m) ≤ length m + 1
  unfolding insert
  length-insert k v [] = omega arith
  length-insert k v ((j, w) ∷ m) = ground (arith, length-insert k v m)

  pub length-insert_present :
      (k : Text) (v : V) (m : Map V) → contains_key k m ≡ true → length (insert k v m) ≡ length m
  unfolding insert lookup
  length-insert_present k v [] h = cc
  length-insert_present k v ((j, w) ∷ m) h = ground (arith, length-insert_present k v m)

  pub length-remove : (k : Text) (m : Map V) → length (remove k m) ≤ length m
  unfolding remove
  length-remove k [] = omega arith
  length-remove k ((j, w) ∷ m) = ground (arith, length-remove k m)

  pub length-remove_present :
      (k : Text) (m : Map V) → contains_key k m ≡ true → length (remove k m) < length m
  unfolding remove lookup
  length-remove_present k [] h = cc
  length-remove_present k ((j, w) ∷ m) h =
      ground (arith, length-remove_present k m, length-remove k m)
