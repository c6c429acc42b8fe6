-- ===== src/Prelude/Text.antt =====
-- Rust's `str` as its UTF-8 bytes, so that `len` counts bytes and `==` compares bytes.
pub mod Laws
use Prim.Native.Char.{code}
use Prim.Native.Nat.{ℕ, zero, suc, ◌+◌, ◌-◌, ◌≤◌}
use Prim.Native.String.{String}
use mathlib.Core.Path.{◌≡◌, refl, ap, ap₂}
use mathlib.Core.Logic.{◌↔◌}
use mathlib.Core.Bool.{Bool, true, false, not, ◌&&◌, ◌||◌}
use mathlib.Core.Option
use mathlib.Core.Option.{Option, none, some}
use mathlib.Core.List.{List, [], ◌∷◌, ◌++◌, map, reverse}
use native.Mathlib.Omega.{arith}
use odp_rust.Prelude.Tests.{leb, PartialEq, nat_eq, ◌==◌, if◌then◌else◌, and-eq-true}

abbrev pub Text : Type 0
Text = List ℕ

-- The bytes of an ASCII literal.
abbrev pub text : String → Text
text String.[] = []
text (String.◌∷◌ c s) = code c ∷ text s

unfoldable pub text_beq : Text → Text → Bool
text_beq [] [] = true
text_beq (x ∷ xs) (y ∷ ys) = x == y && text_beq xs ys
text_beq _ _ = false

tail_eq : {x y : ℕ} {xs ys : Text} → x ∷ xs ≡ y ∷ ys → xs ≡ ys
tail_eq h = cc

head_eq : {x y : ℕ} {xs ys : Text} → x ∷ xs ≡ y ∷ ys → x ≡ y
head_eq h = cc

eq_of_text_beq : (xs ys : Text) → text_beq xs ys ≡ true → xs ≡ ys
unfolding text_beq
eq_of_text_beq [] [] h = refl
eq_of_text_beq (x ∷ xs) (y ∷ ys) h =
    let (p, q) = and-eq-true (x == y) (text_beq xs ys) h in
    ap₂ (λ a l. a ∷ l) (ground arith) (eq_of_text_beq xs ys q)
eq_of_text_beq [] (y ∷ ys) h = cc
eq_of_text_beq (x ∷ xs) [] h = cc

text_beq_of_eq : (xs ys : Text) → xs ≡ ys → text_beq xs ys ≡ true
unfolding text_beq
text_beq_of_eq [] [] h = refl
text_beq_of_eq (x ∷ xs) (y ∷ ys) h = ground (arith, head_eq h, text_beq_of_eq xs ys (tail_eq h))
text_beq_of_eq [] (y ∷ ys) h = cc
text_beq_of_eq (x ∷ xs) [] h = cc

pub text_eq_iff : (xs ys : Text) → (text_beq xs ys ≡ true) ↔ (xs ≡ ys)
text_eq_iff xs ys = (eq_of_text_beq xs ys, text_beq_of_eq xs ys)

instance abbrev pub text_eq : PartialEq Text
text_eq = record { eq = text_beq; decides = text_eq_iff }

pub text_eq_refl : (xs : Text) → (xs == xs) ≡ true
text_eq_refl xs = text_beq_of_eq xs xs refl

-- `str` is ordered by its bytes.
unfoldable pub text_leb : Text → Text → Bool
text_leb [] ys = true
text_leb (x ∷ xs) [] = false
text_leb (x ∷ xs) (y ∷ ys) = leb x y && (not (leb y x) || text_leb xs ys)

-- `starts_with`, `strip_prefix`.
unfoldable pub strip_prefix : Text → Text → Option Text
strip_prefix [] s = some s
strip_prefix (p ∷ ps) [] = none
strip_prefix (p ∷ ps) (c ∷ s) = if p == c then strip_prefix ps s else none

abbrev pub starts_with : Text → Text → Bool
starts_with p s = elim (strip_prefix p s) [ none ↦ false | some rest ↦ true ]

-- `strip_suffix`, `ends_with`.
unfoldable pub strip_suffix : Text → Text → Option Text
unfolding strip_prefix
strip_suffix p s = Option.map reverse (strip_prefix (reverse p) (reverse s))

abbrev pub ends_with : Text → Text → Bool
ends_with p s = elim (strip_suffix p s) [ none ↦ false | some rest ↦ true ]

abbrev pub is_empty {ℓ} : {A : Type ℓ} → List A → Bool
is_empty [] = true
is_empty (x ∷ xs) = false

-- `trim_start_matches(c)`, `trim_end_matches(c)` for one byte.
unfoldable pub trim_start_matches : ℕ → Text → Text
trim_start_matches c [] = []
trim_start_matches c (x ∷ xs) = if x == c then trim_start_matches c xs else x ∷ xs

unfoldable pub trim_end_matches : ℕ → Text → Text
unfolding trim_start_matches
trim_end_matches c s = reverse (trim_start_matches c (reverse s))

-- `split_once(c)`: the text before the first `c` and the text after it.
unfoldable pub split_once : ℕ → Text → Option (Text × Text)
split_once c [] = none
split_once c (x ∷ xs) =
    if x == c then some ([], xs) else Option.map (λ p. (x ∷ p.0, p.1)) (split_once c xs)

-- `rsplit_once(c)`: the text before the last `c` and the text after it.
unfoldable pub rsplit_once : ℕ → Text → Option (Text × Text)
unfolding split_once
rsplit_once c s = Option.map (λ p. (reverse p.1, reverse p.0)) (split_once c (reverse s))

pub split_head : ℕ → Text → Text × List Text
split_head c [] = ([], [])
split_head c (x ∷ xs) =
    let (cur, rest) = split_head c xs in if x == c then ([], cur ∷ rest) else (x ∷ cur, rest)

-- `split(c)`: the parts between the separators, one more than there are separators.
unfoldable pub split : ℕ → Text → List Text
unfolding split_head
split c s = let (cur, rest) = split_head c s in cur ∷ rest

-- `u8::to_ascii_lowercase`.
abbrev pub lower : ℕ → ℕ
lower c = if leb 65 c && leb c 90 then c + 32 else c

abbrev pub to_ascii_lowercase : Text → Text
to_ascii_lowercase = map lower

unfoldable pub eq_ignore_ascii_case : Text → Text → Bool
unfolding text_beq
eq_ignore_ascii_case a b = text_beq (to_ascii_lowercase a) (to_ascii_lowercase b)

-- ASCII white space at both ends; the wider white space of Unicode is kept.
abbrev pub is_space : ℕ → Bool
is_space c = c == 32 || (leb 9 c && leb c 13)

unfoldable pub trim_start : Text → Text
trim_start [] = []
trim_start (x ∷ xs) = if is_space x then trim_start xs else x ∷ xs

unfoldable pub trim : Text → Text
unfolding trim_start
trim s = reverse (trim_start (reverse (trim_start s)))

-- `chars().count()`: the bytes that do not continue a character.
unfoldable pub char_count : Text → ℕ
char_count [] = 0
char_count (x ∷ xs) = if leb 128 x && leb x 191 then char_count xs else char_count xs + 1
