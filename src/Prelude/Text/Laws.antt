-- ===== src/Prelude/Text/Laws.antt =====
-- Laws of the text operations.
use mathlib.Core.List.{reverse, reverse-append, reverse-reverse, reverse-cons, append_assoc}
use mathlib.Core.Option
use odp_rust.Prelude.Tests.{nat_eq, ◌==◌, Bool-cases}
use odp_rust.Prelude.Lists.{All, all}
use Prim.Native.Nat.{ℕ}
use mathlib.Core.Path.{◌≡◌, refl, ap, ap₂, sym, ◌∙◌}
use mathlib.Core.Logic.{◌≢◌, inl, inr}
use mathlib.Core.Bool.{true, false, not}
use mathlib.Core.Option.{Option, none, some}
use mathlib.Core.List.{[], ◌∷◌, ◌++◌}
use native.Mathlib.Omega.{arith}
use odp_rust.Prelude.Text.{
  Text, strip_prefix, strip_suffix, split_once, rsplit_once, split, split_head,
}

pub strip_prefix-append : (p s : Text) → strip_prefix p (p ++ s) ≡ some s
unfolding strip_prefix
strip_prefix-append [] s = refl
strip_prefix-append (c ∷ p) s = ground (arith, strip_prefix-append p s)

pub strip_suffix-append : (s p : Text) → strip_suffix p (s ++ p) ≡ some s
unfolding strip_suffix
strip_suffix-append s p = simp (reverse-append, strip_prefix-append, reverse-reverse)

-- A text without the byte `c`.
abbrev pub Lacks : ℕ → Text → Type 0
Lacks c = All (λ x. x ≢ c)

-- Where a test of the bytes finds it.
pub Lacks-all : (c : ℕ) (s : Text) → all (λ x. not (x == c)) s ≡ true → Lacks c s
Lacks-all c [] h = tt
Lacks-all c (x ∷ s) h = ((λ e. ground arith), Lacks-all c s (ground arith))

pub split_once-append : (c : ℕ) (a b : Text) → Lacks c a → split_once c (a ++ c ∷ b) ≡ some (a, b)
unfolding split_once
split_once-append c [] b h = ground arith
split_once-append c (x ∷ a) b (p, h) = ground (arith, split_once-append c a b h)

-- The text before the first `c` and the text after it are determined by the whole.
pub split_inj :
    (c : ℕ) (a b a' b' : Text)
    → Lacks c a
    → Lacks c a'
    → a ++ c ∷ b ≡ a' ++ c ∷ b'
    → (a ≡ a') × (b ≡ b')
split_inj c a b a' b' h h' e =
    let p = split_once-append c a b h in
    let p' = split_once-append c a' b' h' in
    let q = sym p ∙ (ap (split_once c) e ∙ p') in (cc q, cc q)

Lacks-append : (c : ℕ) (a b : Text) → Lacks c a → Lacks c b → Lacks c (a ++ b)
Lacks-append c [] b h k = k
Lacks-append c (x ∷ a) b (p, h) k = (p, Lacks-append c a b h k)

pub Lacks-reverse : (c : ℕ) (a : Text) → Lacks c a → Lacks c (reverse a)
Lacks-reverse c [] h = tt
Lacks-reverse c (x ∷ a) (p, h) =
    rw reverse-cons (Lacks-append c (reverse a) (x ∷ []) (Lacks-reverse c a h) (p, tt))

-- The text after the last `c` is determined by the whole.
pub last_inj : (c : ℕ) (a x b y : Text) → Lacks c x → Lacks c y → a ++ c ∷ x ≡ b ++ c ∷ y → x ≡ y
last_inj c a x b y h k e =
    let r = simp (reverse-append, reverse-cons, append_assoc) at (ap reverse e) in
    let p =
      (split_inj c (reverse x) (reverse a) (reverse y) (reverse b) (Lacks-reverse c x h)
        (Lacks-reverse c y k) r).0 in
    sym (reverse-reverse x) ∙ (ap reverse p ∙ reverse-reverse y)

pub strip_prefix_inv : (p s r : Text) → strip_prefix p s ≡ some r → s ≡ p ++ r
unfolding strip_prefix
strip_prefix_inv [] s r h = cc
strip_prefix_inv (c ∷ p) [] r h = cc
strip_prefix_inv (c ∷ p) (x ∷ s) r h = ground (arith, strip_prefix_inv p s r)

strip_suffix_map :
    (o : Option Text) (r : Text)
    → Option.map reverse o ≡ some r
    → (q : Text) × (o ≡ some q) × (reverse q ≡ r)
strip_suffix_map none r h = cc
strip_suffix_map (some q) r h = (q, refl, cc)

pub strip_suffix_inv : (p s r : Text) → strip_suffix p s ≡ some r → s ≡ r ++ p
unfolding strip_suffix
strip_suffix_inv p s r h =
    let (q, found, back) = strip_suffix_map (strip_prefix (reverse p) (reverse s)) r h in
    let e = strip_prefix_inv (reverse p) (reverse s) q found in
    sym (reverse-reverse s)
    ∙ (ap reverse e ∙ (reverse-append (reverse p) q ∙ ap₂ (λ a b. a ++ b) back (reverse-reverse p)))

map-some_inv :
    {A B : Type 0} (f : A → B) (o : Option A) (b : B)
    → Option.map f o ≡ some b
    → (a : A) × (o ≡ some a) × (f a ≡ b)
map-some_inv f none b h = cc
map-some_inv f (some a) b h = (a, refl, cc)

abbrev after_byte : ℕ → Text × Text → Text × Text
after_byte x p = (x ∷ p.0, p.1)

pub split_once_inv :
    (c : ℕ) (s : Text) (p : Text × Text) → split_once c s ≡ some p → s ≡ p.0 ++ c ∷ p.1
unfolding split_once
split_once_inv c [] p h = cc
split_once_inv c (x ∷ xs) p h = elim (Bool-cases (x == c)) [
  | inl here ↦
      let e : ([], xs) ≡ p = ground arith in
      let e' : x ≡ c = ground arith in ap (λ y. y ∷ xs) e' ∙ ap (λ q. q.0 ++ c ∷ q.1) e
  | inr there ↦
      let h' : Option.map (after_byte x) (split_once c xs) ≡ some p = ground arith in
      let (q, found, e) = map-some_inv (after_byte x) (split_once c xs) p h' in
      ap (λ ys. x ∷ ys) (split_once_inv c xs q found) ∙ ap (λ q. q.0 ++ c ∷ q.1) e
]

abbrev reversed : Text × Text → Text × Text
reversed p = (reverse p.1, reverse p.0)

pub rsplit_once_inv :
    (c : ℕ) (s : Text) (p : Text × Text) → rsplit_once c s ≡ some p → s ≡ p.0 ++ c ∷ p.1
unfolding rsplit_once
rsplit_once_inv c s p h =
    let (q, found, e) = map-some_inv reversed (split_once c (reverse s)) p h in
    let back = ap reverse (split_once_inv c (reverse s) q found) in
    let turned = simp (reverse-append, reverse-cons, append_assoc) at back in
    sym (reverse-reverse s) ∙ (turned ∙ ap (λ q. q.0 ++ c ∷ q.1) e)

split_head-Lacks : (c : ℕ) (s : Text) → Lacks c s → split_head c s ≡ (s, [])
unfolding split_head
split_head-Lacks c [] h = refl
split_head-Lacks c (x ∷ s) (p, h) =
    let differs : (x == c) ≡ false = ground arith in
    rw (split_head, split_head-Lacks c s h, differs) refl

pub split-Lacks : (c : ℕ) (s : Text) → Lacks c s → split c s ≡ s ∷ []
unfolding split
split-Lacks c s h = rw (split_head-Lacks c s h) refl
