-- ===== src/Prelude/Chars/Words.antt =====
-- What the words between white space hold.
use odp_rust.Prelude.{
  ◌≡◌, refl, ap, ◌∙◌, ◌≢◌, false, List, [], ◌∷◌, ◌++◌, All, Bool-cases, inl, inr, if◌then◌else◌,
}
use odp_rust.Prelude.Text.{Text}
use odp_rust.Prelude.Chars.{is_whitespace, split_at_whitespace, nonempty, split_whitespace, prepend}

module _ (P : Text → Type 0) where
  -- A word: characters of which none is white space.
  abbrev pub IsLetter : Text → Type 0
  IsLetter c = P c × (is_whitespace c ≡ false)

  abbrev pub IsWord : List Text → Type 0
  IsWord word = (word ≢ []) × All IsLetter word

  prepend-All :
      (c : Text) (words : List (List Text))
      → IsLetter c
      → All (All IsLetter) words
      → All (All IsLetter) (prepend c words)
  prepend-All c [] h hs = ((h, tt), tt)
  prepend-All c (word ∷ words) h (k, hs) = ((h, k), hs)

  split_at_whitespace-All :
      (cs : List Text) → All P cs → All (All IsLetter) (split_at_whitespace cs)
  unfolding split_at_whitespace
  split_at_whitespace-All [] h = (tt, tt)
  split_at_whitespace-All (c ∷ cs) (p, h) =
      let rest = split_at_whitespace-All cs h in
      elim (Bool-cases (is_whitespace c)) [
        | inl space ↦ rw (split_at_whitespace, space) (tt, rest)
        | inr letter ↦
            rw (split_at_whitespace, letter)
              (prepend-All c (split_at_whitespace cs) (p, letter) rest)
      ]

  nonempty-All : (words : List (List Text)) → All (All IsLetter) words → All IsWord (nonempty words)
  unfolding nonempty
  nonempty-All [] h = tt
  nonempty-All ([] ∷ words) (k, h) = nonempty-All words h
  nonempty-All ((c ∷ cs) ∷ words) (k, h) = ((λ e. cc, k), nonempty-All words h)

  pub split_whitespace-All : (cs : List Text) → All P cs → All IsWord (split_whitespace cs)
  unfolding split_whitespace
  split_whitespace-All cs h = nonempty-All (split_at_whitespace cs) (split_at_whitespace-All cs h)

-- The characters of the words, one after another.
unfoldable pub joined : List (List Text) → List Text
joined [] = []
joined (word ∷ words) = word ++ joined words

unfoldable pub without_spaces : List Text → List Text
without_spaces [] = []
without_spaces (c ∷ cs) = let rest = without_spaces cs in if is_whitespace c then rest else c ∷ rest

joined-prepend : (c : Text) (words : List (List Text)) → joined (prepend c words) ≡ c ∷ joined words
unfolding joined
joined-prepend c [] = refl
joined-prepend c (word ∷ words) = refl

joined-nonempty : (words : List (List Text)) → joined (nonempty words) ≡ joined words
unfolding joined nonempty
joined-nonempty [] = refl
joined-nonempty ([] ∷ words) = joined-nonempty words
joined-nonempty ((c ∷ cs) ∷ words) = ap (λ t. (c ∷ cs) ++ t) (joined-nonempty words)

joined-split_at_whitespace : (cs : List Text) → joined (split_at_whitespace cs) ≡ without_spaces cs
unfolding joined split_at_whitespace without_spaces
joined-split_at_whitespace [] = refl
joined-split_at_whitespace (c ∷ cs) =
    let rest = joined-split_at_whitespace cs in
    elim (Bool-cases (is_whitespace c)) [
      | inl space ↦ rw (split_at_whitespace, without_spaces, space) rest
      | inr letter ↦
          rw (split_at_whitespace, without_spaces, letter)
            (joined-prepend c (split_at_whitespace cs) ∙ ap (λ t. c ∷ t) rest)
    ]

pub joined-split_whitespace : (cs : List Text) → joined (split_whitespace cs) ≡ without_spaces cs
unfolding split_whitespace
joined-split_whitespace cs =
    joined-nonempty (split_at_whitespace cs) ∙ joined-split_at_whitespace cs
