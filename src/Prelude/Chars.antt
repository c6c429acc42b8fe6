-- ===== src/Prelude/Chars.antt =====
-- The characters of a `str`, each as its UTF-8 bytes.
pub mod Words
use mathlib.Core.List.{append_assoc}
use odp_rust.Prelude.{
  ℕ, Bool, true, false, not, ◌&&◌, ◌||◌, List, [], ◌∷◌, ◌++◌, ◌==◌, nat_eq, leb, ltb, if◌then◌else◌,
  map,
}
use odp_rust.Prelude.Text.{Text, is_empty}

abbrev pub is_continuation : ℕ → Bool
is_continuation b = leb 128 b && ltb b 192

abbrev starts_char : Text → Bool
starts_char [] = true
starts_char (b ∷ s) = not (is_continuation b)

abbrev pub attach : ℕ → List Text → List Text
attach b [] = (b ∷ []) ∷ []
attach b (c ∷ cs) = (b ∷ c) ∷ cs

-- `chars`: a byte below 128 is a character, any other goes with the continuation bytes after it.
unfoldable pub chars : Text → List Text
chars [] = []
chars (b ∷ s) =
    let rest = chars s in if ltb b 128 || starts_char s then (b ∷ []) ∷ rest else attach b rest

-- `collect::<String>`
unfoldable pub concat : List Text → Text
concat [] = []
concat (c ∷ cs) = c ++ concat cs

-- `char::is_control`: U+0000 to U+001F and U+007F to U+009F.
unfoldable pub is_control : Text → Bool
is_control (b ∷ []) = ltb b 32 || b == 127
is_control (a ∷ b ∷ []) = a == 194 && (leb 128 b && leb b 159)
is_control _ = false

-- `char::is_whitespace`
unfoldable pub is_whitespace : Text → Bool
is_whitespace (b ∷ []) = (leb 9 b && leb b 13) || b == 32
is_whitespace (a ∷ b ∷ []) = a == 194 && (b == 133 || b == 160)
is_whitespace (a ∷ b ∷ c ∷ []) =
    (a == 225 && (b == 154 && c == 128))
    || ((a == 226
          && (b == 128 && ((leb 128 c && leb c 138) || (c == 168 || (c == 169 || c == 175)))))
        || ((a == 226 && (b == 129 && c == 159)) || (a == 227 && (b == 128 && c == 128))))
is_whitespace _ = false

abbrev pub prepend : Text → List (List Text) → List (List Text)
prepend c [] = (c ∷ []) ∷ []
prepend c (word ∷ words) = (c ∷ word) ∷ words

-- What stands between the white space.
unfoldable pub split_at_whitespace : List Text → List (List Text)
split_at_whitespace [] = [] ∷ []
split_at_whitespace (c ∷ cs) =
    let rest = split_at_whitespace cs in if is_whitespace c then [] ∷ rest else prepend c rest

abbrev pub keep_word : List Text → List (List Text) → List (List Text)
keep_word [] words = words
keep_word (c ∷ cs) words = (c ∷ cs) ∷ words

unfoldable pub nonempty : List (List Text) → List (List Text)
nonempty [] = []
nonempty (word ∷ words) = keep_word word (nonempty words)

-- `split_whitespace`
unfoldable pub split_whitespace : List Text → List (List Text)
split_whitespace cs = nonempty (split_at_whitespace cs)

-- `join(" ")`
unfoldable pub join_words : List (List Text) → List Text
join_words [] = []
join_words (word ∷ []) = word
join_words (word ∷ word' ∷ words) = word ++ ((32 ∷ []) ∷ join_words (word' ∷ words))
