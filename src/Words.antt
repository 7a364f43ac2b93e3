-- ===== src/Words.antt =====
-- What the program uses of Rust's `str` on verbatim content: `char::is_whitespace`,
-- `split_whitespace`, `trim().is_empty()` and `join`.
mod Chars
pub mod Trim
unfoldable pub use Chars.{chars}
use agmem.Prelude.{ℕ, Bool, true, false, ◌&&◌, ◌||◌, List, [], ◌∷◌, ◌++◌, leb, ◌==◌, any, not}
use agmem.Model.{Text}

-- The code points with the Unicode property `White_Space`.
unfoldable pub is_white : ℕ → Bool
is_white c =
    (leb 9 c && leb c 13)
    || c == 32
    || c == 133
    || c == 160
    || c == 5760
    || (leb 8192 c && leb c 8202)
    || c == 8232
    || c == 8233
    || c == 8239
    || c == 8287
    || c == 12288

-- `text.trim().is_empty()`
abbrev pub is_blank : Text → Bool
is_blank text = not (any (λ c. not (is_white c)) text)

-- A word that is ready, if it has a character.
abbrev pub flush : Text → List Text → List Text
flush [] words = words
flush (c ∷ cs) words = (c ∷ cs) ∷ words

-- `split_whitespace`, with the word that is being read.
unfoldable pub words_from : Text → Text → List Text
words_from current [] = flush current []
words_from current (c ∷ cs) = elim (is_white c) [
  | true ↦ flush current (words_from [] cs)
  | false ↦ words_from (current ++ c ∷ []) cs
]

abbrev pub split_whitespace : Text → List Text
split_whitespace text = words_from [] text

-- `words.join(separator)`
unfoldable pub join : Text → List Text → Text
join separator [] = []
join separator (w ∷ []) = w
join separator (w ∷ (v ∷ ws)) = w ++ separator ++ join separator (v ∷ ws)
