-- ===== src/Chunk.antt =====
-- The cutting of verbatim text: crates/agmem-core/src/chunk.rs. A slice `text[begin..end]` of the
-- code is here the characters read since `begin`.
pub mod Ink
pub mod Lossless
pub mod Bounds
use agmem.Prelude.{
  ℕ, ◌+◌, Bool, true, false, not, ◌&&◌, ◌||◌, Option, none, some, List, [], ◌∷◌, ◌++◌, ltb, leb,
  ◌==◌, if◌then◌else◌, length, keep_if,
}
use agmem.Model.{Text}
use agmem.Words.{is_white, is_blank}

abbrev pub target_chars : ℕ
target_chars = 1500

abbrev pub is_empty : Text → Bool
is_empty text = length text == 0

unfoldable pub trim_start : Text → Text
trim_start [] = []
trim_start (c ∷ cs) = let rest = trim_start cs in if is_white c then rest else c ∷ cs

unfoldable pub trim_end : Text → Text
trim_end [] = []
trim_end (c ∷ cs) = let rest = trim_end cs in if is_white c && is_empty rest then [] else c ∷ rest

-- `str::trim`
abbrev pub trim : Text → Text
trim text = trim_end (trim_start text)

-- `text.split_inclusive('\n')`, with what is read of the line.
unfoldable pub lines_from : Text → Text → List Text
lines_from current [] = if is_empty current then [] else current ∷ []
lines_from current (c ∷ cs) =
    if c == 10 then (current ++ c ∷ []) ∷ lines_from [] cs else lines_from (current ++ c ∷ []) cs

-- The loop over the lines, with the paragraph that has begun.
unfoldable pub paragraphs_from : Option Text → List Text → List Text
paragraphs_from none [] = []
paragraphs_from (some begun) [] = trim begun ∷ []
paragraphs_from none (line ∷ lines) =
    if is_blank line then paragraphs_from none lines else paragraphs_from (some line) lines
paragraphs_from (some begun) (line ∷ lines) =
    if is_blank line
    then trim begun ∷ paragraphs_from none lines
    else paragraphs_from (some (begun ++ line)) lines

unfoldable pub paragraphs : Text → List Text
paragraphs text =
    keep_if (λ paragraph. not (is_empty paragraph)) (paragraphs_from none (lines_from [] text))

-- `.`, `!` or `?`
abbrev pub ends_sentence : ℕ → Bool
ends_sentence c = c == 46 || c == 33 || c == 63

-- `chars.peek()` is a white space.
abbrev pub white_next : Text → Bool
white_next [] = false
white_next (c ∷ cs) = is_white c

-- A sentence is kept where it has a character.
abbrev pub keep_sentence : Text → List Text → List Text
keep_sentence sentence rest = if is_empty sentence then rest else sentence ∷ rest

-- The loop over the characters, with those read since `start`.
unfoldable pub sentences_from : Text → Text → List Text
sentences_from current [] = keep_sentence (trim current) []
sentences_from current (c ∷ cs) =
    if ends_sentence c && white_next cs
    then keep_sentence (trim (current ++ c ∷ [])) (sentences_from [] cs)
    else sentences_from (current ++ c ∷ []) cs

unfoldable pub sentences : Text → List Text
sentences paragraph = sentences_from [] paragraph

-- The words of a text, each with the white space before it: what is read of the gap, and of the word.
unfoldable pub words_from : Text → Option Text → Text → List (Text × Text)
words_from gap none [] = []
words_from gap (some word) [] = (gap, word) ∷ []
words_from gap none (c ∷ cs) =
    if is_white c then words_from (gap ++ c ∷ []) none cs else words_from gap (some (c ∷ [])) cs
words_from gap (some word) (c ∷ cs) =
    if is_white c
    then (gap, word) ∷ words_from (c ∷ []) none cs
    else words_from gap (some (word ++ c ∷ [])) cs

-- The loop over the words, with the piece that has begun and its length `taken`.
unfoldable pub wrap_from : Option (Text × ℕ) → List (Text × Text) → List Text
wrap_from none [] = []
wrap_from (some (piece, taken)) [] = piece ∷ []
wrap_from none ((gap, word) ∷ rest) = wrap_from (some (word, length word)) rest
wrap_from (some (piece, taken)) ((gap, word) ∷ rest) =
    if ltb target_chars (taken + length gap + length word)
    then piece ∷ wrap_from (some (word, length word)) rest
    else wrap_from (some (piece ++ (gap ++ word), taken + (length gap + length word))) rest

unfoldable pub wrap_words : Text → List Text
wrap_words text = wrap_from none (words_from [] none text)

-- The loop over a paragraph's sentences.
unfoldable pub fit_sentences : List Text → List Text
fit_sentences [] = []
fit_sentences (sentence ∷ rest) =
    let others = fit_sentences rest in
    if leb (length sentence) target_chars then sentence ∷ others else wrap_words sentence ++ others

-- The loop over the paragraphs.
unfoldable pub units_of : List Text → List Text
units_of [] = []
units_of (paragraph ∷ rest) =
    let others = units_of rest in
    if leb (length paragraph) target_chars
    then paragraph ∷ others
    else fit_sentences (sentences paragraph) ++ others

unfoldable pub units : Text → List Text
units text = units_of (paragraphs text)

-- The loop over the units, with the chunk that is being filled and its length `taken`.
unfoldable pub pack : Text → ℕ → List Text → List Text
pack current taken [] = if is_empty current then [] else current ∷ []
pack current taken (unit ∷ rest) =
    if ltb 0 taken && ltb target_chars (taken + 1 + length unit)
    then current ∷ pack unit (length unit) rest
    else if ltb 0 taken
    then pack (current ++ (32 ∷ unit)) (taken + 1 + length unit) rest
    else pack (current ++ unit) (taken + length unit) rest

unfoldable pub chunk : Text → List Text
chunk text = pack [] 0 (units text)
