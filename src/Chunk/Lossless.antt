-- ===== src/Chunk/Lossless.antt =====
-- The chunks of chunk.rs hold every character of the text that is no white space, in order.
use agmem.Prelude.{
  ℕ, ◌+◌, ◌≡◌, refl, sym, ap, ap₂, ◌∙◌, true, ◌&&◌, Option, none, some, List, [], ◌∷◌, ◌++◌, ltb,
  leb, length, All, append-nil, append_assoc, Bool-cases, inl, inr,
}
use agmem.Model.{Text}
use agmem.Words.{is_white}
use agmem.Chunk.Ink.{
  ink, inks, ink-append, inks-append, ink_empty, ink-snoc, inks-paragraphs, inks-sentences_from,
}
use agmem.Chunk.{
  paragraphs, sentences_from, sentences, words_from, wrap_from, wrap_words, fit_sentences, units_of,
  units, pack, chunk, is_empty, target_chars,
}

-- The ink of the words alone.
word_inks : List (Text × Text) → Text
word_inks [] = []
word_inks ((gap, word) ∷ rest) = ink word ++ word_inks rest

-- The word that has begun.
abbrev begun_word : Option Text → Text
begun_word none = []
begun_word (some word) = word

ink_skip : (c : ℕ) (cs : Text) → is_white c ≡ true → ink (c ∷ cs) ≡ ink cs
unfolding ink
ink_skip c cs e = rw e refl

ink_space : (t : Text) → ink (32 ∷ t) ≡ ink t
unfolding ink is_white
ink_space t = refl

words_from-inks :
    (gap : Text) (begun : Option Text) (t : Text)
    → word_inks (words_from gap begun t) ≡ ink (begun_word begun ++ t)
unfolding word_inks words_from
words_from-inks gap none [] = unfold ink in refl
words_from-inks gap (some word) [] = append-nil (ink word) ∙ sym (ap ink (append-nil word))
words_from-inks gap none (c ∷ cs) = elim (Bool-cases (is_white c)) [
  | inl e ↦ rw e (words_from-inks (gap ++ c ∷ []) none cs ∙ sym (ink_skip c cs e))
  | inr e ↦ rw e (words_from-inks gap (some (c ∷ [])) cs)
]
words_from-inks gap (some word) (c ∷ cs) = elim (Bool-cases (is_white c)) [
  | inl e ↦ rw e (
      ap (◌++◌ (ink word)) (words_from-inks (c ∷ []) none cs ∙ sym (ink_skip c cs e))
      ∙ sym (ink-append word (c ∷ cs)))
  | inr e ↦ rw e (words_from-inks gap (some (word ++ c ∷ [])) cs ∙ ink-snoc word c cs)
]

-- Every gap is white.
abbrev WhiteGaps : List (Text × Text) → Type 0
WhiteGaps = All (λ w. ink w.0 ≡ [])

ink_white : (gap : Text) (c : ℕ) → ink gap ≡ [] → is_white c ≡ true → ink (gap ++ c ∷ []) ≡ []
ink_white gap c h e = ink-append gap (c ∷ []) ∙ unfold ink in rw (h, e) refl

words_from-WhiteGaps :
    (gap : Text) (begun : Option Text) (t : Text)
    → ink gap ≡ []
    → WhiteGaps (words_from gap begun t)
unfolding words_from
words_from-WhiteGaps gap none [] h = tt
words_from-WhiteGaps gap (some word) [] h = (h, tt)
words_from-WhiteGaps gap none (c ∷ cs) h = elim (Bool-cases (is_white c)) [
  | inl e ↦ rw e (words_from-WhiteGaps (gap ++ c ∷ []) none cs (ink_white gap c h e))
  | inr e ↦ rw e (words_from-WhiteGaps gap (some (c ∷ [])) cs h)
]
words_from-WhiteGaps gap (some word) (c ∷ cs) h = elim (Bool-cases (is_white c)) [
  | inl e ↦ rw e (h, words_from-WhiteGaps (c ∷ []) none cs (unfold ink in rw e refl))
  | inr e ↦ rw e (words_from-WhiteGaps gap (some (word ++ c ∷ [])) cs h)
]

-- The piece that has begun.
abbrev begun_piece : Option (Text × ℕ) → Text
begun_piece none = []
begun_piece (some (piece, taken)) = piece

inks-wrap_from :
    (begun : Option (Text × ℕ)) (ws : List (Text × Text))
    → WhiteGaps ws
    → inks (wrap_from begun ws) ≡ ink (begun_piece begun) ++ word_inks ws
unfolding inks wrap_from word_inks
inks-wrap_from none [] h = unfold ink in refl
inks-wrap_from (some (piece, taken)) [] h = refl
inks-wrap_from none ((gap, word) ∷ ws) h =
    inks-wrap_from (some (word, length word)) ws h.1 ∙ unfold ink in refl
inks-wrap_from (some (piece, taken)) ((gap, word) ∷ ws) h =
    elim (Bool-cases (ltb target_chars (taken + length gap + length word))) [
      | inl e ↦ rw e (ap (◌++◌ (ink piece)) (inks-wrap_from (some (word, length word)) ws h.1))
      | inr e ↦ rw e (
          inks-wrap_from (some (piece ++ (gap ++ word), taken + (length gap + length word))) ws h.1
          ∙ ap (λ t. t ++ word_inks ws)
              (ink-append piece (gap ++ word)
                ∙ ap (◌++◌ (ink piece)) (ink-append gap word ∙ ap (λ t. t ++ ink word) h.0))
          ∙ append_assoc (ink piece) (ink word) (word_inks ws))
    ]

inks-wrap_words : (t : Text) → inks (wrap_words t) ≡ ink t
unfolding wrap_words
inks-wrap_words t =
    inks-wrap_from none _ (words_from-WhiteGaps [] none t (unfold ink in refl))
    ∙ unfold ink in words_from-inks [] none t

inks-fit_sentences : (ts : List Text) → inks (fit_sentences ts) ≡ inks ts
unfolding inks fit_sentences
inks-fit_sentences [] = refl
inks-fit_sentences (t ∷ ts) = elim (Bool-cases (leb (length t) target_chars)) [
  | inl e ↦ rw e (ap (◌++◌ (ink t)) (inks-fit_sentences ts))
  | inr e ↦ rw e (
      inks-append (wrap_words t) (fit_sentences ts)
      ∙ ap₂ (λ a b. a ++ b) (inks-wrap_words t) (inks-fit_sentences ts))
]

inks-units_of : (ts : List Text) → inks (units_of ts) ≡ inks ts
unfolding inks units_of sentences
inks-units_of [] = refl
inks-units_of (t ∷ ts) = elim (Bool-cases (leb (length t) target_chars)) [
  | inl e ↦ rw e (ap (◌++◌ (ink t)) (inks-units_of ts))
  | inr e ↦ rw e (
      inks-append (fit_sentences (sentences_from [] t)) (units_of ts)
      ∙ ap₂ (λ a b. a ++ b) (inks-fit_sentences _ ∙ inks-sentences_from [] t) (inks-units_of ts))
]

inks-pack :
    (current : Text) (taken : ℕ) (ts : List Text)
    → inks (pack current taken ts) ≡ ink current ++ inks ts
unfolding inks pack
inks-pack current taken [] = elim (Bool-cases (is_empty current)) [
  | inl e ↦ rw (e, ink_empty current e) refl
  | inr e ↦ rw e refl
]
inks-pack current taken (t ∷ ts) =
    elim (Bool-cases (ltb 0 taken && ltb target_chars (taken + 1 + length t))) [
      | inl e ↦ rw e (ap (◌++◌ (ink current)) (inks-pack t (length t) ts))
      | inr e ↦ elim (Bool-cases (ltb 0 taken)) [
        | inl e' ↦
            rw (e, e')
              (inks-pack (current ++ (32 ∷ t)) _ ts
                ∙ ap (λ x. x ++ inks ts)
                    (ink-append current (32 ∷ t) ∙ ap (◌++◌ (ink current)) (ink_space t))
                ∙ append_assoc (ink current) (ink t) (inks ts))
        | inr e' ↦
            rw (e, e')
              (inks-pack (current ++ t) _ ts
                ∙ ap (λ x. x ++ inks ts) (ink-append current t)
                ∙ append_assoc (ink current) (ink t) (inks ts))
      ]
    ]

-- The chunks, in their order, hold exactly the characters of the text that are no white space, in
-- theirs.
pub chunk_lossless : (t : Text) → inks (chunk t) ≡ ink t
unfolding chunk units
chunk_lossless t =
    inks-pack [] 0 (units_of (paragraphs t)) ∙ unfold ink in (inks-units_of _ ∙ inks-paragraphs t)
