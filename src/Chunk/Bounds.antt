-- ===== src/Chunk/Bounds.antt =====
-- The size of the chunks of chunk.rs.
use agmem.Prelude.{
  ℕ, ◌+◌, ◌≤◌, ◌<◌, ◌≡◌, ◌⊎◌, refl, sym, subst, Bool, false, ◌&&◌, Option, none, some, List, [],
  ◌∷◌, ◌++◌, arith, ltb, leb, length, length-append, any, All, All-append, Bool-cases, inl, inr,
}
use agmem.Model.{Text}
use agmem.Words.{is_white}
use agmem.Chunk.{
  sentences, words_from, wrap_from, wrap_words, fit_sentences, units_of, units, paragraphs, pack,
  chunk, is_empty, target_chars,
}

-- The text is within the budget, or one run of characters without white space.
abbrev pub Fits : Text → Type 0
Fits t = (length t ≤ target_chars) ⊎ (any is_white t ≡ false)

-- Every word is without white space.
abbrev Unbroken : List (Text × Text) → Type 0
Unbroken = All (λ w. any is_white w.1 ≡ false)

unbroken-snoc :
    (word : Text) (c : ℕ)
    → any is_white word ≡ false
    → is_white c ≡ false
    → any is_white (word ++ c ∷ []) ≡ false
unbroken-snoc [] c h e = ground (arith, e)
unbroken-snoc (w ∷ word) c h e = ground (arith, h, unbroken-snoc word c)

-- The word that has begun is without white space.
abbrev begun_unbroken : Option Text → Bool
begun_unbroken none = false
begun_unbroken (some word) = any is_white word

words_from-Unbroken :
    (gap : Text) (begun : Option Text) (t : Text)
    → begun_unbroken begun ≡ false
    → Unbroken (words_from gap begun t)
unfolding words_from
words_from-Unbroken gap none [] h = tt
words_from-Unbroken gap (some word) [] h = (h, tt)
words_from-Unbroken gap none (c ∷ cs) h = elim (Bool-cases (is_white c)) [
  | inl e ↦ rw e (words_from-Unbroken (gap ++ c ∷ []) none cs refl)
  | inr e ↦ rw e (words_from-Unbroken gap (some (c ∷ [])) cs (ground (arith, e)))
]
words_from-Unbroken gap (some word) (c ∷ cs) h = elim (Bool-cases (is_white c)) [
  | inl e ↦ rw e (h, words_from-Unbroken (c ∷ []) none cs refl)
  | inr e ↦ rw e (words_from-Unbroken gap (some (word ++ c ∷ [])) cs (unbroken-snoc word c h e))
]

-- The piece that has begun fits, and its length is known.
abbrev BegunFits : Option (Text × ℕ) → Type 0
BegunFits none = Unit
BegunFits (some (piece, taken)) = Fits piece × (taken ≡ length piece)

wrap_from-Fits :
    (begun : Option (Text × ℕ)) (ws : List (Text × Text))
    → BegunFits begun
    → Unbroken ws
    → All Fits (wrap_from begun ws)
unfolding wrap_from
wrap_from-Fits none [] b u = tt
wrap_from-Fits (some (piece, taken)) [] b u = (b.0, tt)
wrap_from-Fits none ((gap, word) ∷ ws) b u =
    wrap_from-Fits (some (word, length word)) ws (inr u.0, refl) u.1
wrap_from-Fits (some (piece, taken)) ((gap, word) ∷ ws) b u =
    elim (Bool-cases (ltb target_chars (taken + length gap + length word))) [
      | inl e ↦ rw e (b.0, wrap_from-Fits (some (word, length word)) ws (inr u.0, refl) u.1)
      | inr e ↦
          let size : taken + (length gap + length word) ≡ length (piece ++ (gap ++ word)) =
            omega (arith, length-append piece (gap ++ word), length-append gap word, b.1) in
          rw e (
            wrap_from-Fits (some (piece ++ (gap ++ word), taken + (length gap + length word))) ws
              (inl (ground (arith, e, size)), size) u.1)
    ]

wrap_words-Fits : (t : Text) → All Fits (wrap_words t)
unfolding wrap_words
wrap_words-Fits t = wrap_from-Fits none _ tt (words_from-Unbroken [] none t refl)

fit_sentences-Fits : (ts : List Text) → All Fits (fit_sentences ts)
unfolding fit_sentences
fit_sentences-Fits [] = tt
fit_sentences-Fits (t ∷ ts) = elim (Bool-cases (leb (length t) target_chars)) [
  | inl e ↦ rw e (inl (ground arith), fit_sentences-Fits ts)
  | inr e ↦ rw e (All-append Fits (wrap_words t) _ (wrap_words-Fits t) (fit_sentences-Fits ts))
]

units_of-Fits : (ts : List Text) → All Fits (units_of ts)
unfolding units_of
units_of-Fits [] = tt
units_of-Fits (t ∷ ts) = elim (Bool-cases (leb (length t) target_chars)) [
  | inl e ↦ rw e (inl (ground arith), units_of-Fits ts)
  | inr e ↦ rw e (
      All-append Fits (fit_sentences (sentences t)) _ (fit_sentences-Fits (sentences t))
        (units_of-Fits ts))
]

empty_nil : (t : Text) → 0 ≡ length t → t ≡ []
empty_nil [] h = refl
empty_nil (c ∷ t) h = absurd (omega (arith, h))

-- A chunk holds a character and fits.
abbrev IsChunk : Text → Type 0
IsChunk t = (0 < length t) × Fits t

pack-IsChunk :
    (current : Text) (taken : ℕ) (ts : List Text)
    → taken ≡ length current
    → Fits current
    → All Fits ts
    → All IsChunk (pack current taken ts)
unfolding pack
pack-IsChunk current taken [] m f h = elim (Bool-cases (is_empty current)) [
  | inl e ↦ rw e tt
  | inr e ↦ rw e ((ground (arith, e), f), tt)
]
pack-IsChunk current taken (t ∷ ts) m f h =
    elim (Bool-cases (ltb 0 taken && ltb target_chars (taken + 1 + length t))) [
      | inl e ↦ rw e ((ground (arith, e, m), f), pack-IsChunk t (length t) ts refl h.0 h.1)
      | inr e ↦ elim (Bool-cases (ltb 0 taken)) [
        | inl e' ↦
            let size : taken + 1 + length t ≡ length (current ++ (32 ∷ t)) =
              omega (arith, length-append current (32 ∷ t), m) in
            rw (e, e')
              (pack-IsChunk (current ++ (32 ∷ t)) _ ts size (inl (ground (arith, e, e', size))) h.1)
        | inr e' ↦
            let none_yet : current ≡ [] = empty_nil current (ground (arith, e', m)) in
            rw (e, e')
              (pack-IsChunk (current ++ t) _ ts (omega (arith, length-append current t, m))
                (subst (λ x. Fits (x ++ t)) (sym none_yet) h.0) h.1)
      ]
    ]

-- Each chunk of a text holds a character, and is within the budget of 1500 characters or one run of
-- characters without white space.
pub chunk_bounds :
    (t : Text)
    → All (λ c. (0 < length c) × ((length c ≤ target_chars) ⊎ (any is_white c ≡ false))) (chunk t)
unfolding chunk units
chunk_bounds t = pack-IsChunk [] 0 _ refl (inl (omega arith)) (units_of-Fits (paragraphs t))
