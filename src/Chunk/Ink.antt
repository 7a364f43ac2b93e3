-- ===== src/Chunk/Ink.antt =====
-- The characters of a text that are no white space, and that the cuts of chunk.rs keep them:
-- trimming, lines, paragraphs and sentences.
use agmem.Prelude.{
  ℕ, ◌≡◌, refl, sym, ap, ap₂, ◌∙◌, true, not, ◌&&◌, Option, none, some, List, [], ◌∷◌, ◌++◌, arith,
  ◌==◌, if◌then◌else◌, keep_if, append-nil, append_assoc, Bool-cases, inl, inr,
}
use agmem.Model.{Text}
use agmem.Words.{is_white, is_blank}
use agmem.Chunk.{
  trim_start, trim_end, trim, lines_from, paragraphs_from, paragraphs, sentences_from,
  keep_sentence, is_empty, ends_sentence, white_next,
}

-- The characters that are no white space.
unfoldable pub ink : Text → Text
ink [] = []
ink (c ∷ cs) = if is_white c then ink cs else c ∷ ink cs

-- The ink of all pieces, in order.
unfoldable pub inks : List Text → Text
inks [] = []
inks (t ∷ ts) = ink t ++ inks ts

pub ink-append : (xs ys : Text) → ink (xs ++ ys) ≡ ink xs ++ ink ys
unfolding ink
ink-append [] ys = refl
ink-append (x ∷ xs) ys = ground (arith, ink-append xs ys)

pub inks-append : (xs ys : List Text) → inks (xs ++ ys) ≡ inks xs ++ inks ys
unfolding inks
inks-append [] ys = refl
inks-append (x ∷ xs) ys = rw (inks-append xs ys) (sym (append_assoc (ink x) (inks xs) (inks ys)))

pub ink-trim_start : (t : Text) → ink (trim_start t) ≡ ink t
unfolding ink trim_start
ink-trim_start [] = refl
ink-trim_start (c ∷ cs) = ground (arith, ink-trim_start cs)

pub ink_empty : (t : Text) → is_empty t ≡ true → ink t ≡ []
unfolding ink
ink_empty [] h = refl
ink_empty (c ∷ cs) h = absurd (ground arith)

pub ink-trim_end : (t : Text) → ink (trim_end t) ≡ ink t
unfolding ink trim_end
ink-trim_end [] = refl
ink-trim_end (c ∷ cs) = ground (arith, ink-trim_end cs, ink_empty (trim_end cs))

pub ink-trim : (t : Text) → ink (trim t) ≡ ink t
ink-trim t = ink-trim_end (trim_start t) ∙ ink-trim_start t

pub ink_blank : (t : Text) → is_blank t ≡ true → ink t ≡ []
unfolding ink
ink_blank [] h = refl
ink_blank (c ∷ cs) h = ground (arith, h, ink_blank cs)

pub ink-snoc : (t : Text) (c : ℕ) (cs : Text) → ink ((t ++ c ∷ []) ++ cs) ≡ ink (t ++ c ∷ cs)
ink-snoc t c cs = ap ink (append_assoc t (c ∷ []) cs)

pub inks-lines : (current t : Text) → inks (lines_from current t) ≡ ink (current ++ t)
unfolding inks lines_from
inks-lines current [] = elim (Bool-cases (is_empty current)) [
  | inl e ↦ rw e (sym (ink_empty current e) ∙ sym (ap ink (append-nil current)))
  | inr e ↦ rw e (append-nil (ink current) ∙ sym (ap ink (append-nil current)))
]
inks-lines current (c ∷ cs) = elim (Bool-cases (c == 10)) [
  | inl e ↦ rw e (
      ap (◌++◌ (ink (current ++ c ∷ []))) (inks-lines [] cs)
      ∙ sym (ink-append (current ++ c ∷ []) cs)
      ∙ ink-snoc current c cs)
  | inr e ↦ rw e (inks-lines (current ++ c ∷ []) cs ∙ ink-snoc current c cs)
]

-- The text of the paragraph that has begun.
abbrev begun_text : Option Text → Text
begun_text none = []
begun_text (some begun) = begun

pub inks-paragraphs_from :
    (begun : Option Text) (lines : List Text)
    → inks (paragraphs_from begun lines) ≡ ink (begun_text begun) ++ inks lines
unfolding inks paragraphs_from ink
inks-paragraphs_from none [] = refl
inks-paragraphs_from (some begun) [] = ap (λ t. t ++ []) (ink-trim begun)
inks-paragraphs_from none (line ∷ lines) = elim (Bool-cases (is_blank line)) [
  | inl e ↦ rw (e, ink_blank line e) (inks-paragraphs_from none lines)
  | inr e ↦ rw e (inks-paragraphs_from (some line) lines)
]
inks-paragraphs_from (some begun) (line ∷ lines) = elim (Bool-cases (is_blank line)) [
  | inl e ↦
      rw (e, ink_blank line e)
        (ap₂ (λ a b. a ++ b) (ink-trim begun) (inks-paragraphs_from none lines))
  | inr e ↦ rw e (
      inks-paragraphs_from (some (begun ++ line)) lines
      ∙ ap (λ t. t ++ inks lines) (ink-append begun line)
      ∙ append_assoc (ink begun) (ink line) (inks lines))
]

pub inks-keep_nonempty : (ts : List Text) → inks (keep_if (λ t. not (is_empty t)) ts) ≡ inks ts
unfolding inks
inks-keep_nonempty [] = refl
inks-keep_nonempty (t ∷ ts) = elim (Bool-cases (is_empty t)) [
  | inl e ↦ rw (e, ink_empty t e) (inks-keep_nonempty ts)
  | inr e ↦ rw e (ap (◌++◌ (ink t)) (inks-keep_nonempty ts))
]

pub inks-paragraphs : (t : Text) → inks (paragraphs t) ≡ ink t
unfolding paragraphs ink
inks-paragraphs t =
    inks-keep_nonempty _ ∙ inks-paragraphs_from none (lines_from [] t) ∙ inks-lines [] t

pub inks-keep_sentence :
    (t : Text) (rest : List Text) → inks (keep_sentence t rest) ≡ ink t ++ inks rest
unfolding inks
inks-keep_sentence t rest = elim (Bool-cases (is_empty t)) [
  | inl e ↦ rw (e, ink_empty t e) refl
  | inr e ↦ rw e refl
]

pub inks-sentences_from : (current t : Text) → inks (sentences_from current t) ≡ ink (current ++ t)
unfolding sentences_from
inks-sentences_from current [] =
    inks-keep_sentence (trim current) []
    ∙ unfold inks in append-nil _ ∙ ink-trim current ∙ sym (ap ink (append-nil current))
inks-sentences_from current (c ∷ cs) = elim (Bool-cases (ends_sentence c && white_next cs)) [
  | inl e ↦ rw e (
      inks-keep_sentence (trim (current ++ c ∷ [])) (sentences_from [] cs)
      ∙ ap₂ (λ a b. a ++ b) (ink-trim (current ++ c ∷ [])) (inks-sentences_from [] cs)
      ∙ sym (ink-append (current ++ c ∷ []) cs)
      ∙ ink-snoc current c cs)
  | inr e ↦ rw e (inks-sentences_from (current ++ c ∷ []) cs ∙ ink-snoc current c cs)
]
