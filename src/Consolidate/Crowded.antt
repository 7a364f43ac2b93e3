-- ===== src/Consolidate/Crowded.antt =====
-- Which tags `over_full_tags` of tools/consolidate.rs lists, and with which lessons.
use agmem.Prelude.{
  ◌≡◌, refl, sym, ap, subst, ◌∙◌, String, Bool, true, false, ◌||◌, ◌&&◌, List, [], ◌∷◌, ◌++◌,
  append-nil, append_assoc, length, any, ltb, arith, All, All-map, str_eq, eq_iff, Bool-cases, inl,
  inr, if◌then◌else◌,
}
use agmem.Model.{SpaceName, MemoryRecord}
use agmem.Sort.{any-sort_by, All-sort_by}
use agmem.Context.Session.{lessons_per_tag}
use agmem.Consolidate.Tags.{
  OverFullTag, file, file_tags, file_all, over_full, too_many, by_fullest, over_full_tags,
}

counted : (a p q r : Bool) → (a ≡ true → q ≡ true) → r ≡ (p && q) → (a || r) ≡ ((a || p) && q)
counted true p q r h e = sym (h refl)
counted false p q r h e = e

passed : (a p q r : Bool) → (a ≡ true → q ≡ false) → r ≡ (p && q) → r ≡ ((a || p) && q)
passed true p q r h e = let no = h refl in ground (arith, no, e)
passed false p q r h e = e

module _ {F Time : Type 0} where
  -- A lesson as often as it names the tag, and the lessons that name it, in order.
  abbrev pub occurs : String → MemoryRecord F Time → List String → List (MemoryRecord F Time)
  occurs tag lesson [] = []
  occurs tag lesson (t ∷ tags) =
      let rest = occurs tag lesson tags in if str_eq t tag then lesson ∷ rest else rest

  abbrev pub bearers : String → List (MemoryRecord F Time) → List (MemoryRecord F Time)
  bearers tag [] = []
  bearers tag (lesson ∷ lessons) = occurs tag lesson lesson.tags ++ bearers tag lessons

  abbrev has : List (String × List (MemoryRecord F Time)) → String → Bool
  has table tag = any (λ (e : String × List (MemoryRecord F Time)). str_eq e.0 tag) table

  abbrev Apart : List (String × List (MemoryRecord F Time)) → Type 0
  Apart [] = Unit
  Apart ((t, members) ∷ table) = (has table t ≡ false) × Apart table

  abbrev Holds :
      (String → List (MemoryRecord F Time)) → String × List (MemoryRecord F Time) → Type 0
  Holds g (t, members) = members ≡ g t

  -- The table lists each tag once, with what `g` tells of it.
  record Filed (g : String → List (MemoryRecord F Time))
      (table : List (String × List (MemoryRecord F Time))) : Type 0 where
    apart : Apart table
    exact : All (Holds g) table
    full : (t : String) → has table t ≡ false → g t ≡ []

  Filed-ext :
      (g h : String → List (MemoryRecord F Time))
      (table : List (String × List (MemoryRecord F Time)))
      → ((t : String) → g t ≡ h t)
      → Filed g table
      → Filed h table
  Filed-ext g h table same f = record {
    apart = f.apart;
    exact = All-map (Holds g) (Holds h) table (λ e k. k ∙ same e.0) f.exact;
    full = λ t out. sym (same t) ∙ f.full t out;
  }

  module _ (g : String → List (MemoryRecord F Time)) (lesson : MemoryRecord F Time)
      (tag : String) where
    abbrev with_lesson : String → List (MemoryRecord F Time)
    with_lesson t = g t ++ occurs t lesson (tag ∷ [])

    has-file :
        (table : List (String × List (MemoryRecord F Time))) (t : String)
        → has (file table lesson tag) t ≡ (has table t || str_eq tag t)
    unfolding file
    has-file [] t = ground arith
    has-file ((k, members) ∷ table) t = elim (Bool-cases (str_eq k tag)) [
      | inl e ↦
          let same : k ≡ tag = (eq_iff k tag).0 e in
          rw e (
            subst (λ n. (str_eq n t || has table t) ≡ ((str_eq n t || has table t) || str_eq tag t))
              (sym same) (ground arith))
      | inr e ↦ rw e (ground (arith, has-file table t))
    ]

    file-Apart :
        (table : List (String × List (MemoryRecord F Time)))
        → Apart table
        → Apart (file table lesson tag)
    unfolding file
    file-Apart [] h = (refl, tt)
    file-Apart ((k, members) ∷ table) h = elim (Bool-cases (str_eq k tag)) [
      | inl e ↦ rw e h
      | inr e ↦ rw e (
        has-file table k ∙ ground (arith, h.0, e, eq_iff k tag, eq_iff tag k),
        file-Apart table h.1,
      )
    ]

    kept_tag : (t : String) → str_eq tag t ≡ false → with_lesson t ≡ g t
    kept_tag t h = rw h (append-nil (g t))

    own_tag : (t : String) → str_eq tag t ≡ true → with_lesson t ≡ g t ++ lesson ∷ []
    own_tag t h = rw h refl

    others-Holds :
        (table : List (String × List (MemoryRecord F Time)))
        → has table tag ≡ false
        → All (Holds g) table
        → All (Holds with_lesson) table
    others-Holds [] h e = tt
    others-Holds ((k, members) ∷ table) h e = (
      e.0 ∙ sym (kept_tag k (ground (arith, h, eq_iff k tag, eq_iff tag k))),
      others-Holds table (ground (arith, h)) e.1,
    )

    file-Holds :
        (table : List (String × List (MemoryRecord F Time)))
        → Apart table
        → All (Holds g) table
        → (has table tag ≡ false → g tag ≡ [])
        → All (Holds with_lesson) (file table lesson tag)
    unfolding file
    file-Holds [] a e f =
        (sym (own_tag tag ((eq_iff tag tag).1 refl) ∙ ap (λ xs. xs ++ lesson ∷ []) (f refl)), tt)
    file-Holds ((k, members) ∷ table) a e f = elim (Bool-cases (str_eq k tag)) [
      | inl q ↦
          let same : k ≡ tag = (eq_iff k tag).0 q in
          rw q (
            ap (λ xs. xs ++ lesson ∷ []) e.0 ∙ sym (own_tag k ((eq_iff tag k).1 (sym same))),
            others-Holds table (subst (λ t. has table t ≡ false) same a.0) e.1,
          )
      | inr q ↦ rw q (
        e.0 ∙ sym (kept_tag k (ground (arith, q, eq_iff k tag, eq_iff tag k))),
        file-Holds table a.1 e.1 (λ out. f (ground (arith, out, q))),
      )
    ]

    file-Filed :
        (table : List (String × List (MemoryRecord F Time)))
        → Filed g table
        → Filed with_lesson (file table lesson tag)
    file-Filed table f = record {
      apart = file-Apart table f.apart;
      exact = file-Holds table f.apart f.exact (f.full tag);
      full = λ t out.
          let both : (has table t || str_eq tag t) ≡ false = sym (has-file table t) ∙ out in
          kept_tag t (ground (arith, both)) ∙ f.full t (ground (arith, both));
    }

  occurs-cons :
      (t tag : String) (lesson : MemoryRecord F Time) (tags : List String)
      → occurs t lesson (tag ∷ tags) ≡ occurs t lesson (tag ∷ []) ++ occurs t lesson tags
  occurs-cons t tag lesson tags = elim (Bool-cases (str_eq tag t)) [
    | inl e ↦ rw e refl
    | inr e ↦ rw e refl
  ]

  file_tags-Filed :
      (tags : List String) (lesson : MemoryRecord F Time) (g : String → List (MemoryRecord F Time))
      (table : List (String × List (MemoryRecord F Time)))
      → Filed g table
      → Filed (λ t. g t ++ occurs t lesson tags) (file_tags table lesson tags)
  unfolding file_tags
  file_tags-Filed [] lesson g table f = Filed-ext g _ table (λ t. sym (append-nil (g t))) f
  file_tags-Filed (tag ∷ tags) lesson g table f =
      Filed-ext _ (λ t. g t ++ occurs t lesson (tag ∷ tags))
        (file_tags (file table lesson tag) lesson tags)
        (λ t.
          append_assoc (g t) (occurs t lesson (tag ∷ [])) (occurs t lesson tags)
          ∙ ap (λ xs. g t ++ xs) (sym (occurs-cons t tag lesson tags)))
        (file_tags-Filed tags lesson (with_lesson g lesson tag) (file table lesson tag)
          (file-Filed g lesson tag table f))

  file_all-Filed :
      (lessons : List (MemoryRecord F Time)) (g : String → List (MemoryRecord F Time))
      (table : List (String × List (MemoryRecord F Time)))
      → Filed g table
      → Filed (λ t. g t ++ bearers t lessons) (file_all table lessons)
  unfolding file_all
  file_all-Filed [] g table f = Filed-ext g _ table (λ t. sym (append-nil (g t))) f
  file_all-Filed (lesson ∷ lessons) g table f =
      Filed-ext _ (λ t. g t ++ bearers t (lesson ∷ lessons))
        (file_all (file_tags table lesson lesson.tags) lessons)
        (λ t. append_assoc (g t) (occurs t lesson lesson.tags) (bearers t lessons))
        (file_all-Filed lessons (λ t. g t ++ occurs t lesson lesson.tags)
          (file_tags table lesson lesson.tags) (file_tags-Filed lesson.tags lesson g table f))

  module _ (space : SpaceName) (g : String → List (MemoryRecord F Time)) where
    -- An entry that is the one of its tag, which more lessons name than the bound allows.
    abbrev pub IsCrowded : OverFullTag F Time → Type 0
    IsCrowded e =
        (e ≡ over_full space e.tag (g e.tag)) × (ltb lessons_per_tag (length (g e.tag)) ≡ true)

    too_many-IsCrowded :
        (table : List (String × List (MemoryRecord F Time)))
        → All (Holds g) table
        → All IsCrowded (too_many space table)
    unfolding too_many
    too_many-IsCrowded [] h = tt
    too_many-IsCrowded ((t, members) ∷ table) h =
        elim (Bool-cases (ltb lessons_per_tag (length members))) [
          | inl e ↦ rw e (
            (ap (over_full space t) h.0, sym (ap (λ xs. ltb lessons_per_tag (length xs)) h.0) ∙ e),
            too_many-IsCrowded table h.1,
          )
          | inr e ↦ rw e (too_many-IsCrowded table h.1)
        ]

    too_many-any :
        (table : List (String × List (MemoryRecord F Time))) (t : String)
        → All (Holds g) table
        → any (λ (e : OverFullTag F Time). str_eq e.tag t) (too_many space table)
          ≡ (has table t && ltb lessons_per_tag (length (g t)))
    unfolding too_many
    too_many-any [] t h = refl
    too_many-any ((k, members) ∷ table) t h =
        let crowd = λ (xs : List (MemoryRecord F Time)). ltb lessons_per_tag (length xs) in
        let rest = too_many-any table t h.1 in
        let as_here : str_eq k t ≡ true → crowd (g t) ≡ crowd members =
          λ q. ap crowd (ap g (sym ((eq_iff k t).0 q)) ∙ sym h.0) in
        elim (Bool-cases (crowd members)) [
          | inl e ↦
              rw e (counted (str_eq k t) (has table t) (crowd (g t)) _ (λ q. as_here q ∙ e) rest)
          | inr e ↦
              rw e (passed (str_eq k t) (has table t) (crowd (g t)) _ (λ q. as_here q ∙ e) rest)
        ]

  -- The tags listed are those that more lessons name than the bound allows, a lesson as often as it
  -- names them: each entry is that of its tag, with the number of these lessons and the first of them
  -- in their order, and every such tag has an entry.
  pub over_full_tags_exact :
      (space : SpaceName) (lessons : List (MemoryRecord F Time))
      → All (IsCrowded space (λ t. bearers t lessons)) (over_full_tags space lessons)
        × ((t : String)
            → any (λ (e : OverFullTag F Time). str_eq e.tag t) (over_full_tags space lessons)
              ≡ ltb lessons_per_tag (length (bearers t lessons)))
  unfolding over_full_tags
  over_full_tags_exact space lessons =
      let g = λ (t : String). bearers t lessons in
      let table = file_all {F = F} {Time = Time} [] lessons in
      let filed : Filed g table =
        file_all-Filed lessons (λ t. []) []
          (record { apart = tt; exact = tt; full = λ t out. refl }) in
      (
        All-sort_by by_fullest _ _ (too_many-IsCrowded space g table filed.exact),
        λ t.
            any-sort_by by_fullest (λ e. str_eq e.tag t) (too_many space table)
            ∙ too_many-any space g table t filed.exact
            ∙ elim (Bool-cases (has table t)) [
              | inl e ↦ rw e refl
              | inr e ↦ rw (e, filed.full t e) refl
            ],
      )
