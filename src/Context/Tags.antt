-- ===== src/Context/Tags.antt =====
-- The cap by tag of tools/context.rs, which keeps one tag from filling the Lessons section.
use agmem.Prelude.{
  ℕ, ◌+◌, ◌≤◌, ◌<◌, ◌≡◌, refl, max, String, Bool, true, false, ◌&&◌, List, [], ◌∷◌, ◌++◌, arith,
  leb, ltb, str_eq, eq_iff, length, any, keep_if, All, All-map, Some, Perm, Bool-cases, inl, inr,
}
use mathlib.Core.List.{Sublistᴰ}
use agmem.HashMap.{Counts, count_of, bump, count_of-bump}
use agmem.Model.{MemoryRecord}
use agmem.Context.{bump_all, at_quota, split_by_tag, cap_by_tag}
use mathlib.Core.List.Perm
use mathlib.Core.List.{perm_middle}

-- Counting a record's tags lowers no tally, raises those of its tags and changes no other.
bump_all-grows :
    (counts : Counts) (tags : List String) (tag : String)
    → count_of counts tag ≤ count_of (bump_all counts tags) tag
unfolding bump_all
bump_all-grows counts [] tag = omega arith
bump_all-grows counts (t ∷ tags) tag =
    ground (arith, bump_all-grows (bump counts t) tags tag, count_of-bump counts t tag)

bump_all-raises :
    (counts : Counts) (tags : List String) (tag : String)
    → any (λ t. str_eq t tag) tags ≡ true
    → count_of counts tag < count_of (bump_all counts tags) tag
unfolding bump_all
bump_all-raises counts [] tag h = absurd (ground arith)
bump_all-raises counts (t ∷ tags) tag h = elim (Bool-cases (str_eq t tag)) [
  | inl e ↦ ground (arith, e, bump_all-grows (bump counts t) tags tag, count_of-bump counts t tag)
  | inr e ↦
      ground (arith, e, h, bump_all-raises (bump counts t) tags tag, count_of-bump counts t tag)
]

bump_all-other :
    (counts : Counts) (tags : List String) (tag : String)
    → any (λ t. str_eq t tag) tags ≡ false
    → count_of (bump_all counts tags) tag ≡ count_of counts tag
unfolding bump_all
bump_all-other counts [] tag h = refl
bump_all-other counts (t ∷ tags) tag h =
    ground (arith, h, bump_all-other (bump counts t) tags tag, count_of-bump counts t tag)

-- A tag of the list that is at its quota is found.
any-below :
    (counts : Counts) (cap : ℕ) (tags : List String) (tag : String)
    → any (λ t. ltb 0 (count_of counts t) && leb cap (count_of counts t)) tags ≡ false
    → any (λ t. str_eq t tag) tags ≡ true
    → (ltb 0 (count_of counts tag) && leb cap (count_of counts tag)) ≡ false
any-below counts cap [] tag h k = absurd (ground arith)
any-below counts cap (t ∷ tags) tag h k = elim (Bool-cases (str_eq t tag)) [
  | inl e ↦ let same : t ≡ tag = ground (arith, eq_iff t tag) in rw (← same) (ground (arith, h))
  | inr e ↦ any-below counts cap tags tag (ground (arith, h)) (ground (arith, k, e))
]

-- How often a list names a tag.
abbrev pub named : String → List String → ℕ
named tag tags = length (keep_if (λ t. str_eq t tag) tags)

count_of-bump_all :
    (counts : Counts) (tags : List String) (tag : String)
    → count_of (bump_all counts tags) tag ≡ count_of counts tag + named tag tags
unfolding bump_all
count_of-bump_all counts [] tag = omega arith
count_of-bump_all counts (t ∷ tags) tag =
    ground (arith, count_of-bump_all (bump counts t) tags tag, count_of-bump counts t tag)

-- A tag that is at its quota, out of the list.
any-full :
    (counts : Counts) (cap : ℕ) (tags : List String)
    → any (λ t. ltb 0 (count_of counts t) && leb cap (count_of counts t)) tags ≡ true
    → Some (λ t. cap ≤ count_of counts t) tags
any-full counts cap [] h = absurd (ground arith)
any-full counts cap (t ∷ tags) h = elim (Bool-cases (leb cap (count_of counts t))) [
  | inl e ↦ inl (ground (arith, e))
  | inr e ↦ inr (any-full counts cap tags (ground (arith, h, e)))
]

Some-weaken :
    (cap : ℕ) (f g : String → ℕ) (tags : List String)
    → ((tag : String) → f tag ≤ g tag)
    → Some (λ tag. cap ≤ f tag) tags
    → Some (λ tag. cap ≤ g tag) tags
Some-weaken cap f g [] h k = elim k [ ]
Some-weaken cap f g (t ∷ tags) h (inl k) = inl (omega (arith, k, h t))
Some-weaken cap f g (t ∷ tags) h (inr k) = inr (Some-weaken cap f g tags h k)

module _ {F Time : Type 0} where
  -- The record carries the tag.
  abbrev pub carries : String → MemoryRecord F Time → Bool
  carries tag r = any (λ t. str_eq t tag) r.tags

  abbrev pub carriers : String → List (MemoryRecord F Time) → ℕ
  carriers tag rs = length (keep_if (carries tag) rs)

  -- How often the records name the tag; a record that repeats it counts as often as it does.
  abbrev pub uses : String → List (MemoryRecord F Time) → ℕ
  uses tag [] = 0
  uses tag (r ∷ rs) = named tag r.tags + uses tag rs

  -- Some tag of the record was used as often as the cap allows by the records kept.
  abbrev pub IsCrowded : ℕ → List (MemoryRecord F Time) → MemoryRecord F Time → Type 0
  IsCrowded cap kept r = Some (λ tag. cap ≤ uses tag kept) r.tags

  split_quota :
      (cap : ℕ) (counts : Counts) (rs : List (MemoryRecord F Time)) (tag : String)
      → 0 < cap
      → carriers tag (split_by_tag cap counts rs).0 + count_of counts tag
        ≤ max cap (count_of counts tag)
  unfolding split_by_tag
  split_quota cap counts [] tag h = omega arith
  split_quota cap counts (r ∷ rs) tag h = elim (Bool-cases (at_quota counts cap r)) [
    | inl full ↦ rw full (split_quota cap counts rs tag h)
    | inr free ↦
        let later = split_quota cap (bump_all counts r.tags) rs tag h in
        elim (Bool-cases (carries tag r)) [
          | inl e ↦
              rw (free, e)
                (ground (
                  arith,
                  later,
                  bump_all-raises counts r.tags tag e,
                  any-below counts cap r.tags tag free e,
                  h,
                ))
          | inr e ↦ rw (free, e) (ground (arith, later, bump_all-other counts r.tags tag e))
        ]
  ]

  split-perm :
      (cap : ℕ) (counts : Counts) (rs : List (MemoryRecord F Time))
      → let (kept, deferred) = split_by_tag cap counts rs in Perm (kept ++ deferred) rs
  unfolding split_by_tag
  split-perm cap counts [] = Perm.nil
  split-perm cap counts (r ∷ rs) = elim (Bool-cases (at_quota counts cap r)) [
    | inl full ↦ rw full (Perm.trans (perm_middle _ _) (Perm.cons r (split-perm cap counts rs)))
    | inr free ↦ rw free (Perm.cons r (split-perm cap (bump_all counts r.tags) rs))
  ]

  -- A record is deferred for a tag that the tallies and the records kept bring to the cap.
  abbrev Pressed : ℕ → Counts → List (MemoryRecord F Time) → MemoryRecord F Time → Type 0
  Pressed cap counts kept r = Some (λ tag. cap ≤ count_of counts tag + uses tag kept) r.tags

  split-Pressed :
      (cap : ℕ) (counts : Counts) (rs : List (MemoryRecord F Time))
      → let (kept, deferred) = split_by_tag cap counts rs in All (Pressed cap counts kept) deferred
  unfolding split_by_tag
  split-Pressed cap counts [] = tt
  split-Pressed cap counts (r ∷ rs) = elim (Bool-cases (at_quota counts cap r)) [
    | inl full ↦
        let kept = (split_by_tag cap counts rs).0 in
        rw full (
          Some-weaken cap (count_of counts) (λ tag. count_of counts tag + uses tag kept) r.tags
              (λ tag. omega arith) (any-full counts cap r.tags full),
          split-Pressed cap counts rs,
        )
    | inr free ↦
        let raised = bump_all counts r.tags in
        let (kept, deferred) = split_by_tag cap raised rs in
        rw free (
          All-map (Pressed cap raised kept) (Pressed cap counts (r ∷ kept)) deferred
            (λ d.
              Some-weaken cap (λ tag. count_of raised tag + uses tag kept)
                (λ tag. count_of counts tag + uses tag (r ∷ kept)) d.tags
                (λ tag. omega (arith, count_of-bump_all counts r.tags tag)))
            (split-Pressed cap raised rs))
  ]

  split-Sublist :
      (cap : ℕ) (counts : Counts) (rs : List (MemoryRecord F Time))
      → let (kept, deferred) = split_by_tag cap counts rs in Sublistᴰ kept rs × Sublistᴰ deferred rs
  unfolding split_by_tag
  split-Sublist cap counts [] = (Sublistᴰ.slnil, Sublistᴰ.slnil)
  split-Sublist cap counts (r ∷ rs) = elim (Bool-cases (at_quota counts cap r)) [
    | inl full ↦
        let (k, d) = split-Sublist cap counts rs in
        rw full (Sublistᴰ.cons k, Sublistᴰ.cons-cons refl d)
    | inr free ↦
        let (k, d) = split-Sublist cap (bump_all counts r.tags) rs in
        rw free (Sublistᴰ.cons-cons refl k, Sublistᴰ.cons d)
  ]

  -- With a cap above 0, `cap_by_tag` puts some records before the others, loses, adds and repeats
  -- none, and leaves both groups in the order of its input: of each tag, whichever it is, at most
  -- `cap` of the records in front carry it, and each record behind carries a tag that the records in
  -- front name `cap` times or more, where a record that repeats a tag names it that often.
  pub cap_by_tag_quota :
      (rs : List (MemoryRecord F Time)) (cap : ℕ)
      → 0 < cap
      → (kept : List (MemoryRecord F Time)) × (deferred : List (MemoryRecord F Time)) × (cap_by_tag
            rs cap
          ≡ kept ++ deferred)
        × Perm (kept ++ deferred) rs
        × Sublistᴰ kept rs
        × Sublistᴰ deferred rs
        × ((tag : String) → carriers tag kept ≤ cap)
        × All (IsCrowded cap kept) deferred
  unfolding cap_by_tag count_of
  cap_by_tag_quota rs cap h =
      let (kept, deferred) = split_by_tag cap [] rs in
      let (front, behind) = split-Sublist cap [] rs in
      (
        kept,
        deferred,
        refl,
        split-perm cap [] rs,
        front,
        behind,
        λ tag. omega (arith, split_quota cap [] rs tag h),
        All-map (Pressed cap [] kept) (IsCrowded cap kept) deferred
            (λ d.
              Some-weaken cap (λ tag. count_of [] tag + uses tag kept) (λ tag. uses tag kept) d.tags
                (λ tag. omega arith))
            (split-Pressed cap [] rs),
      )
