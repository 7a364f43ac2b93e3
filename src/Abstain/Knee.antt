-- ===== src/Abstain/Knee.antt =====
-- Where the knee of a page is: `apply` of tools/abstain.rs, its second half.
use agmem.Prelude.{
  ℕ, suc, ◌+◌, ◌-◌, ◌<◌, ◌≤◌, ◌≡◌, refl, ap, subst, true, false, ◌||◌, Option, none, some, List, [],
  ◌∷◌, arith, length, get_elem?, drop, All, All-map, Bool-cases, Option-cases, inl, inr,
}
use agmem.Float.{Float, lt, min_f, le_refl, not_le_trans}
use agmem.Abstain.{envelope_from, gaps, widest_from, knee_of, min_gap, dominance, first_or, last_or}

module _ (fl : Float) where
  open fl use {F, le, sub, mul, infinity, le_total, le_trans}

  length-envelope : (running : F) (rs : List F) → length (envelope_from fl running rs) ≡ length rs
  unfolding envelope_from
  length-envelope running [] = refl
  length-envelope running (r ∷ rs) = ap suc (length-envelope (min_f fl running r) rs)

  length-gaps : (es : List F) → length (gaps fl es) ≡ length es - 1
  unfolding gaps
  length-gaps [] = omega arith
  length-gaps (a ∷ []) = omega arith
  length-gaps (a ∷ (b ∷ es)) = omega (arith, length-gaps (b ∷ es))

  -- What `max_by` finds: the gap at `at`, which no gap exceeds and each later gap falls short of.
  pub record Widest (index : ℕ) (gs : List F) (at : ℕ) (best : F) : Type 0 where
    pub offset : ℕ
    pub place : at ≡ index + offset
    pub stands : get_elem? gs offset ≡ some best
    pub widest : All (λ g. le g best ≡ true) gs
    pub last : All (λ g. le best g ≡ false) (drop (suc offset) gs)

  widest_from-none : (index : ℕ) (gs : List F) → widest_from fl index gs ≡ none → gs ≡ []
  unfolding widest_from
  widest_from-none index [] h = refl
  widest_from-none index (g ∷ gs) h = elim (Option-cases (widest_from fl (suc index) gs)) [
    | inl n ↦ absurd (ground arith)
    | inr ((a, b), n) ↦ elim (Bool-cases (le g b)) [
      | inl e ↦ absurd (ground arith)
      | inr e ↦ absurd (ground arith)
    ]
  ]

  Widest-one : (index : ℕ) (g : F) → Widest index (g ∷ []) index g
  Widest-one index g = record {
    offset = 0;
    place = omega arith;
    stands = refl;
    widest = (le_refl fl g, tt);
    last = tt;
  }

  Widest-later :
      (index : ℕ) (g : F) (gs : List F) (at : ℕ) (best : F)
      → Widest (suc index) gs at best
      → le g best ≡ true
      → Widest index (g ∷ gs) at best
  Widest-later index g gs at best w e = record {
    offset = suc w.offset;
    place = omega (arith, w.place);
    stands = w.stands;
    widest = (e, w.widest);
    last = w.last;
  }

  Widest-here :
      (index : ℕ) (g : F) (gs : List F) (at : ℕ) (best : F)
      → Widest (suc index) gs at best
      → le g best ≡ false
      → Widest index (g ∷ gs) index g
  Widest-here index g gs at best w e = record {
    offset = 0;
    place = omega arith;
    stands = refl;
    widest = (
      le_refl fl g,
      All-map (λ x. le x best ≡ true) (λ x. le x g ≡ true) gs
          (λ x h. le_trans x best g h (le_total g best e)) w.widest,
    );
    last =
        All-map (λ x. le x best ≡ true) (λ x. le g x ≡ false) gs
          (λ x h. not_le_trans fl g x best h e) w.widest;
  }

  widest_from-Widest :
      (index : ℕ) (gs : List F) (at : ℕ) (best : F)
      → widest_from fl index gs ≡ some (at, best)
      → Widest index gs at best
  unfolding widest_from
  widest_from-Widest index [] at best h = cc
  widest_from-Widest index (g ∷ gs) at best h =
      elim (Option-cases (widest_from fl (suc index) gs)) [
        | inl n ↦
            let at_here : index ≡ at = ground arith in
            let best_here : g ≡ best = ground arith in
            rw (widest_from-none (suc index) gs n, ← at_here, ← best_here) (Widest-one index g)
        | inr ((a, b), n) ↦ elim (Bool-cases (le g b)) [
          | inl e ↦
              let at_later : a ≡ at = ground arith in
              let best_later : b ≡ best = ground arith in
              rw (← at_later, ← best_later)
                (Widest-later index g gs a b (widest_from-Widest (suc index) gs a b n) e)
          | inr e ↦
              let at_here : index ≡ at = ground arith in
              let best_here : g ≡ best = ground arith in
              rw (← at_here, ← best_here)
                (Widest-here index g gs a b (widest_from-Widest (suc index) gs a b n) e)
        ]
      ]

  widest_from-total :
      (index : ℕ) (gs : List F) → 0 < length gs → (r : ℕ × F) × (widest_from fl index gs ≡ some r)
  unfolding widest_from
  widest_from-total index [] h = absurd (omega arith)
  widest_from-total index (g ∷ gs) h = elim (Option-cases (widest_from fl (suc index) gs)) [
    | inl n ↦ ((index, g), rw n)
    | inr ((a, b), n) ↦ elim (Bool-cases (le g b)) [
      | inl e ↦ ((a, b), rw n (rw e))
      | inr e ↦ ((index, g), rw n (rw e))
    ]
  ]

  -- On a page of three rows or more the search for a knee does not panic.
  pub knee_of-total :
      (rs : List F) → 2 ≤ length rs → (knee : Option ℕ) × (knee_of fl rs ≡ some knee)
  unfolding knee_of
  knee_of-total rs h =
      let es = envelope_from fl infinity rs in
      let some_gap =
        widest_from-total 0 (gaps fl es)
          (omega (arith, length-gaps es, length-envelope infinity rs)) in
      let spread = sub (first_or fl infinity es) (last_or fl infinity es) in
      let widest = some_gap.0.1 in
      elim (Bool-cases (lt fl widest (min_gap fl) || le (mul widest (dominance fl)) spread)) [
        | inl flat ↦ (none, rw (some_gap.1, knee_of) (rw flat))
        | inr steep ↦ (some some_gap.0.0, rw (some_gap.1, knee_of) (rw steep))
      ]

  -- A knee stands at the last of the widest drops of the envelope; that drop is at least
  -- `min_gap`, and `dominance` times as wide it exceeds the whole spread.
  pub knee_of-Widest :
      (rs : List F) (knee : ℕ)
      → knee_of fl rs ≡ some (some knee)
      → let es = envelope_from fl infinity rs in
        (widest : F) × Widest 0 (gaps fl es) knee widest
        × (le (min_gap fl) widest ≡ true)
        × (lt fl
              (sub (first_or fl infinity es) (last_or fl infinity es))
              (mul widest (dominance fl))
            ≡ true)
  unfolding knee_of
  knee_of-Widest rs knee h =
      let es = envelope_from fl infinity rs in
      let spread = sub (first_or fl infinity es) (last_or fl infinity es) in
      elim (Option-cases (widest_from fl 0 (gaps fl es))) [
        | inl n ↦ absurd (ground arith)
        | inr ((at, widest), n) ↦
            elim (Bool-cases (lt fl widest (min_gap fl) || le (mul widest (dominance fl)) spread)) [
              | inl flat ↦ absurd (ground arith)
              | inr steep ↦
                  let same : at ≡ knee = ground arith in
                  (
                    widest,
                    subst (λ k. Widest 0 (gaps fl es) k widest) same
                        (widest_from-Widest 0 (gaps fl es) at widest n),
                    ground arith,
                    ground arith,
                  )
            ]
      ]
