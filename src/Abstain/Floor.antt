-- ===== src/Abstain/Floor.antt =====
-- The floor of tools/abstain.rs: the best measured row decides for the page.
use agmem.Prelude.{
  ◌≡◌, refl, Bool, true, false, ◌&&◌, Option, none, some, List, [], ◌∷◌, arith, is_some, any,
  Option-cases, inl, inr,
}
use agmem.Float.{Float, lt}
use agmem.Abstain.{best_of, below}

module _ (fl : Float) where
  open fl use {F, le, le_total, le_trans}

  -- Every measured row falls short of the floor.
  abbrev pub all_weak : F → List (Option F) → Bool
  all_weak floor [] = true
  all_weak floor (none ∷ rest) = all_weak floor rest
  all_weak floor (some s ∷ rest) = lt fl s floor && all_weak floor rest

  best_of-none : (sims : List (Option F)) → best_of fl sims ≡ none → any is_some sims ≡ false
  unfolding best_of
  best_of-none [] h = refl
  best_of-none (none ∷ rest) h = best_of-none rest h
  best_of-none (some s ∷ rest) h = absurd (ground arith)

  all_weak-none :
      (floor : F) (sims : List (Option F)) → best_of fl sims ≡ none → all_weak floor sims ≡ true
  unfolding best_of
  all_weak-none floor [] h = refl
  all_weak-none floor (none ∷ rest) h = all_weak-none floor rest h
  all_weak-none floor (some s ∷ rest) h = absurd (ground arith)

  any-some : (sims : List (Option F)) (b : F) → best_of fl sims ≡ some b → any is_some sims ≡ true
  unfolding best_of
  any-some [] b h = cc
  any-some (none ∷ rest) b h = any-some rest b h
  any-some (some s ∷ rest) b h = refl

  best_of-weak :
      (floor : F) (sims : List (Option F)) (b : F)
      → best_of fl sims ≡ some b
      → all_weak floor sims ≡ lt fl b floor
  unfolding best_of
  best_of-weak floor [] b h = cc
  best_of-weak floor (none ∷ rest) b h = best_of-weak floor rest b h
  best_of-weak floor (some s ∷ rest) b h = elim (Option-cases (best_of fl rest)) [
    | inl n ↦ ground (arith, all_weak-none floor rest n)
    | inr (c, n) ↦
        ground
          (arith, best_of-weak floor rest c n, le_trans floor s c, le_trans floor c s, le_total s c)
  ]

  -- The best measured row decides for all of them.
  pub below-best_of :
      (floor : F) (sims : List (Option F))
      → below fl floor (best_of fl sims) ≡ (any is_some sims && all_weak floor sims)
  below-best_of floor sims = elim (Option-cases (best_of fl sims)) [
    | inl n ↦ rw (n, best_of-none sims n)
    | inr (b, n) ↦ rw (n, any-some sims b n, best_of-weak floor sims b n)
  ]
