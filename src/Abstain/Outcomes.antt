-- ===== src/Abstain/Outcomes.antt =====
-- The three ways in which the cut of tools/abstain.rs ends.
use agmem.Prelude.{
  ℕ, suc, ◌≡◌, ap, ◌∙◌, subst, Bool, true, false, ◌&&◌, Option, none, some, List, [], ◌∷◌, map,
  arith, ltb, if◌then◌else◌, is_some, take, drop, ◌++◌, length, keep_if, Bool-cases, Option-cases,
  inl, inr, length-map,
}
use agmem.Float.{Float}
use agmem.Abstain.{Verdict, best_of, below, trim, apply}
use agmem.Abstain.Floor.{all_weak, below-best_of}
use agmem.Abstain.Trim.{is_safe, trim-eq}
use agmem.Abstain.Knee.{knee_of-total}

module _ (fl : Float) where
  open fl use {F}

  module _ {ℓ} {T : Type ℓ} (similarity : T → Option F) (retrieval : T → F)
      (protected : T → Bool) where
    -- The top row was measured, and no measured row of the page reaches the floor.
    abbrev pub is_hopeless : F → T → List T → Bool
    is_hopeless floor top rest =
        is_some (similarity top) && all_weak fl floor (map similarity (top ∷ rest))

    hopeless-eq :
        (floor : F) (top : T) (rest : List T)
        → (is_some (similarity top) && below fl floor (best_of fl (map similarity (top ∷ rest))))
          ≡ is_hopeless floor top rest
    hopeless-eq floor top rest =
        ground (arith, below-best_of fl floor (map similarity (top ∷ rest)))

    abbrev pub cut_at : F → ℕ → List T → List T
    cut_at floor knee page =
        take (suc knee) page
        ++ keep_if (is_safe fl similarity retrieval protected floor) (drop (suc knee) page)

    abbrev pub report : F → ℕ → List T → Option (Verdict fl)
    report floor knee page =
        let left = cut_at floor knee page in
        if ltb (length left) (length page)
        then some (record {
          kept = length left;
          considered = length page;
          best_similarity = best_of fl (map similarity page);
        })
        else none

    abbrev pub result : List T → F → Option (List T × Option (Verdict fl))
    result = apply fl similarity retrieval protected

    -- The three ways in which `apply` ends on a page that holds a row.
    pub data Outcome (floor : F) (top : T) (rest : List T) : Type ℓ where
      cleared :
          is_hopeless floor top rest ≡ true
          → result (top ∷ rest) floor
            ≡ some (
              [],
              some (record {
                kept = 0;
                considered = length (top ∷ rest);
                best_similarity = best_of fl (map similarity (top ∷ rest));
              }),
            )
          → Outcome floor top rest
      whole :
          is_hopeless floor top rest ≡ false
          → result (top ∷ rest) floor ≡ some (top ∷ rest, none)
          → Outcome floor top rest
      trimmed :
          is_hopeless floor top rest ≡ false
          → (knee : ℕ)
          → result (top ∷ rest) floor
            ≡ some (cut_at floor knee (top ∷ rest), report floor knee (top ∷ rest))
          → Outcome floor top rest

    pub outcome : (floor : F) (top : T) (rest : List T) → Outcome floor top rest
    unfolding apply
    outcome floor top rest = elim (Bool-cases (is_hopeless floor top rest)) [
      | inl e ↦ cleared e (rw (hopeless-eq floor top rest, e))
      | inr e ↦ elim (Bool-cases (ltb (length (top ∷ rest)) 3)) [
        | inl small ↦ whole e (rw (hopeless-eq floor top rest, e, small))
        | inr large ↦
            let found =
              knee_of-total fl (map retrieval (top ∷ rest))
                (ground (arith, length-map (top ∷ rest) retrieval)) in
            elim (Option-cases found.0) [
              | inl n ↦
                  whole e (rw (hopeless-eq floor top rest, e, large) (rw (found.1 ∙ ap some n)))
              | inr (knee, n) ↦ trimmed e knee (
                  rw (hopeless-eq floor top rest, e, large)
                    (rw (found.1 ∙ ap some n) (rw (cut floor knee (top ∷ rest)))))
            ]
      ]
    ]
      where
        cut :
            (floor : F) (knee : ℕ) (page : List T)
            → trim fl similarity retrieval protected floor knee 0 page ≡ cut_at floor knee page
        cut floor knee page =
            subst
              (λ j. trim fl similarity retrieval protected floor j 0 page ≡ cut_at floor knee page)
              (omega arith) (trim-eq fl similarity retrieval protected floor knee 0 page)
