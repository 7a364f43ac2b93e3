-- ===== src/Tests/Verdicts.antt =====
-- Pages that the cut of tools/abstain.rs clears, trims and leaves whole.
use agmem.Prelude.{
  ℕ, ◌≡◌, ◌↔◌, refl, Bool, true, false, Option, none, some, List, [], ◌∷◌, arith, keep_if,
}
use agmem.Float.{lt}
use agmem.Abstain.{
  apply, Verdict, knee_of, envelope_from, gaps, widest_from, best_of, trim, min_gap, dominance,
}
use agmem.Abstain.Trim.{is_safe}
use agmem.Abstain.Outcomes.{is_hopeless}
use agmem.Abstain.Knee.{knee_of-total, knee_of-Widest, Widest}
use agmem.Abstain.Verdicts.{apply_abstains, apply_spares, apply-Accounts, Accounts}
use agmem.Tests.Fixed.{Fixed, at, fixed}

-- A row is its similarity, where one was measured, and its retrieval score.
abbrev Row : Type 0
Row = Option ℕ × ℕ

abbrev similarity : Row → Option Fixed
similarity (none, r) = none
similarity (some s, r) = some (at s)

abbrev retrieval : Row → Fixed
retrieval (s, r) = at r

abbrev unprotected : Row → Bool
unprotected row = false

-- Two strong rows, then a drop of 700 thousandths, and one weak, one unmeasured and one strong row.
abbrev page : List Row
page = (some 820, 1000) ∷ (some 790, 950) ∷ (some 200, 250) ∷ (none, 240) ∷ (some 700, 230) ∷ []

abbrev left : List Row
left = (some 820, 1000) ∷ (some 790, 950) ∷ (none, 240) ∷ (some 700, 230) ∷ []

abbrev verdict : Option (Verdict fixed)
verdict = some (record { kept = 4; considered = 5; best_similarity = some (at 820) })

apply-page : apply fixed similarity retrieval unprotected page (at 500) ≡ some (left, verdict)
unfolding apply knee_of envelope_from gaps widest_from best_of trim
apply-page = refl

knee_of-total_example :
    (knee : Option ℕ) × (knee_of fixed (at 1000 ∷ at 950 ∷ at 250 ∷ []) ≡ some knee)
knee_of-total_example = knee_of-total fixed (at 1000 ∷ at 950 ∷ at 250 ∷ []) (omega arith)

knee_of-Widest_example :
    (widest : Fixed) × Widest fixed 0 (at 50 ∷ at 700 ∷ []) 1 widest
    × (fixed.le (min_gap fixed) widest ≡ true)
    × (lt fixed (at 750) (fixed.mul widest (dominance fixed)) ≡ true)
unfolding knee_of envelope_from gaps widest_from
knee_of-Widest_example = knee_of-Widest fixed (at 1000 ∷ at 950 ∷ at 250 ∷ []) 1 refl

abbrev weak : List Row
weak = (some 310, 900) ∷ (none, 800) ∷ (some 420, 700) ∷ []

abbrev none_left : List Row
none_left = []

apply_abstains_example : (none_left ≡ []) ↔ (
    is_hopeless fixed similarity retrieval unprotected
      (at 500)
      (some 310, 900)
      ((none, 800) ∷ (some 420, 700) ∷ [])
    ≡ true)
unfolding apply best_of
apply_abstains_example =
    apply_abstains fixed similarity retrieval unprotected (at 500) (some 310, 900)
      ((none, 800) ∷ (some 420, 700) ∷ []) []
      (some (record { kept = 0; considered = 3; best_similarity = some (at 420) })) refl

apply_spares_example :
    keep_if (is_safe fixed similarity retrieval unprotected (at 500)) left
    ≡ keep_if (is_safe fixed similarity retrieval unprotected (at 500)) page
unfolding apply knee_of envelope_from gaps widest_from best_of trim
apply_spares_example =
    apply_spares fixed similarity retrieval unprotected (at 500) (some 820, 1000)
      ((some 790, 950) ∷ (some 200, 250) ∷ (none, 240) ∷ (some 700, 230) ∷ []) left verdict refl
      refl

apply-Accounts_example :
    (rows : List Row) × (verdict : Option (Verdict fixed)) × (apply fixed similarity retrieval
        unprotected page
        (at 500)
      ≡ some (rows, verdict))
    × Accounts fixed similarity retrieval unprotected page rows verdict
apply-Accounts_example = apply-Accounts fixed similarity retrieval unprotected page (at 500)
