-- ===== src/Tests/Scores.antt =====
-- Candidates that scoring.rs ranks, and memories that it ages.
use agmem.Prelude.{ℕ, ◌≤◌, ◌⊎◌, ◌≡◌, refl, true, none, List, [], ◌∷◌}
use agmem.Sort.{sort_by, insert}
use agmem.Model.{slow}
use agmem.Scoring.{
  Signals, Pool, rank, rank_one, score_of, normalize, novelty_term, gather, gather_step, eq,
  retention,
}
use agmem.Scoring.Ranking.{pool_of, IsUnit}
use agmem.Scoring.Dominance.{Measured, rank_dominates}
use agmem.Scoring.Decay.{retention_grows}
use agmem.Tests.Coarse.{Coarse, nothing, plus, coarse, coarse_laws, ticks}
use agmem.Tests.Fixed.{at, fixed}

abbrev signals : ℕ → ℕ → Signals fixed
signals rrf importance = record {
  rrf = at rrf;
  similarity = none;
  temporal = none;
  novelty = none;
  retention = at 1000;
  importance = at importance;
}

abbrev candidates : List (ℕ × Signals fixed)
candidates = (1, signals 10 250) ∷ (2, signals 30 500) ∷ (3, signals 20 750) ∷ []

abbrev plain : Coarse → Signals coarse
plain rrf = record {
  rrf = rrf;
  similarity = none;
  temporal = none;
  novelty = none;
  retention = plus;
  importance = plus;
}

abbrev found : List (ℕ × Signals coarse)
found = (1, plain plus) ∷ (2, plain nothing) ∷ []

abbrev pool : Pool coarse
pool = pool_of coarse found

measured : (rrf : Coarse) → coarse.finite rrf ≡ true → Measured coarse pool (plain rrf)
unfolding novelty_term
measured rrf h = record {
  rrf = h;
  retention = refl;
  importance = refl;
  temporal = refl;
  novelty = refl;
}

-- The candidate without a retrieval score stands second.
rank_dominates_example :
    (coarse.le
        (rank_one coarse pool (plain nothing)).score
        (rank_one coarse pool (plain plus)).score
      ≡ true)
    × ((0 ≤ 1)
        ⊎ (eq coarse
              (rank_one coarse pool (plain nothing)).score
              (rank_one coarse pool (plain plus)).score
            ≡ true))
unfolding rank sort_by insert rank_one score_of normalize gather gather_step novelty_term
rank_dominates_example =
    rank_dominates coarse coarse_laws found 1 0 2 1 (rank_one coarse pool (plain nothing))
      (rank_one coarse pool (plain plus)) (measured plus refl, (measured nothing refl, tt)) refl
      refl (record { rrf = refl; retention = refl; importance = refl; temporal = refl })

retention_grows_example :
    IsUnit coarse coarse_laws (retention coarse ticks slow nothing 3 7)
    × IsUnit coarse coarse_laws (retention coarse ticks slow plus 3 7)
    × (coarse.le (retention coarse ticks slow nothing 3 7) (retention coarse ticks slow plus 3 7)
        ≡ true)
retention_grows_example = retention_grows coarse coarse_laws ticks slow nothing plus 3 7 refl
