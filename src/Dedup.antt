-- ===== src/Dedup.antt =====
-- The bands of a similarity and unit vectors: crates/agmem-core/src/dedup.rs. The square root and the
-- rounding to `f32` are parameters.
use agmem.Prelude.{
  Bool, ◌&&◌, not, Option, none, some, List, [], ◌∷◌, map, length, ◌==◌, if◌then◌else◌,
}
use agmem.Float.{Float, lt, clamp}

module _ (fl : Float) where
  open fl use {F, le, add, sub, mul, div, ratio, infinity, neg_infinity}

  unfoldable pub similarity_from_distance : F → F
  similarity_from_distance distance = sub (ratio 1 1) distance

  unfoldable pub novelty : F → F
  novelty best_similarity = clamp fl (sub (ratio 1 1) best_similarity) (ratio 0 1) (ratio 1 1)

  pub record Thresholds : Type 0 where
    pub near_dup : F
    pub correction_floor : F
    pub cluster : F
    pub abstention : F

  abbrev pub bge_small : Thresholds
  bge_small = record {
    near_dup = ratio 95 100;
    correction_floor = ratio 75 100;
    cluster = ratio 90 100;
    abstention = ratio 62 100;
  }

  abbrev pub gemma_300m : Thresholds
  gemma_300m = record {
    near_dup = ratio 95 100;
    correction_floor = ratio 70 100;
    cluster = ratio 90 100;
    abstention = ratio 14 100;
  }

  unfoldable pub is_near_duplicate : Thresholds → F → Bool
  is_near_duplicate bands similarity = le bands.near_dup similarity

  unfoldable pub is_correction_candidate : Thresholds → F → Bool
  is_correction_candidate bands similarity =
      le bands.correction_floor similarity && lt fl similarity bands.near_dup

  unfoldable pub is_cluster_candidate : Thresholds → F → Bool
  is_cluster_candidate bands similarity = le bands.cluster similarity

  unfoldable pub is_contradiction_candidate : Thresholds → F → Bool
  is_contradiction_candidate bands similarity = le bands.correction_floor similarity

  -- The sum of the products of two vectors' values, from the left, with what is summed so far.
  unfoldable pub dot_from : F → List F → List F → F
  dot_from total [] right = total
  dot_from total (x ∷ left) [] = total
  dot_from total (x ∷ left) (y ∷ right) = dot_from (add total (mul x y)) left right

  unfoldable pub dot : List F → List F → F
  dot left right = dot_from (ratio 0 1) left right

  module _ (sqrt : F → F) (to_f32 : F → F) where
    -- `norm.is_finite() && norm != 0.0`, and a sum that starts from 0
    abbrev is_direction : F → Bool
    is_direction norm =
        lt fl norm infinity
        && lt fl neg_infinity norm
        && not (le norm (ratio 0 1) && le (ratio 0 1) norm)

    unfoldable pub new_unit : List F → Option (List F)
    new_unit vector =
        let norm = sqrt (dot vector vector) in
        if is_direction norm then some (map (λ value. to_f32 (div value norm)) vector) else none

  unfoldable pub unit_similarity : List F → List F → F
  unit_similarity left right = if length left == length right then dot left right else ratio 0 1
