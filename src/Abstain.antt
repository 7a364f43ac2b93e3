-- ===== src/Abstain.antt =====
-- The honest empty page of `recall`: crates/agmem-server/src/tools/abstain.rs, in a build without
-- the `eval-knobs` feature, where the floor in force is the model's own.
pub mod Knee
pub mod Floor
pub mod Trim
pub mod Outcomes
pub mod Verdicts
use agmem.Prelude.{
  ℕ, zero, suc, ◌<◌, ◌≡◌, Bool, true, false, not, ◌&&◌, ◌||◌, Option, none, some, List, [], ◌∷◌,
  map, leb, ltb, ◌==◌, if◌then◌else◌, is_some, length,
}
use agmem.Float.{Float, lt, min_f}

module _ (fl : Float) where
  open fl use {F, le, sub, mul, ratio, infinity}

  abbrev pub min_gap : F
  min_gap = ratio 10 100

  abbrev pub dominance : F
  dominance = ratio 2 1

  pub record Verdict : Type 0 where
    pub kept : ℕ
    pub considered : ℕ
    pub best_similarity : Option F

  -- `filter_map(similarity).max_by(total_cmp)`
  unfoldable pub best_of : List (Option F) → Option F
  best_of [] = none
  best_of (none ∷ rest) = best_of rest
  best_of (some s ∷ rest) = elim (best_of rest) [
    | none ↦ some s
    | some b ↦ if le s b then some b else some s
  ]

  -- The running minimum of the page's retrieval scores.
  unfoldable pub envelope_from : F → List F → List F
  envelope_from running [] = []
  envelope_from running (r ∷ rest) =
      let running' = min_f fl running r in running' ∷ envelope_from running' rest

  -- `windows(2).map(|pair| pair[0] - pair[1])`
  unfoldable pub gaps : List F → List F
  gaps [] = []
  gaps (a ∷ []) = []
  gaps (a ∷ (b ∷ rest)) = sub a b ∷ gaps (b ∷ rest)

  -- `enumerate().max_by(total_cmp)`, from the number `index` on: `max_by` returns the last of equal
  -- maxima.
  unfoldable pub widest_from : ℕ → List F → Option (ℕ × F)
  widest_from index [] = none
  widest_from index (gap ∷ rest) = elim (widest_from (suc index) rest) [
    | none ↦ some (index, gap)
    | some (at, best) ↦ if le gap best then some (at, best) else some (index, gap)
  ]

  -- `envelope[0]` and `envelope[considered - 1]`
  abbrev pub first_or : F → List F → F
  first_or d [] = d
  first_or d (a ∷ rest) = a

  abbrev pub last_or : F → List F → F
  last_or d [] = d
  last_or d (a ∷ rest) = last_or a rest

  -- The row where the tail starts, `none` where the page has no knee; the outer `none` is a panic.
  unfoldable pub knee_of : List F → Option (Option ℕ)
  knee_of retrieval =
      let envelope = envelope_from infinity retrieval in
      let spread = sub (first_or infinity envelope) (last_or infinity envelope) in
      elim (widest_from 0 (gaps envelope)) [
        | none ↦ none
        | some (knee, widest) ↦
            if lt fl widest min_gap || le (mul widest dominance) spread
            then some none
            else some (some knee)
      ]

  abbrev pub below : F → Option F → Bool
  below floor none = false
  below floor (some s) = lt fl s floor

  module _ {ℓ} {T : Type ℓ} (similarity : T → Option F) (retrieval : T → F)
      (protected : T → Bool) where
    -- `page.retain(…)`, from row `index` on.
    unfoldable pub trim : F → ℕ → ℕ → List T → List T
    trim floor knee index [] = []
    trim floor knee index (row ∷ rows) =
        let rest = trim floor knee (suc index) rows in
        if leb index knee || protected row || not (below floor (similarity row))
        then row ∷ rest
        else rest

    -- The page after the cut, and the verdict on it; the outer `none` is a panic.
    unfoldable pub apply : List T → F → Option (List T × Option Verdict)
    apply [] floor = some ([], none)
    apply (top ∷ rest) floor =
        let page = top ∷ rest in
        let considered = length page in
        let best = best_of (map similarity page) in
        if is_some (similarity top) && below floor best
        then some ([], some (record { kept = 0; considered = considered; best_similarity = best }))
        else if ltb considered 3
        then some (page, none)
        else elim (knee_of (map retrieval page)) [
          | none ↦ none
          | some none ↦ some (page, none)
          | some (some knee) ↦
              let left = trim floor knee 0 page in
              some (
                left,
                if ltb (length left) considered
                    then some (record {
                      kept = length left;
                      considered = considered;
                      best_similarity = best;
                    })
                    else none,
              )
        ]
