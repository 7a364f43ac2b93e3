-- ===== src/Tests/Pages.antt =====
-- Pages that the occupancy cap of tools/occupancy.rs re-slices.
use agmem.Prelude.{ℕ, ◌≡◌, ◌≤◌, refl, String, Option, none, some, List, [], ◌∷◌, arith, take, Perm}
use agmem.HashMap.{count_of, bump}
use agmem.Occupancy.{apply, cap, Resliced, sort_out, count_below, reslice, collect_sources}
use agmem.Occupancy.Gather.{gather}
use agmem.Occupancy.Spec.{occupied, kept, over, capped_page}
use agmem.Occupancy.Page.{apply-eq}
use agmem.Occupancy.Quota.{apply_quota, AllFrom}

-- A row is its number and the document it came from.
abbrev Row : Type 0
Row = ℕ × Option String

abbrev key : Row → Option String
key (n, source) = source

abbrev pool : List Row
pool =
    (1, some "plan")
    ∷ (2, some "plan")
    ∷ (3, some "plan")
    ∷ (4, none)
    ∷ (5, some "probe")
    ∷ (6, some "plan")
    ∷ []

abbrev resliced : List Row
resliced =
    (1, some "plan")
    ∷ (2, some "plan")
    ∷ (4, none)
    ∷ (5, some "probe")
    ∷ (3, some "plan")
    ∷ (6, some "plan")
    ∷ []

abbrev cut : Option Resliced
cut = some (record { displaced = 1; sources = "plan" ∷ [] })

apply-pool : apply pool 4 (cap 4) key ≡ some (resliced, cut)
unfolding apply cap count_below sort_out count_of bump reslice collect_sources gather
apply-pool = refl

apply-eq_example : apply pool 4 2 key ≡ some (capped_page key pool 4 2)
apply-eq_example = apply-eq key pool 4 2

apply_quota_example :
    (rows : List Row) × (cut : Option Resliced) × (apply pool 4 2 key ≡ some (rows, cut))
    × Perm rows pool
    × ((s : String) → occupied key s (take 4 rows) ≤ 2)
unfolding kept over occupied
apply_quota_example = apply_quota key pool 4 2 (omega arith) (omega arith)

abbrev plans : List Row
plans = (1, some "plan") ∷ (2, some "plan") ∷ (3, some "plan") ∷ (4, some "plan") ∷ []

plans_from : AllFrom key "plan" plans
plans_from = (refl, (refl, (refl, (refl, tt))))
