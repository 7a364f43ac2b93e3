-- ===== src/Occupancy.antt =====
-- The per-source occupancy cap of `recall`: crates/agmem-server/src/tools/occupancy.rs.
pub mod Gather
pub mod Spec
mod Loop
pub mod Page
pub mod Quota
use agmem.Prelude.{
  ℕ, zero, suc, ◌+◌, ◌/◌, String, max, ◌≤◌, ◌≡◌, Bool, true, false, Option, none, some, List, [],
  ◌∷◌, ◌++◌, map, ltb, ◌>>=◌, take, leb, ◌==◌, if◌then◌else◌, length, get_elem?, set, any, str_eq,
}
use Gather.{gather}
use agmem.HashMap.{Counts, count_of, bump}

-- `k.div_ceil(2).max(2)`
unfoldable pub cap : ℕ → ℕ
cap k = max ((k + 1) / 2) 2

abbrev pub verbatim_cap : ℕ
verbatim_cap = 1

abbrev pub verbatim_key : String
verbatim_key = "verbatim"

pub record Resliced : Type 0 where
  pub displaced : ℕ
  pub sources : List String

module _ {ℓ} {T : Type ℓ} (key : T → Option String) (limit : ℕ) where
  -- The loop over `ranked.iter().enumerate()`, from row number `index` on: the rows taken and the
  -- rows deferred, as indices.
  unfoldable pub sort_out : Counts → ℕ → List T → List ℕ × List ℕ
  sort_out counts index [] = ([], [])
  sort_out counts index (row ∷ rows) = elim (key row) [
    | some source ↦
        if ltb (count_of counts source) limit
        then (let (taken, deferred) = sort_out (bump counts source) (suc index) rows in
            (index ∷ taken, deferred))
        else (let (taken, deferred) = sort_out counts (suc index) rows in (taken, index ∷ deferred))
    | none ↦ let (taken, deferred) = sort_out counts (suc index) rows in (index ∷ taken, deferred)
  ]

-- `deferred.iter().take_while(|index| index < k).count()`
unfoldable pub count_below : ℕ → List ℕ → ℕ
count_below k [] = 0
count_below k (i ∷ is) = if ltb i k then suc (count_below k is) else 0

module _ {ℓ} {T : Type ℓ} (key : T → Option String) where
  -- The loop over `deferred.iter().take(displaced)`: each source once, in page order. `none` is a
  -- panic: a row out of range, or one without a key.
  unfoldable pub collect_sources : List T → List ℕ → List String → Option (List String)
  collect_sources rows [] sources = some sources
  collect_sources rows (index ∷ deferred) sources = elim (get_elem? rows index) [
    | none ↦ none
    | some row ↦ elim (key row) [
      | none ↦ none
      | some source ↦
          collect_sources rows deferred
            (if any (str_eq source) sources then sources else sources ++ source ∷ [])
    ]
  ]

  -- What `apply` does once some deferred row stands on the page.
  unfoldable pub reslice : List T → ℕ → List ℕ → List ℕ → Option (List T × Option Resliced)
  reslice ranked displaced taken deferred = do
    sources ← collect_sources ranked (take displaced deferred) []
    rows ← gather (map some ranked) (taken ++ deferred)
    some (rows, some (record { displaced = displaced; sources = sources }))

-- The page after the cap, and what the cap did; the outer `none` is a panic.
unfoldable pub apply {ℓ} :
    {T : Type ℓ} → List T → ℕ → ℕ → (T → Option String) → Option (List T × Option Resliced)
apply ranked k limit key =
    if leb (length ranked) k
    then some (ranked, none)
    else let (taken, deferred) = sort_out key limit [] 0 ranked in
      let displaced = count_below k deferred in
      if displaced == 0 then some (ranked, none) else reslice key ranked displaced taken deferred
