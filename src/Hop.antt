-- ===== src/Hop.antt =====
-- The hop that `recall` takes over the entities of its strongest hits:
-- crates/agmem-server/src/tools/hop.rs.
mod Moves
pub mod Tail
pub mod Hubs
pub mod Seeds
pub mod Votes
use agmem.Prelude.{
  ℕ, zero, suc, ◌+◌, ◌-◌, ◌*◌, ◌≤◌, String, Bool, true, false, not, ◌&&◌, ◌||◌, Option, none, some,
  List, [], ◌∷◌, ◌++◌, map, ltb, leb, ◌==◌, str_eq, if◌then◌else◌, length, get_elem?, take, drop,
  any, position, keep_if,
}
use agmem.Sort.{sort_by}
use agmem.Float.{Float}
use agmem.Model.{MemoryRecord, Candidate, Hit, MemoryId, chunk}

abbrev pub seed_hits : ℕ
seed_hits = 3

abbrev pub seed_cap : ℕ
seed_cap = 5

abbrev pub hub_min_pool : ℕ
hub_min_pool = 8

abbrev pub hop_limit : ℕ
hop_limit = 8

abbrev pub rrf_k : ℕ
rrf_k = 60

-- `list.contains(&name)`
abbrev pub contains : List String → String → Bool
contains names name = any (str_eq name) names

-- Each entity of the pool once, in the order in which it is first named.
unfoldable pub add_new : List String → List String → List String
add_new named [] = named
add_new named (entity ∷ list) =
    add_new (if contains named entity then named else named ++ entity ∷ []) list

unfoldable pub name_all : List String → List (List String) → List String
name_all named [] = named
name_all named (list ∷ pool) = name_all (add_new named list) pool

-- How many of the lists name the entity.
unfoldable pub carriers : List (List String) → String → ℕ
carriers pool name = length (keep_if (λ list. contains list name) pool)

-- The share test `carriers >= 0.5 * len` holds exactly in `f64` for such counts: `len <= 2 * carriers`.
unfoldable pub hubs : List (List String) → List String
hubs pool =
    if ltb (length pool) hub_min_pool
    then []
    else keep_if (λ name. leb (length pool) (2 * carriers pool name)) (name_all [] pool)

-- `ranked.iter_mut().find(…)` with its two arms: a known name gains one, a new one is pushed.
unfoldable pub tally : List (String × ℕ) → String → List (String × ℕ)
tally [] entity = (entity, 1) ∷ []
tally ((name, count) ∷ ranked) entity =
    if str_eq name entity then (name, count + 1) ∷ ranked else (name, count) ∷ tally ranked entity

-- One list of the top hits: an entity that the list names twice counts once.
unfoldable pub tally_list : List String → List (String × ℕ) → List String → List (String × ℕ)
tally_list seen ranked [] = ranked
tally_list seen ranked (entity ∷ list) =
    let again = contains seen entity in
    tally_list (if again then seen else seen ++ entity ∷ [])
      (if again then ranked else tally ranked entity) list

unfoldable pub tally_all : List (String × ℕ) → List (List String) → List (String × ℕ)
tally_all ranked [] = ranked
tally_all ranked (list ∷ top) = tally_all (tally_list [] ranked list) top

abbrev pub by_count : String × ℕ → String × ℕ → Bool
by_count (a, m) (b, n) = leb n m

abbrev pub name_of : String × ℕ → String
name_of (name, count) = name

-- The sorted tallies that the seeds are taken from.
unfoldable pub ranked_names : List (List String) → List String → List (String × ℕ)
ranked_names top hubs =
    sort_by by_count (keep_if (λ entry. not (contains hubs (name_of entry))) (tally_all [] top))

unfoldable pub seeds : List (List String) → List String → List String
seeds top hubs = map name_of (take seed_cap (ranked_names top hubs))

unfoldable pub leads_onward : List String → List String → List String → Bool
leads_onward entities seeds hubs =
    any (λ entity. not (contains seeds entity) && not (contains hubs entity)) entities

-- `ranked.remove(i)` and `ranked.insert(i, row)`, within bounds.
unfoldable pub remove_at {ℓ} : {T : Type ℓ} → ℕ → List T → List T
remove_at i rows = take i rows ++ drop (suc i) rows

unfoldable pub insert_at {ℓ} : {T : Type ℓ} → ℕ → T → List T → List T
insert_at i row rows = take i rows ++ row ∷ drop i rows

unfoldable pub reserve_tail {ℓ} : {T : Type ℓ} → List T → ℕ → (T → Bool) → List T
reserve_tail ranked k is_hopped =
    if ltb k 2 || leb (length ranked) k || any is_hopped (take k ranked)
    then ranked
    else elim (position is_hopped (drop k ranked)) [
      | none ↦ ranked
      | some waiting ↦ elim (get_elem? ranked (k + waiting)) [
        | none ↦ ranked
        | some row ↦ insert_at (k - 1) row (remove_at (k + waiting) ranked)
      ]
    ]

module _ (fl : Float) (Time : Type 0) where
  open fl use {F, add, div, ratio}

  -- `0.5 / (60 + rank) as f64`
  unfoldable pub contribution : ℕ → F
  contribution rank = div (ratio 1 2) (ratio (rrf_k + rank) 1)

  abbrev pub is_memory : MemoryId → Candidate F Time → Bool
  is_memory id c = elim c.hit [ Hit.memory m ↦ str_eq m.id id | chunk _ ↦ false ]

  -- The first candidate that holds the row gains the vote; a row that none holds is pushed.
  unfoldable pub vote_for :
      F → MemoryRecord F Time → List (Candidate F Time) → List (Candidate F Time)
  vote_for vote row [] = record { rrf = vote; similarity = none; hit = Hit.memory row } ∷ []
  vote_for vote row (c ∷ candidates) =
      if is_memory row.id c
      then record c { rrf = add c.rrf vote } ∷ candidates
      else c ∷ vote_for vote row candidates

  -- The loop over the rows, from the one at `index`; the ids of the voted rows come back.
  unfoldable pub merge_from :
      ℕ
      → List (Candidate F Time)
      → List (MemoryRecord F Time)
      → List (Candidate F Time) × List MemoryId
  merge_from index candidates [] = (candidates, [])
  merge_from index candidates (row ∷ rows) =
      let (merged, voted) =
        merge_from (suc index) (vote_for (contribution (index + 1)) row candidates) rows in
      (merged, row.id ∷ voted)

  unfoldable pub merge :
      List (Candidate F Time) → List (MemoryRecord F Time) → List (Candidate F Time) × List MemoryId
  merge candidates rows = merge_from 0 candidates rows

  -- The entities of the pool's claims.
  unfoldable pub pool_of : List (Candidate F Time) → List (List String)
  pool_of [] = []
  pool_of (c ∷ candidates) =
      let rest = pool_of candidates in
      elim c.hit [ Hit.memory m ↦ m.entities ∷ rest | chunk _ ↦ rest ]

  -- `run`, past the caller's own filter: `lookup` stands for the store's filters-only lookup on the
  -- seeds, which is outside this module; `none` is a lookup that failed.
  unfoldable pub run :
      List String
      → (List String → Option (List (MemoryRecord F Time)))
      → List (Candidate F Time)
      → List (Candidate F Time) × List MemoryId
  run filter lookup candidates =
      if ltb 0 (length filter)
      then (candidates, [])
      else let pool = pool_of candidates in
        let hub_names = hubs pool in
        let seed_names = seeds (take seed_hits pool) hub_names in
        if length seed_names == 0 then (candidates, []) else elim (lookup seed_names) [
          | none ↦ (candidates, [])
          | some rows ↦ merge candidates (
              take hop_limit (keep_if (λ row. leads_onward row.entities seed_names hub_names) rows))
        ]
