-- ===== src/Tests/Hops.antt =====
-- Pools and pages that the hop of tools/hop.rs works on.
use agmem.Prelude.{
  ℕ, ◌-◌, ◌*◌, ◌≡◌, refl, String, Bool, true, not, ◌&&◌, Option, none, some, List, [], ◌∷◌, map,
  arith, leb, ltb, length, take, any, All, Perm,
}
use agmem.Sort.{IsSorted}
use agmem.Model.{MemoryRecord, Candidate, Hit, fact, agent, normal}
use agmem.Hop.{
  reserve_tail, hubs, seeds, contains, carriers, hub_min_pool, ranked_names, seed_cap, name_of,
  by_count, merge, is_memory, insert_at, remove_at,
}
use agmem.Hop.Tail.{reserve_tail_seats, reserve_tail_keeps}
use agmem.Hop.Hubs.{hubs_exact}
use agmem.Hop.Seeds.{seeds_ranked, Agrees}
use agmem.Hop.Votes.{merge_votes, found}
use agmem.Tests.Fixed.{Fixed, at, fixed}

-- Rows by their rank; those from 40 on have a vote of the hop.
abbrev is_hopped : ℕ → Bool
is_hopped row = leb 40 row

abbrev page : List ℕ
page = 10 ∷ 20 ∷ 30 ∷ 35 ∷ 40 ∷ 50 ∷ []

reserve_tail-page : reserve_tail page 3 is_hopped ≡ 10 ∷ 20 ∷ 40 ∷ 30 ∷ 35 ∷ 50 ∷ []
unfolding reserve_tail insert_at remove_at
reserve_tail-page = refl

reserve_tail_seats_example : any is_hopped (take 3 (reserve_tail page 3 is_hopped)) ≡ true
reserve_tail_seats_example = reserve_tail_seats page 3 is_hopped (omega arith) refl

reserve_tail_keeps_example :
    Perm (reserve_tail page 3 is_hopped) page
    × (take (3 - 1) (reserve_tail page 3 is_hopped) ≡ take (3 - 1) page)
    × IsSorted leb (take 3 (reserve_tail page 3 is_hopped))
reserve_tail_keeps_example = reserve_tail_keeps leb page 3 is_hopped (
  (refl, (refl, (refl, (refl, (refl, tt))))),
  (
    (refl, (refl, (refl, (refl, tt)))),
    ((refl, (refl, (refl, tt))), ((refl, (refl, tt)), ((refl, tt), (tt, tt)))),
  ),
)

-- Eight lists, four of which name `agmem`.
abbrev pool : List (List String)
pool =
    ("agmem" ∷ "rust" ∷ [])
    ∷ ("agmem" ∷ "store" ∷ [])
    ∷ ("agmem" ∷ "rust" ∷ "rust" ∷ [])
    ∷ ("agmem" ∷ [])
    ∷ []
    ∷ ("rust" ∷ [])
    ∷ ("vectors" ∷ [])
    ∷ ("store" ∷ [])
    ∷ []

hubs_exact_example :
    contains (hubs pool) "agmem"
    ≡ (leb hub_min_pool (length pool) && leb (length pool) (2 * carriers pool "agmem"))
hubs_exact_example = hubs_exact pool "agmem"

seeds_ranked_example :
    (seeds (take 3 pool) ("agmem" ∷ [])
      ≡ map name_of (take seed_cap (ranked_names (take 3 pool) ("agmem" ∷ []))))
    × IsSorted by_count (ranked_names (take 3 pool) ("agmem" ∷ []))
    × All (Agrees (take 3 pool)) (ranked_names (take 3 pool) ("agmem" ∷ []))
    × (contains (map name_of (ranked_names (take 3 pool) ("agmem" ∷ []))) "rust"
        ≡ (ltb 0 (carriers (take 3 pool) "rust") && not (contains ("agmem" ∷ []) "rust")))
seeds_ranked_example = seeds_ranked (take 3 pool) ("agmem" ∷ []) "rust"

abbrev claim : String → List String → MemoryRecord Fixed ℕ
claim id entities = record {
  id = id;
  space = "work";
  kind = fact;
  content = b'x' ∷ [];
  content_hash = "";
  entities = entities;
  tags = [];
  embedding = none;
  decay_class = normal;
  strength = at 1000;
  last_accessed = 0;
  access_count = 0;
  valid_from = 0;
  invalid_at = none;
  invalid_reason = none;
  supersedes = [];
  superseded_by = none;
  source = agent;
  writer = none;
  novelty = none;
  derived_from = [];
  created_at = 0;
}

abbrev candidate : String → List String → Candidate Fixed ℕ
candidate id entities = record {
  rrf = at 16;
  similarity = some (at 800);
  hit = Hit.memory (claim id entities);
}

abbrev candidates : List (Candidate Fixed ℕ)
candidates = candidate "A" ("rust" ∷ []) ∷ candidate "B" ("rust" ∷ "store" ∷ []) ∷ []

abbrev lookup : List String → Option (List (MemoryRecord Fixed ℕ))
lookup seed_names = some (claim "C" ("rust" ∷ "vectors" ∷ []) ∷ claim "D" ("rust" ∷ []) ∷ [])

merge_votes_example :
    let merged = merge fixed ℕ candidates (claim "C" [] ∷ claim "A" [] ∷ []) in
    (take (length candidates) (map (found fixed ℕ) merged.0) ≡ map (found fixed ℕ) candidates)
    × All (λ row. any (is_memory fixed ℕ row.id) merged.0 ≡ true) (claim "C" [] ∷ claim "A" [] ∷ [])
    × (merged.1 ≡ map (λ row. row.id) (claim "C" [] ∷ claim "A" [] ∷ []))
merge_votes_example = merge_votes fixed ℕ candidates (claim "C" [] ∷ claim "A" [] ∷ [])
