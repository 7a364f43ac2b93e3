-- ===== src/Hop/Votes.antt =====
-- The hop's votes on the pool: `merge` and `run` of tools/hop.rs.
use agmem.Prelude.{
  ℕ, suc, ◌+◌, ◌≤◌, ◌≡◌, refl, sym, ap, ◌∙◌, String, true, Option, List, [], ◌∷◌, map, arith, ltb,
  ◌==◌, eq_iff, length, take, any, keep_if, take-take, All, Bool-cases, Option-cases, inl, inr,
  length-take, length-map,
}
use agmem.Float.{Float}
use agmem.Model.{MemoryRecord, Candidate, Hit, MemoryId}
use agmem.Hop.{
  contribution, is_memory, vote_for, merge_from, merge, run, hop_limit, seeds, hubs, pool_of,
  leads_onward, seed_hits,
}

module _ (fl : Float) (Time : Type 0) where
  open fl use {F}

  -- What a candidate is, whatever its fused score.
  abbrev pub found : Candidate F Time → Hit F Time × Option F
  found c = (c.hit, c.similarity)

  take_all : (pool : List (Candidate F Time)) → take (length pool) (map found pool) ≡ map found pool
  take_all [] = refl
  take_all (c ∷ pool) = ap (◌∷◌ (found c)) (take_all pool)

  vote_for_keeps :
      (vote : F) (row : MemoryRecord F Time) (pool : List (Candidate F Time))
      → take (length pool) (map found (vote_for fl Time vote row pool)) ≡ map found pool
  unfolding vote_for
  vote_for_keeps vote row [] = refl
  vote_for_keeps vote row (c ∷ pool) = elim (Bool-cases (is_memory fl Time row.id c)) [
    | inl e ↦ rw e (ap (◌∷◌ (found c)) (take_all pool))
    | inr e ↦ rw e (ap (◌∷◌ (found c)) (vote_for_keeps vote row pool))
  ]

  vote_for_grows :
      (vote : F) (row : MemoryRecord F Time) (pool : List (Candidate F Time))
      → length pool ≤ length (vote_for fl Time vote row pool)
  unfolding vote_for
  vote_for_grows vote row [] = omega arith
  vote_for_grows vote row (c ∷ pool) = ground (arith, vote_for_grows vote row pool)

  vote_for_seats :
      (vote : F) (row : MemoryRecord F Time) (pool : List (Candidate F Time))
      → any (is_memory fl Time row.id) (vote_for fl Time vote row pool) ≡ true
  unfolding vote_for
  vote_for_seats vote row [] = rw ((eq_iff row.id row.id).1 refl)
  vote_for_seats vote row (c ∷ pool) = elim (Bool-cases (is_memory fl Time row.id c)) [
    | inl e ↦ rw e (rw e)
    | inr e ↦ rw e (rw (e, vote_for_seats vote row pool))
  ]

  vote_for_stays :
      (vote : F) (row : MemoryRecord F Time) (id : MemoryId) (pool : List (Candidate F Time))
      → any (is_memory fl Time id) pool ≡ true
      → any (is_memory fl Time id) (vote_for fl Time vote row pool) ≡ true
  unfolding vote_for
  vote_for_stays vote row id [] h = cc
  vote_for_stays vote row id (c ∷ pool) h = elim (Bool-cases (is_memory fl Time row.id c)) [
    | inl e ↦ rw e h
    | inr e ↦ elim (Bool-cases (is_memory fl Time id c)) [
      | inl f ↦ rw e (rw f)
      | inr f ↦ rw e (rw (f, vote_for_stays vote row id pool (ground arith)))
    ]
  ]

  merge_from_keeps :
      (n : ℕ) (pool : List (Candidate F Time)) (rows : List (MemoryRecord F Time))
      → take (length pool) (map found (merge_from fl Time n pool rows).0) ≡ map found pool
  unfolding merge_from
  merge_from_keeps n pool [] = take_all pool
  merge_from_keeps n pool (row ∷ rows) =
      let vote = contribution fl Time (n + 1) in
      let voted = vote_for fl Time vote row pool in
      sym (take-take (length pool) (length voted) _ (vote_for_grows vote row pool))
      ∙ ap (take (length pool)) (merge_from_keeps (suc n) voted rows)
      ∙ vote_for_keeps vote row pool

  merge_from_stays :
      (n : ℕ) (id : MemoryId) (pool : List (Candidate F Time)) (rows : List (MemoryRecord F Time))
      → any (is_memory fl Time id) pool ≡ true
      → any (is_memory fl Time id) (merge_from fl Time n pool rows).0 ≡ true
  unfolding merge_from
  merge_from_stays n id pool [] h = h
  merge_from_stays n id pool (row ∷ rows) h =
      merge_from_stays (suc n) id _ rows
        (vote_for_stays (contribution fl Time (n + 1)) row id pool h)

  merge_from_seats :
      (n : ℕ) (pool : List (Candidate F Time)) (rows : List (MemoryRecord F Time))
      → All (λ row. any (is_memory fl Time row.id) (merge_from fl Time n pool rows).0 ≡ true) rows
  unfolding merge_from
  merge_from_seats n pool [] = tt
  merge_from_seats n pool (row ∷ rows) =
      let vote = contribution fl Time (n + 1) in
      (
        merge_from_stays (suc n) row.id _ rows (vote_for_seats vote row pool),
        merge_from_seats (suc n) (vote_for fl Time vote row pool) rows,
      )

  merge_from_ids :
      (n : ℕ) (pool : List (Candidate F Time)) (rows : List (MemoryRecord F Time))
      → (merge_from fl Time n pool rows).1 ≡ map (λ row. row.id) rows
  unfolding merge_from
  merge_from_ids n pool [] = refl
  merge_from_ids n pool (row ∷ rows) = ap (◌∷◌ row.id) (merge_from_ids (suc n) _ rows)

  -- `merge` keeps every candidate in its place, what it is and its measured similarity; each voted
  -- row is in the pool afterwards; and the ids come back in the order of the hop.
  pub merge_votes :
      (pool : List (Candidate F Time)) (rows : List (MemoryRecord F Time))
      → let merged = merge fl Time pool rows in
        (take (length pool) (map found merged.0) ≡ map found pool)
        × All (λ row. any (is_memory fl Time row.id) merged.0 ≡ true) rows
        × (merged.1 ≡ map (λ row. row.id) rows)
  unfolding merge
  merge_votes pool rows =
      (merge_from_keeps 0 pool rows, merge_from_seats 0 pool rows, merge_from_ids 0 pool rows)

  -- Whatever the lookup answers, failure included, the hop keeps every candidate of the query in its
  -- place, what it is and its measured similarity, and votes for eight rows at most.
  pub run_keeps :
      (filter : List String) (lookup : List String → Option (List (MemoryRecord F Time)))
      (pool : List (Candidate F Time))
      → let result = run fl Time filter lookup pool in
        (take (length pool) (map found result.0) ≡ map found pool) × (length result.1 ≤ hop_limit)
  unfolding run merge
  run_keeps filter lookup pool =
      let hub_names = hubs (pool_of fl Time pool) in
      let seed_names = seeds (take seed_hits (pool_of fl Time pool)) hub_names in
      elim (Bool-cases (ltb 0 (length filter))) [
        | inl e ↦ rw e (take_all pool, omega arith)
        | inr e ↦ elim (Bool-cases (length seed_names == 0)) [
          | inl z ↦ rw (e, z) (take_all pool, omega arith)
          | inr z ↦ elim (Option-cases (lookup seed_names)) [
            | inl n ↦ rw (e, z, n) (take_all pool, omega arith)
            | inr (rows, n) ↦
                let onward = keep_if (λ row. leads_onward row.entities seed_names hub_names) rows in
                let voters = take hop_limit onward in
                rw (e, z, n)
                  (
                    merge_from_keeps 0 pool voters,
                    omega (
                      arith,
                      ap length (merge_from_ids 0 pool voters),
                      length-map voters (λ row. row.id),
                      length-take hop_limit onward,
                    ),
                  )
          ]
        ]
      ]
