-- ===== src/Tests/Unions.antt =====
-- Runs of `Union` of tools/consolidate.rs at concrete inputs.
use agmem.Prelude.{ℕ, zero, suc, ◌≡◌, refl, some, List, [], ◌∷◌, length, arith}
use agmem.Union.{root_from, root, join}
use agmem.Union.Classes.{parent_of, Forest, class_of, merged, join_merges}

-- Two groups: a chain from 4 down to 0 by way of 2 and 1, and 3 alone.
abbrev chain : List ℕ
chain = 0 ∷ 0 ∷ 1 ∷ 3 ∷ 2 ∷ []

chain-Forest : Forest chain
unfolding parent_of
chain-Forest zero = omega arith
chain-Forest (suc zero) = omega arith
chain-Forest (suc (suc zero)) = omega arith
chain-Forest (suc (suc (suc zero))) = omega arith
chain-Forest (suc (suc (suc (suc zero)))) = omega arith
chain-Forest (suc (suc (suc (suc (suc i))))) = omega arith

root_halves : root chain 4 ≡ some (0 ∷ 0 ∷ 1 ∷ 3 ∷ 1 ∷ [], 0)
unfolding root root_from
root_halves = refl

chain_of_pairs : join chain 4 3 ≡ some (0 ∷ 0 ∷ 1 ∷ 0 ∷ 1 ∷ [])
unfolding join root root_from
chain_of_pairs = refl

join_merges_example :
    (qs : List ℕ) × (join chain 4 3 ≡ some qs)
    × (length qs ≡ length chain)
    × Forest qs
    × ((j : ℕ) → class_of qs j ≡ merged (class_of chain 4) (class_of chain 3) (class_of chain j))
join_merges_example = join_merges chain 4 3 chain-Forest (omega arith) (omega arith)
