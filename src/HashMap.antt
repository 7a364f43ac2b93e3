-- ===== src/HashMap.antt =====
-- Rust's `HashMap<String, usize>` as the tallies use it: `entry(k).or_insert(0)` and a bump, and
-- `get`. An association list; the program never iterates over these tables.
use agmem.Prelude.{ℕ, ◌+◌, String, ◌≡◌, List, [], ◌∷◌, arith, str_eq, eq_iff, if◌then◌else◌}

-- A tally for each key, and nothing for a key that was never counted.
abbrev pub Counts : Type 0
Counts = List (String × ℕ)

-- The tally of a key, 0 where the table has none.
unfoldable pub count_of : Counts → String → ℕ
count_of [] k = 0
count_of ((j, n) ∷ m) k = if str_eq j k then n else count_of m k

-- `*counts.entry(k).or_insert(0) += 1`.
unfoldable pub bump : Counts → String → Counts
bump [] k = (k, 1) ∷ []
bump ((j, n) ∷ m) k = if str_eq j k then (j, n + 1) ∷ m else (j, n) ∷ bump m k

-- A bump adds one at its key and changes no other tally.
pub count_of-bump :
    (m : Counts) (k j : String)
    → count_of (bump m k) j ≡ (if str_eq k j then count_of m j + 1 else count_of m j)
unfolding count_of bump
count_of-bump [] k j = ground (arith, eq_iff k j)
count_of-bump ((i, n) ∷ m) k j =
    ground (arith, eq_iff k j, eq_iff i k, eq_iff i j, count_of-bump m k j)
