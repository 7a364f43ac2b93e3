-- ===== src/Union.antt =====
-- The disjoint sets of row indices: `Union` of crates/agmem-server/src/tools/consolidate.rs.
pub mod Roots
pub mod Classes
use agmem.Prelude.{
  ℕ, zero, suc, ◌+◌, Bool, true, false, Option, none, some, ◌>>=◌, List, [], ◌∷◌, ◌==◌,
  if◌then◌else◌, min, max, get_elem?, set,
}

-- `(0..size).collect()`, from `first` on
unfoldable pub indices : ℕ → ℕ → List ℕ
indices first zero = []
indices first (suc size) = first ∷ indices (suc first) size

abbrev pub new : ℕ → List ℕ
new size = indices 0 size

-- The loop, for at most `fuel` rounds. `none` is a panic by an index out of range, or no fuel left.
unfoldable pub root_from : ℕ → List ℕ → ℕ → Option (List ℕ × ℕ)
root_from zero parents index = none
root_from (suc fuel) parents index = elim (get_elem? parents index) [
  | none ↦ none
  | some parent ↦ elim (parent == index) [
    | true ↦ some (parents, index)
    | false ↦ elim (get_elem? parents parent) [
      | none ↦ none
      | some grandparent ↦ root_from fuel (set parents index grandparent) grandparent
    ]
  ]
]

-- The index goes down in every round.
unfoldable pub root : List ℕ → ℕ → Option (List ℕ × ℕ)
root parents index = root_from (suc index) parents index

abbrev pub link : List ℕ → ℕ → ℕ → List ℕ
link parents left right =
    if left == right then parents else set parents (max left right) (min left right)

unfoldable pub join : List ℕ → ℕ → ℕ → Option (List ℕ)
join parents left right = root parents left >>= λ (halved, left_root).
    root halved right >>= λ (halved2, right_root). some (link halved2 left_root right_root)
