-- ===== src/Consolidate.antt =====
-- The all-pairs pass over one space's live claims: `compare` of
-- crates/agmem-server/src/tools/consolidate.rs with what it calls. A claim stands for its
-- `MemoryView`, which is a copy of its fields.
pub mod Links
pub mod Table
pub mod Groups
pub mod Tags
pub mod Request
pub mod Crowded
use agmem.Prelude.{
  ℕ, zero, suc, ◌+◌, ◌-◌, String, Bool, true, false, ◌&&◌, not, Option, none, some, ◌>>=◌, List, [],
  ◌∷◌, ◌++◌, map, length, any, min, max, take, get_elem?, ltb, ◌==◌, str_eq, keep_if, if◌then◌else◌,
  range,
}
use agmem.Model.{SpaceName, MemoryRecord}
use agmem.Hop.{contains}
use agmem.Sort.{sort_by}
use agmem.Float.{Float, lt, min_f, max_f}
use agmem.Dedup.{
  Thresholds, is_cluster_candidate, is_contradiction_candidate, new_unit, unit_similarity,
}
use agmem.Union.{new, root, join}

abbrev pub max_cluster_members : ℕ
max_cluster_members = 8

pub record Embedded (F Time : Type 0) : Type 0 where
  pub memory : MemoryRecord F Time
  pub embedding : List F

pub record Cluster (F Time : Type 0) : Type 0 where
  pub space : SpaceName
  pub members : List (MemoryRecord F Time)
  pub min_similarity : F
  pub max_similarity : F

pub record Contradiction (F Time : Type 0) : Type 0 where
  pub space : SpaceName
  pub shared_entities : List String
  pub a : MemoryRecord F Time
  pub b : MemoryRecord F Time
  pub similarity : F

pub record Found (F Time : Type 0) : Type 0 where
  pub clusters : List (Cluster F Time)
  pub contradictions : List (Contradiction F Time)

-- The pairs of indices below `size`, in the order of the two loops.
abbrev pub rights : ℕ → List ℕ → List (ℕ × ℕ)
rights left [] = []
rights left (right ∷ rest) = (left, right) ∷ rights left rest

abbrev pub pairs_from : ℕ → List ℕ → List (ℕ × ℕ)
pairs_from size [] = []
pairs_from size (left ∷ rest) =
    rights left (range (suc left) (size - suc left)) ++ pairs_from size rest

abbrev pub pairs : ℕ → List (ℕ × ℕ)
pairs size = pairs_from size (range 0 size)

-- `members.entry(root).or_default().push(index)`, and the loop over the indices
abbrev pub Groups : Type 0
Groups = List (ℕ × List ℕ)

unfoldable pub push : Groups → ℕ → ℕ → Groups
push [] key index = (key, index ∷ []) ∷ []
push ((k, group) ∷ groups) key index =
    if k == key then (k, group ++ index ∷ []) ∷ groups else (k, group) ∷ push groups key index

unfoldable pub collect : List ℕ → List ℕ → Groups → Option Groups
collect [] parents groups = some groups
collect (index ∷ indices) parents groups =
    root parents index >>= λ (halved, key). collect indices halved (push groups key index)

abbrev pub join_if : Bool → List ℕ → ℕ → ℕ → Option (List ℕ)
join_if close parents left right = if close then join parents left right else some parents

module _ {F : Type 0} where
  -- A lookup in the matrix, which has the latest pair first.
  unfoldable pub score_of : List ((ℕ × ℕ) × F) → ℕ → ℕ → Option F
  score_of [] left right = none
  score_of (((l, r), score) ∷ matrix) left right =
      if l == left && r == right then some score else score_of matrix left right

  abbrev unit_at : List (Option (List F)) → ℕ → Option (List F)
  unit_at units i = elim (get_elem? units i) [ none ↦ none | some unit ↦ unit ]

-- The subjects that both claims name; `lower` folds the case.
unfoldable pub shared_entities : (String → String) → List String → List String → List String
shared_entities lower left right =
    keep_if (λ entity. contains (map lower right) (lower entity)) left

module _ (fl : Float) where
  open fl use {F, infinity, neg_infinity}

  -- The similarity of two rows, if both have a direction.
  unfoldable pub score : List (Option (List F)) → ℕ → ℕ → Option F
  score units left right = elim (unit_at units left) [
    | none ↦ none
    | some a ↦ elim (unit_at units right) [ none ↦ none | some b ↦ some (unit_similarity fl a b) ]
  ]

  -- The inner loop of `extremes`, and the outer one.
  unfoldable pub extremes_row : List ((ℕ × ℕ) × F) → ℕ → List ℕ → F × F → Option (F × F)
  extremes_row matrix left [] (least, most) = some (least, most)
  extremes_row matrix left (right ∷ group) (least, most) =
      score_of matrix (min left right) (max left right) >>= λ s.
      extremes_row matrix left group (min_f fl least s, max_f fl most s)

  unfoldable pub extremes_from : List ((ℕ × ℕ) × F) → List ℕ → F × F → Option (F × F)
  extremes_from matrix [] seen = some seen
  extremes_from matrix (left ∷ group) seen =
      extremes_row matrix left group seen >>= λ next. extremes_from matrix group next

  abbrev pub is_finite : F → Bool
  is_finite x = lt fl x infinity && lt fl neg_infinity x

  abbrev both_finite : F × F → Option (F × F)
  both_finite (least, most) = if is_finite least && is_finite most then some (least, most) else none

  unfoldable pub extremes : List ((ℕ × ℕ) × F) → List ℕ → Option (F × F)
  extremes matrix group =
      extremes_from matrix group (infinity, neg_infinity) >>= λ seen. both_finite seen

-- What the pass over the pairs has gathered.
pub record Pairs (F Time : Type 0) : Type 0 where
  pub similarity : List ((ℕ × ℕ) × F)
  pub groups : List ℕ
  pub contradictions : List (Contradiction F Time)

-- The rows of one space; `lower` is `to_lowercase`, and `arrange` the order in which the hash map of
-- groups is left.
module _ (fl : Float) {Time : Type 0} (sqrt to_f32 : fl.F → fl.F) (lower : String → String)
    (arrange : List (ℕ × List ℕ) → List (ℕ × List ℕ)) (bands : Thresholds fl) (space : SpaceName)
    (rows : List (Embedded fl.F Time)) where
  open fl use {F, le}

  abbrev pub units : List (Option (List F))
  units = map (λ (row : Embedded F Time). new_unit fl sqrt to_f32 row.embedding) rows

  -- The last argument is the subjects that both name.
  abbrev disagreement :
      F → MemoryRecord F Time → MemoryRecord F Time → List String → List (Contradiction F Time)
  disagreement s a b [] = []
  disagreement s a b (entity ∷ rest) =
      record { space = space; shared_entities = entity ∷ rest; a = a; b = b; similarity = s } ∷ []

  -- What a pair adds to the contradictions; an index out of range cannot occur.
  unfoldable pub contradiction : F → ℕ → ℕ → List (Contradiction F Time)
  contradiction s left right =
      if not (is_contradiction_candidate fl bands s) then [] else elim (get_elem? rows left) [
        | none ↦ []
        | some a ↦ elim (get_elem? rows right) [
          | none ↦ []
          | some b ↦
              disagreement s a.memory b.memory
                (shared_entities lower a.memory.entities b.memory.entities)
        ]
      ]

  -- One pair of rows that were both measured.
  unfoldable pub note_pair : ℕ → ℕ → F → Pairs F Time → Option (Pairs F Time)
  note_pair left right s found =
      join_if (is_cluster_candidate fl bands s) found.groups left right >>= λ groups. some (record {
        similarity = ((left, right), s) ∷ found.similarity;
        groups = groups;
        contradictions = found.contradictions ++ contradiction s left right;
      })

  unfoldable pub compare_pairs : List (ℕ × ℕ) → Pairs F Time → Option (Pairs F Time)
  compare_pairs [] found = some found
  compare_pairs ((left, right) ∷ rest) found = elim (score fl units left right) [
    | none ↦ compare_pairs rest found
    | some s ↦ note_pair left right s found >>= λ next. compare_pairs rest next
  ]

  abbrev pub nothing_found : Pairs F Time
  nothing_found = record { similarity = []; groups = new (length rows); contradictions = [] }

  -- Every pair, then the rows by the root of their class.
  unfoldable pub grouped : Option (Pairs F Time × Groups)
  grouped = compare_pairs (pairs (length rows)) nothing_found >>= λ found.
      collect (range 0 (length rows)) found.groups [] >>= λ groups. some (found, groups)

  abbrev rows_at : List ℕ → List (MemoryRecord F Time)
  rows_at [] = []
  rows_at (i ∷ is) =
      let rest = rows_at is in
      elim (get_elem? rows i) [ none ↦ rest | some row ↦ row.memory ∷ rest ]

  abbrev cluster : List ℕ → F × F → Cluster F Time
  cluster group (least, most) = record {
    space = space;
    members = rows_at group;
    min_similarity = least;
    max_similarity = most;
  }

  unfoldable pub clusters_of : List ((ℕ × ℕ) × F) → Groups → List (Cluster F Time)
  clusters_of matrix [] = []
  clusters_of matrix ((key, group) ∷ groups) =
      let rest = clusters_of matrix groups in
      let kept = take max_cluster_members group in
      if not (ltb 1 (length group))
      then rest
      else elim (extremes fl matrix kept) [ none ↦ rest | some seen ↦ cluster kept seen ∷ rest ]

  abbrev pub by_closest : Cluster F Time → Cluster F Time → Bool
  by_closest a b = le b.max_similarity a.max_similarity

  unfoldable pub compare : Option (Found F Time)
  compare = grouped >>= λ (found, groups). some (record {
    clusters = sort_by by_closest (clusters_of found.similarity (arrange groups));
    contradictions = found.contradictions;
  })
