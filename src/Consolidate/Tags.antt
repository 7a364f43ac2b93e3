-- ===== src/Consolidate/Tags.antt =====
-- `over_full_tags` of crates/agmem-server/src/tools/consolidate.rs.
use agmem.Prelude.{
  ℕ, String, Bool, true, false, ◌&&◌, ◌||◌, List, [], ◌∷◌, ◌++◌, length, take, ltb, ◌==◌, str_eq,
  if◌then◌else◌,
}
use agmem.Model.{SpaceName, MemoryRecord}
use agmem.Words.{chars}
use agmem.Sort.{sort_by}
use agmem.Context.Session.{lessons_per_tag}
use agmem.Consolidate.{max_cluster_members}

pub record OverFullTag (F Time : Type 0) : Type 0 where
  pub space : SpaceName
  pub tag : String
  pub live : ℕ
  pub keep : ℕ
  pub members : List (MemoryRecord F Time)

-- Rust's order on `str`, by code points.
unfoldable pub le_chars : List ℕ → List ℕ → Bool
le_chars [] ys = true
le_chars (x ∷ xs) [] = false
le_chars (x ∷ xs) (y ∷ ys) = ltb x y || (x == y && le_chars xs ys)

module _ {F Time : Type 0} where
  -- `by_tag.entry(tag).or_default().push(lesson)`
  unfoldable pub file :
      List (String × List (MemoryRecord F Time))
      → MemoryRecord F Time
      → String
      → List (String × List (MemoryRecord F Time))
  file [] lesson tag = (tag, lesson ∷ []) ∷ []
  file ((t, members) ∷ table) lesson tag =
      if str_eq t tag
      then (t, members ++ lesson ∷ []) ∷ table
      else (t, members) ∷ file table lesson tag

  unfoldable pub file_tags :
      List (String × List (MemoryRecord F Time))
      → MemoryRecord F Time
      → List String
      → List (String × List (MemoryRecord F Time))
  file_tags table lesson [] = table
  file_tags table lesson (tag ∷ tags) = file_tags (file table lesson tag) lesson tags

  unfoldable pub file_all :
      List (String × List (MemoryRecord F Time))
      → List (MemoryRecord F Time)
      → List (String × List (MemoryRecord F Time))
  file_all table [] = table
  file_all table (lesson ∷ lessons) = file_all (file_tags table lesson lesson.tags) lessons

  abbrev pub over_full : SpaceName → String → List (MemoryRecord F Time) → OverFullTag F Time
  over_full space tag members = record {
    space = space;
    tag = tag;
    live = length members;
    keep = lessons_per_tag;
    members = take max_cluster_members members;
  }

  unfoldable pub too_many :
      SpaceName → List (String × List (MemoryRecord F Time)) → List (OverFullTag F Time)
  too_many space [] = []
  too_many space ((tag, members) ∷ table) =
      let rest = too_many space table in
      if ltb lessons_per_tag (length members) then over_full space tag members ∷ rest else rest

  -- The fullest first, then by tag.
  abbrev pub by_fullest : OverFullTag F Time → OverFullTag F Time → Bool
  by_fullest a b = ltb b.live a.live || (b.live == a.live && le_chars (chars a.tag) (chars b.tag))

  unfoldable pub over_full_tags : SpaceName → List (MemoryRecord F Time) → List (OverFullTag F Time)
  over_full_tags space lessons = sort_by by_fullest (too_many space (file_all [] lessons))
