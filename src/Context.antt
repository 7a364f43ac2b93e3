-- ===== src/Context.antt =====
-- The session-start block: crates/agmem-server/src/tools/context.rs, its formatter. The calls that
-- fill the sections are in Context/Session.
pub mod Session
pub mod Written
pub mod Round
pub mod Fill
pub mod Budget
pub mod Once
pub mod Tags
pub mod Request
use agmem.Prelude.{
  ℕ, zero, suc, ◌+◌, ◌-◌, ◌/◌, min, String, Bool, true, false, not, ◌&&◌, ◌||◌, Option, none, some,
  List, [], ◌∷◌, ◌++◌, map, ltb, leb, ◌==◌, str_eq, if◌then◌else◌, length, any,
}
use agmem.HashMap.{Counts, count_of, bump}
use agmem.Words.{split_whitespace, join, chars}
use agmem.Model.{Text, SpaceName, MemoryId, MemoryRecord, Derivation, Kind, summary, memory}

abbrev pub default_budget_chars : ℕ
default_budget_chars = 6000

abbrev pub min_budget_chars : ℕ
min_budget_chars = 200

abbrev pub lessons_reserve_chars : ℕ
lessons_reserve_chars = 2000

abbrev pub trimmed : Text
trimmed = chars "\n\n_Trimmed to fit `budget_chars`; `recall` reaches what is missing._"

abbrev pub nothing : Text
nothing = chars "\n\n_Nothing stored for these spaces yet._"

-- One line of the block; `covers` are the memories that a summary stands in for.
pub record Entry : Type 0 where
  pub id : MemoryId
  pub content : Text
  pub covers : List MemoryId

pub record Section : Type 0 where
  pub heading : Text
  pub entries : List Entry
  pub reserve : ℕ

unfoldable pub line : Entry → Text
line e =
    chars "\n- "
    ++ join (chars " ") (split_whitespace e.content)
    ++ chars " `"
    ++ chars e.id
    ++ chars "`"

abbrev pub header : Section → Text
header section = 10 ∷ 10 ∷ section.heading

-- The sum of the lines' lengths.
unfoldable pub lines_len : List Entry → ℕ
lines_len [] = 0
lines_len (e ∷ es) = length (line e) + lines_len es

-- `Section::held`
unfoldable pub held : Section → ℕ
held section =
    if section.reserve == 0 || length section.entries == 0
    then 0
    else min section.reserve (length (header section) + lines_len section.entries)

unfoldable pub held_all : List Section → ℕ
held_all [] = 0
held_all (section ∷ rest) = held section + held_all rest

unfoldable pub lessons_reserve : ℕ → ℕ
lessons_reserve budget = min lessons_reserve_chars (budget / 3)

-- `resolve_budget`: `none` refuses the request.
unfoldable pub resolve_budget : Option ℕ → Option ℕ
resolve_budget none = some default_budget_chars
resolve_budget (some budget) = if ltb budget min_budget_chars then none else some budget

-- `seen.contains(&id)`
abbrev pub saw : List MemoryId → MemoryId → Bool
saw seen id = any (λ other. str_eq other id) seen

-- What the loops of `render` carry; `header_cost` is 0 once the section's heading is written.
pub record State : Type 0 where
  pub text : Text
  pub used : ℕ
  pub dropped : ℕ
  pub seen : List MemoryId
  pub header_cost : ℕ

-- One round of the loop over a section's entries.
unfoldable pub place : ℕ → Text → Bool → State → Entry → State
place budget heading roll_up s entry =
    if saw s.seen entry.id
    then s
    else let cost = s.header_cost + length (line entry) in
      if ltb budget (s.used + cost)
      then record s { seen = entry.id ∷ s.seen; dropped = s.dropped + 1 }
      else record s {
        text = (if ltb 0 s.header_cost then s.text ++ heading else s.text) ++ line entry;
        used = s.used + cost;
        seen = if roll_up then entry.covers ++ entry.id ∷ s.seen else entry.id ∷ s.seen;
        header_cost = 0;
      }

unfoldable pub place_all : ℕ → Text → Bool → State → List Entry → State
place_all budget heading roll_up s [] = s
place_all budget heading roll_up s (entry ∷ entries) =
    place_all budget heading roll_up (place budget heading roll_up s entry) entries

-- The loop over the sections, from number `index` on.
unfoldable pub fill : ℕ → Bool → ℕ → State → List Section → State
fill budget roll_up index s [] = s
fill budget roll_up index s (section ∷ rest) =
    let reserved = if index == 0 then 0 else held_all rest in
    fill budget roll_up (suc index)
      (place_all (budget - reserved) (header section) roll_up
        (record s { header_cost = length (header section) }) section.entries)
      rest

unfoldable pub title : List SpaceName → Text
title spaces =
    chars "# Memory context (spaces: " ++ join (chars " + ") (map chars spaces) ++ chars ")"

-- The state in which the loops start.
abbrev pub start : Text → State
start title = record { text = title; used = length title; dropped = 0; seen = []; header_cost = 0 }

-- The block, and how many entries the budget cost it.
unfoldable pub render : List SpaceName → List Section → ℕ → Bool → Text × ℕ
render spaces sections budget roll_up =
    let s = fill budget roll_up 0 (start (title spaces)) sections in
    if s.used == length (title spaces) && s.dropped == 0 && leb (s.used + length nothing) budget
    then (s.text ++ nothing, s.dropped)
    else (s.text, s.dropped)

-- Up to three fills.
unfoldable pub assemble : List SpaceName → List Section → ℕ → Text
assemble spaces sections budget =
    let (block, dropped) = render spaces sections budget false in
    if dropped == 0
    then block
    else let (rolled, left_out) = render spaces sections budget true in
      if left_out == 0
      then rolled
      else let (cut, more) = render spaces sections (budget - length trimmed) true in cut ++ trimmed

-- The memories among what a summary cites.
unfoldable pub cited_memories : List Derivation → List MemoryId
cited_memories [] = []
cited_memories (memory id ∷ cited) = id ∷ cited_memories cited
cited_memories (Derivation.episode id ∷ cited) = cited_memories cited

unfoldable pub bump_all : Counts → List String → Counts
bump_all counts [] = counts
bump_all counts (tag ∷ tags) = bump_all (bump counts tag) tags

module _ {F Time : Type 0} where
  -- `Entry::from`
  unfoldable pub entry_from : MemoryRecord F Time → Entry
  entry_from m = record {
    id = m.id;
    content = m.content;
    covers = elim m.kind [ summary ↦ cited_memories m.derived_from | _ ↦ [] ];
  }

  -- `counts.get(tag).is_some_and(…)` for some tag: a tag that was counted has a tally above 0.
  abbrev pub at_quota : Counts → ℕ → MemoryRecord F Time → Bool
  at_quota counts cap r =
      any (λ tag. ltb 0 (count_of counts tag) && leb cap (count_of counts tag)) r.tags

  -- The loop of `cap_by_tag`: the records kept and the records deferred.
  unfoldable pub split_by_tag :
      ℕ
      → Counts
      → List (MemoryRecord F Time)
      → List (MemoryRecord F Time) × List (MemoryRecord F Time)
  split_by_tag cap counts [] = ([], [])
  split_by_tag cap counts (r ∷ rs) =
      if at_quota counts cap r
      then (let (kept, deferred) = split_by_tag cap counts rs in (kept, r ∷ deferred))
      else (let (kept, deferred) = split_by_tag cap (bump_all counts r.tags) rs in
          (r ∷ kept, deferred))

  unfoldable pub cap_by_tag : List (MemoryRecord F Time) → ℕ → List (MemoryRecord F Time)
  cap_by_tag records cap = let (kept, deferred) = split_by_tag cap [] records in kept ++ deferred
