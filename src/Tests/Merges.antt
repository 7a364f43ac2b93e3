-- ===== src/Tests/Merges.antt =====
-- A maintenance pass that tools/consolidate.rs makes.
use agmem.Prelude.{
  ℕ, ◌-◌, ◌*◌, false, any, ltb, str_eq, ◌≡◌, refl, String, some, none, List, [], ◌∷◌, length, All,
}
use agmem.Model.{MemoryRecord}
use agmem.Sort.{sort_by, insert}
use agmem.Dedup.{
  bge_small, new_unit, unit_similarity, dot, dot_from, is_cluster_candidate,
  is_contradiction_candidate,
}
use agmem.Union.{indices, root, root_from, join}
use agmem.Consolidate.{
  Embedded, Found, compare, grouped, compare_pairs, note_pair, contradiction, score, collect, push,
  clusters_of, extremes, extremes_from, extremes_row, score_of, shared_entities,
}
use agmem.Context.Session.{lessons_per_tag}
use agmem.Scoring.{Clock}
use agmem.Service.{done, spaces}
use agmem.Consolidate.Tags.{
  OverFullTag, file, file_tags, file_all, over_full, too_many, over_full_tags,
}
use agmem.Consolidate.Crowded.{IsCrowded, bearers, over_full_tags_exact}
use agmem.Consolidate.Request
use agmem.Consolidate.Request.{
  Maintenance, ConsolidateResult, sweep, sweep_space, report, note, no_embedder, orphans_of,
}
use agmem.Consolidate.Groups.{Grouping, grouped-Grouping}
use agmem.Tests.Fixed.{Fixed, fixed, at}
use agmem.Tests.Rows.{claim, service}

abbrev about : String → MemoryRecord Fixed ℕ
about id = let row = claim id in record row { entities = "person/alice" ∷ [] }

-- The first two are close, the third is apart.
abbrev rows : List (Embedded Fixed ℕ)
rows =
    record { memory = about "A"; embedding = at 1000 ∷ at 0 ∷ [] }
    ∷ record { memory = about "B"; embedding = at 950 ∷ at 300 ∷ [] }
    ∷ record { memory = about "C"; embedding = at 0 ∷ at 1000 ∷ [] }
    ∷ []

abbrev one : Fixed → Fixed
one x = at 1000

abbrev same : {A : Type 0} → A → A
same x = x

abbrev result : Found Fixed ℕ
result = record {
  clusters =
      record {
        space = "work";
        members = about "A" ∷ about "B" ∷ [];
        min_similarity = at 950;
        max_similarity = at 950;
      }
      ∷ [];
  contradictions =
      record {
        space = "work";
        shared_entities = "person/alice" ∷ [];
        a = about "A";
        b = about "B";
        similarity = at 950;
      }
      ∷ [];
}

close_claims_are_clustered :
    compare fixed one same same same (bge_small fixed) "work" rows ≡ some result
unfolding compare grouped compare_pairs note_pair contradiction score collect push clusters_of
    extremes extremes_from extremes_row score_of shared_entities new_unit unit_similarity dot
    dot_from is_cluster_candidate is_contradiction_candidate indices root root_from join sort_by
    insert
close_claims_are_clustered = refl

grouped-Grouping_example : Grouping fixed one same same same (bge_small fixed) "work" rows
grouped-Grouping_example = grouped-Grouping fixed one same same same (bge_small fixed) "work" rows

abbrev learnt : String → MemoryRecord Fixed ℕ
learnt id = let row = claim id in record row { tags = "rust" ∷ [] }

abbrev lessons : List (MemoryRecord Fixed ℕ)
lessons = learnt "A" ∷ learnt "B" ∷ learnt "C" ∷ claim "D" ∷ learnt "E" ∷ []

four_lessons_are_too_many :
    over_full_tags "work" lessons
    ≡ over_full "work" "rust" (learnt "A" ∷ learnt "B" ∷ learnt "C" ∷ learnt "E" ∷ []) ∷ []
unfolding over_full_tags file_all file_tags file too_many sort_by insert
four_lessons_are_too_many = refl

over_full_tags_exact_example :
    All (IsCrowded "work" (λ t. bearers t lessons)) (over_full_tags "work" lessons)
    × ((t : String)
        → any (λ (e : OverFullTag Fixed ℕ). str_eq e.tag t) (over_full_tags "work" lessons)
          ≡ ltb lessons_per_tag (length (bearers t lessons)))
over_full_tags_exact_example = over_full_tags_exact "work" lessons

abbrev ticks : Clock Fixed
ticks = record { Time = ℕ; before = λ a b. ltb a b; seconds_since = λ a b. at (1000 * (a - b)) }

abbrev maintenance : Maintenance fixed ℕ
maintenance = record {
  live_vectors = λ space limit. done rows;
  stale_contexts = λ space. done [];
  orphan_documents = λ space days. done [];
  churning_documents = λ space versions. done [];
  thresholds = bge_small fixed;
  sqrt = one;
  to_f32 = same;
  lower = same;
  arrange = same;
  age_days = λ stamp. 0;
}

abbrev swept : ConsolidateResult Fixed ℕ
swept = record {
  spaces = "work" ∷ [];
  scanned = record { space = "work"; compared = 3; truncated = false } ∷ [];
  near_duplicates = result.clusters;
  contradictions = result.contradictions;
  stale_contexts = [];
  over_full_tags = [];
  orphan_documents = [];
  churning_documents = [];
  note = no_embedder ∷ [];
}

one_space_is_swept : Request.run fixed ticks service maintenance 9 none ≡ done swept
unfolding Request.run sweep sweep_space report note spaces over_full_tags file_all file_tags file
    too_many orphans_of compare grouped compare_pairs note_pair contradiction score collect push
    clusters_of extremes extremes_from extremes_row score_of shared_entities new_unit
    unit_similarity dot dot_from is_cluster_candidate is_contradiction_candidate indices root
    root_from join sort_by insert
one_space_is_swept = refl
