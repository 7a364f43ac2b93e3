-- ===== src/Tests/Blocks.antt =====
-- Blocks that tools/context.rs assembles.
use agmem.Prelude.{
  ℕ, ◌+◌, ◌-◌, ◌≡◌, ◌≤◌, ◌⊎◌, ◌↔◌, refl, String, max, true, none, some, List, [], ◌∷◌, ◌++◌, arith,
  ltb, ◌*◌, length, All, Perm,
}
use mathlib.Core.List.{Sublistᴰ}
use agmem.Words.{chars, is_white, words_from, join}
use agmem.Model.{Text, MemoryRecord, lesson, agent, slow}
use agmem.Service.{Service, done, failed, invalid, internal, spaces}
use agmem.Context.{
  Entry, Section, assemble, render, title, trimmed, nothing, line, place, place_all, fill, held,
  held_all, lines_len, cap_by_tag, resolve_budget,
}
use agmem.Context.Written.{Once}
use agmem.Context.Fill.{all_of, Taken}
use agmem.Context.Budget.{assemble_fits}
use agmem.Context.Once.{assemble_shows, assemble_complete, laid_out, AllSettled}
use agmem.Context.Tags.{cap_by_tag_quota, carriers, IsCrowded}
use agmem.Context.Session.{run}
use agmem.Context.Request.{run_refuses_exactly, run_answers, TooSmall}
use agmem.Tests.Fixed.{Fixed, at, fixed}
use agmem.Scoring.{Clock}

abbrev entry : String → Text → Entry
entry id content = record { id = id; content = content; covers = [] }

-- The claim that both sections hold is written once.
abbrev sections : List Section
sections =
    record {
      heading = chars "## Instructions";
      entries = entry "A" (chars "Run the\ntests.") ∷ entry "B" (chars "Ask first.") ∷ [];
      reserve = 0;
    }
    ∷ record {
      heading = chars "## Lessons";
      entries = entry "A" (chars "Run the\ntests.") ∷ [];
      reserve = 66;
    }
    ∷ []

assemble-sections :
    assemble ("work" ∷ []) sections 200
    ≡ chars
        "# Memory context (spaces: work)\n\n## Instructions\n- Run the tests. `A`\n- Ask first. `B`"
unfolding assemble render title line place place_all fill held held_all lines_len chars is_white
    words_from join
assemble-sections = refl

assemble_fits_example :
    length (assemble ("work" ∷ []) sections 200)
    ≤ max (length (title ("work" ∷ [])) + length trimmed) 200
assemble_fits_example = assemble_fits ("work" ∷ []) sections 200

assemble_shows_example :
    (shown : List (List Entry)) × (note : Text) × (assemble ("work" ∷ []) sections 60
      ≡ laid_out ("work" ∷ []) sections shown note)
    × Taken shown sections
    × Once (all_of shown)
    × ((note ≡ []) ⊎ (note ≡ nothing) ⊎ (note ≡ trimmed) ⊎ (note ≡ nothing ++ trimmed))
assemble_shows_example = assemble_shows ("work" ∷ []) sections 60

assemble_complete_example :
    (shown : List (List Entry)) × (note : Text) × (assemble ("work" ∷ []) sections 200
      ≡ laid_out ("work" ∷ []) sections shown note)
    × Taken shown sections
    × AllSettled true (all_of shown) sections
    × ((note ≡ []) ⊎ (note ≡ nothing))
unfolding render title line place place_all fill held held_all lines_len chars is_white words_from
    join
assemble_complete_example = assemble_complete ("work" ∷ []) sections 200 refl

abbrev how_to : String → List String → MemoryRecord Fixed ℕ
how_to id tags = record {
  id = id;
  space = "work";
  kind = lesson;
  content = chars "Write the test first.";
  content_hash = "";
  entities = [];
  tags = tags;
  embedding = none;
  decay_class = slow;
  strength = at 1000;
  last_accessed = 0;
  access_count = 0;
  valid_from = 0;
  invalid_at = none;
  invalid_reason = none;
  supersedes = [];
  superseded_by = none;
  source = agent;
  writer = none;
  novelty = none;
  derived_from = [];
  created_at = 0;
}

abbrev how_tos : List (MemoryRecord Fixed ℕ)
how_tos = how_to "A" ("role:dev" ∷ []) ∷ how_to "B" ("role:dev" ∷ "rust" ∷ []) ∷ how_to "C" [] ∷ []

cap_by_tag_quota_example :
    (kept : List (MemoryRecord Fixed ℕ)) × (deferred : List (MemoryRecord Fixed ℕ)) × (cap_by_tag
        how_tos 1
      ≡ kept ++ deferred)
    × Perm (kept ++ deferred) how_tos
    × Sublistᴰ kept how_tos
    × Sublistᴰ deferred how_tos
    × ((tag : String) → carriers tag kept ≤ 1)
    × All (IsCrowded 1 kept) deferred
cap_by_tag_quota_example = cap_by_tag_quota how_tos 1 (omega arith)

abbrev clock : Clock Fixed
clock = record {
  Time = ℕ;
  before = ltb;
  seconds_since = λ later earlier. at (1000 * (later - earlier));
}

-- A store that answers each lookup with the same rows.
abbrev service : Service Fixed ℕ
service = record {
  space = "work";
  pool = 64;
  all_spaces = done ("work" ∷ "user" ∷ []);
  dim = 0;
  embed = λ text. failed (internal "no embedder");
  direct_lookup = λ l. done how_tos;
  search_hybrid = λ s. done [];
}

abbrev embedding_service : Service Fixed ℕ
embedding_service = record service { dim = 2; embed = λ text. done (at 1 ∷ at 2 ∷ []) }

run_refuses_exactly_example :
    (run fixed clock embedding_service
        (record { query = none; space = none; budget_chars = some 10 })
        7
      ≡ failed (invalid "budget_chars must be at least 200"))
    ↔ TooSmall (record { query = none; space = none; budget_chars = some 10 })
unfolding spaces
run_refuses_exactly_example =
    run_refuses_exactly fixed clock embedding_service (λ l. (how_tos, refl)) (λ s. ([], refl))
      (λ text. (at 1 ∷ at 2 ∷ [], refl))
      (record { query = none; space = none; budget_chars = some 10 }) 7 ("work" ∷ "user" ∷ []) refl

run_answers_example :
    (block : Text) × (run fixed clock embedding_service
        (record { query = some (chars "tests"); space = some "all"; budget_chars = none })
        7
      ≡ done block)
    × (length block ≤ max (length (title ("work" ∷ "user" ∷ [])) + length trimmed) 6000)
unfolding spaces resolve_budget
run_answers_example =
    run_answers fixed clock embedding_service (λ l. (how_tos, refl)) (λ s. ([], refl))
      (λ text. (at 1 ∷ at 2 ∷ [], refl))
      (record { query = some (chars "tests"); space = some "all"; budget_chars = none }) 7
      ("work" ∷ "user" ∷ []) 6000 refl refl
