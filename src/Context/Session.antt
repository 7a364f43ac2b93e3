-- ===== src/Context/Session.antt =====
-- The call itself: `run` of crates/agmem-server/src/tools/context.rs, its sections and its request.
use agmem.Prelude.{ℕ, String, false, Option, none, some, List, [], ◌∷◌, map, take, if◌then◌else◌}
use agmem.Float.{Float}
use agmem.Words.{is_blank, chars}
use agmem.Model.{
  Text, SpaceName, MemoryRecord, Candidate, Hit, chunk, fact, instruction, lesson, summary,
}
use agmem.Scoring.{Clock, Signals, for_memory}
use agmem.Scoring
use agmem.Service.{
  Service, Outcome, done, failed, invalid, ◌>>=◌, Filters, no_filters, new_lookup, new_search,
  spaces, embed_query,
}
use agmem.Context.{Entry, entry_from, cap_by_tag, assemble, resolve_budget, lessons_reserve}

abbrev pub relevant_k : ℕ
relevant_k = 10

abbrev pub relevant_unaimed_k : ℕ
relevant_unaimed_k = 5

abbrev pub lessons_k : ℕ
lessons_k = 5

abbrev pub lessons_per_tag : ℕ
lessons_per_tag = 3

abbrev pub identity_tag : String
identity_tag = "identity"

pub record ContextParams : Type 0 where
  pub query : Option Text
  pub space : Option String
  pub budget_chars : Option ℕ

-- `resolve_budget(budget_chars)?`
abbrev pub budget_of : Option ℕ → Outcome ℕ
budget_of requested = elim (resolve_budget requested) [
  | none ↦ failed (invalid "budget_chars must be at least 200")
  | some budget ↦ done budget
]

-- `query.filter(|text| !text.trim().is_empty())`
abbrev pub aimed : Option Text → Option Text
aimed none = none
aimed (some text) = if is_blank text then none else some text

module _ (fl : Float) (clock : Clock fl.F) where
  open fl use {F, ratio}
  open clock use {Time}

  abbrev order : Option ℕ → List (MemoryRecord F Time) → List (MemoryRecord F Time)
  order none ranked = ranked
  order (some per_tag) ranked = cap_by_tag ranked per_tag

  abbrev memory_of : MemoryRecord F Time × Scoring.Ranked fl → MemoryRecord F Time
  memory_of (memory, ranked) = memory

  -- `rank`
  unfoldable pub best_entries : List (MemoryRecord F Time × Signals fl) → ℕ → Option ℕ → List Entry
  best_entries candidates keep per_tag =
      map entry_from (take keep (order per_tag (map memory_of (Scoring.rank fl candidates))))

  abbrev signal_row : Time → MemoryRecord F Time → MemoryRecord F Time × Signals fl
  signal_row now memory = (memory, for_memory fl clock (ratio 0 1) memory now)

  unfoldable pub memory_signals :
      Time → List (Candidate F Time) → List (MemoryRecord F Time × Signals fl)
  memory_signals now [] = []
  memory_signals now (c ∷ candidates) =
      let rest = memory_signals now candidates in
      elim c.hit [
        | Hit.memory memory ↦ (memory, for_memory fl clock c.rrf memory now) ∷ rest
        | chunk _ ↦ rest
      ]

  module _ (service : Service F Time) where
    unfoldable pub lookup_section :
        List SpaceName → Filters → ℕ → Option ℕ → Time → Outcome (List Entry)
    lookup_section spaces filters keep per_tag now = do
      records ←
          service.direct_lookup
            (record (new_lookup spaces) { filters = filters; limit = service.pool })
      done (best_entries (map (signal_row now) records) keep per_tag)

    unfoldable pub search_section : List SpaceName → Text → Time → Outcome (List Entry)
    search_section spaces text now = do
      vector ← embed_query service text
      candidates ← service.search_hybrid (record (new_search spaces) {
        vector = vector;
        text = some text;
        pool = service.pool;
        episodes = false;
      })
      done (best_entries (memory_signals now candidates) relevant_k none)

    abbrev pub relevant_section : List SpaceName → Option Text → Time → Outcome (List Entry)
    relevant_section spaces none now =
        lookup_section spaces (record no_filters { kinds = fact ∷ summary ∷ [] }) relevant_unaimed_k
          none now
    relevant_section spaces (some text) now = search_section spaces text now

    unfoldable pub run : ContextParams → Time → Outcome Text
    run params now = do
      names ← spaces service params.space
      budget ← budget_of params.budget_chars
      instructions ←
          lookup_section names (record no_filters { kinds = instruction ∷ [] }) service.pool none
            now
      profile ←
          lookup_section names (record no_filters { kinds = fact ∷ []; tags = identity_tag ∷ [] })
            service.pool none now
      relevant ← relevant_section names (aimed params.query) now
      lessons ←
          lookup_section names (record no_filters { kinds = lesson ∷ [] }) lessons_k
            (some lessons_per_tag) now
      done (
          assemble names
            (record { heading = chars "## Instructions"; entries = instructions; reserve = 0 }
              ∷ record { heading = chars "## Profile"; entries = profile; reserve = 0 }
              ∷ record { heading = chars "## Relevant"; entries = relevant; reserve = 0 }
              ∷ record {
                heading = chars "## Lessons";
                entries = lessons;
                reserve = lessons_reserve budget;
              }
              ∷ [])
            budget)
