-- ===== src/Forget/Resolve.antt =====
-- What a call selects: `by_ids`, `by_query`, `memory`, `episode_target` and `unqualified` of
-- crates/agmem-server/src/tools/forget.rs.
use agmem.Prelude.{
  String, Bool, false, Option, none, some, List, [], ◌∷◌, ◌++◌, str_eq, if◌then◌else◌,
}
use agmem.Model.{Text, SpaceName, MemoryId, EpisodeId, MemoryRecord, Candidate, Hit, ok, err}
use agmem.Model.Names.{new_id}
use agmem.Service.{
  Service, new_search, Outcome, done, failed, ErrorData, invalid_about, internal, ◌>>=◌,
}
use agmem.Forget.{
  ForgetStore, found, unknown, broken, Target, id_of, seen, Reference, parse, grammar,
  missing_memory,
}

-- The first link of the chain with the id.
unfoldable pub find_record :
    {F Time : Type 0} → MemoryId → List (MemoryRecord F Time) → Option (MemoryRecord F Time)
find_record id [] = none
find_record id (r ∷ chain) = if str_eq r.id id then some r else find_record id chain

unfoldable pub refuse_closing_text : EpisodeId → Bool → Outcome (Unit {0})
refuse_closing_text id purge =
    if purge
    then done tt
    else failed (invalid_about "verbatim text has no validity window to close" (id ∷ []))

module _ {F Time : Type 0} (store : ForgetStore F Time) where
  abbrev start_of : SpaceName → Option (MemoryRecord F Time) → Outcome (Option (Target F Time))
  start_of space none = failed (internal "the chain walk lost the memory it started from")
  start_of space (some r) = done (some (Target.memory space r none))

  unfoldable pub memory : List SpaceName → MemoryId → Outcome (Option (Target F Time))
  memory [] id = done none
  memory (space ∷ spaces) id = elim (store.history_chain space id) [
    | found chain ↦ start_of space (find_record id chain)
    | unknown ↦ memory spaces id
    | broken e ↦ failed e
  ]

  unfoldable pub episode_target : List SpaceName → EpisodeId → Outcome (Option (Target F Time))
  episode_target [] id = done none
  episode_target (space ∷ spaces) id = elim (store.episode space id) [
    | found detail ↦ done (some (Target.episode space detail))
    | unknown ↦ episode_target spaces id
    | broken e ↦ failed e
  ]

  -- The loop over the spaces for a slice: it never answers with a target.
  unfoldable pub refuse_slice : List SpaceName → List SpaceName → String → Outcome (Target F Time)
  refuse_slice all [] id = failed (missing_memory id all)
  refuse_slice all (space ∷ spaces) id = elim (store.episode_of_chunk space id) [
    | failed e ↦ failed e
    | done none ↦ refuse_slice all spaces id
    | done (some parent) ↦ failed (invalid_about "one slice of an episode" (id ∷ parent ∷ []))
  ]

  -- `MemoryId::new(id)` and its two likes, the error mapped.
  abbrev id_or_grammar : String → Outcome String
  id_or_grammar id = elim (new_id id) [ ok good ↦ done good | err e ↦ failed (grammar id) ]

  unfoldable pub unqualified : List SpaceName → String → Bool → Outcome (Target F Time)
  unqualified spaces id purge = do
    memory_id ← id_or_grammar id
    claim ← memory spaces memory_id
    elim claim [
      | some target ↦ done target
      | none ↦ do
        episode_id ← id_or_grammar id
        text ← episode_target spaces episode_id
        elim text [
          | some target ↦ refuse_closing_text episode_id purge >>= λ _. done target
          | none ↦ id_or_grammar id >>= λ chunk_id. refuse_slice spaces spaces chunk_id
        ]
    ]

  abbrev or_refuse : {A : Type 0} → ErrorData → Option A → Outcome A
  or_refuse e none = failed e
  or_refuse e (some a) = done a

  unfoldable pub resolve : List SpaceName → Bool → Reference → Outcome (Target F Time)
  resolve spaces purge (Reference.memory id) =
      memory spaces id >>= λ claim. or_refuse (missing_memory id spaces) claim
  resolve spaces purge (Reference.episode id) = do
    refused ← refuse_closing_text id purge
    text ← episode_target spaces id
    or_refuse (invalid_about "no episode" (id ∷ spaces)) text
  resolve spaces purge (Reference.unqualified id) = unqualified spaces id purge

  abbrev push_new : List (Target F Time) → Target F Time → List (Target F Time)
  push_new targets target = if seen targets (id_of target) then targets else targets ++ target ∷ []

  -- The loop over the references, with the targets so far.
  unfoldable pub by_ids_from :
      List SpaceName → Bool → List (Target F Time) → List String → Outcome (List (Target F Time))
  by_ids_from spaces purge targets [] = done targets
  by_ids_from spaces purge targets (raw ∷ ids) = do
    reference ← parse raw
    target ← resolve spaces purge reference
    by_ids_from spaces purge (push_new targets target) ids

  unfoldable pub by_ids : List SpaceName → List String → Bool → Outcome (List (Target F Time))
  by_ids spaces ids purge = by_ids_from spaces purge [] ids

-- `filter_map` over the candidates: the claims among them.
unfoldable pub claims_of : {F Time : Type 0} → List (Candidate F Time) → List (Target F Time)
claims_of [] = []
claims_of (c ∷ candidates) = elim c.hit [
  | Hit.memory r ↦ Target.memory r.space r none ∷ claims_of candidates
  | Hit.chunk s ↦ claims_of candidates
]

unfoldable pub by_query :
    {F Time : Type 0} → Service F Time → List SpaceName → Text → Outcome (List (Target F Time))
by_query service spaces text =
    let base = new_search spaces in
    let search = record base { text = some text; episodes = false; pool = service.pool } in
    service.search_hybrid search >>= λ candidates. done (claims_of candidates)
