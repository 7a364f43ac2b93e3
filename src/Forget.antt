-- ===== src/Forget.antt =====
-- The destructive verb: crates/agmem-server/src/tools/forget.rs, with the rows that it reads and the
-- request that it sends, `EpisodeDetail` of crates/agmem-store/src/repo/read.rs and `Forget` and
-- `Forgotten` of repo/write.rs.
pub mod Resolve
pub mod Chains
pub mod Request
pub mod Shape
pub mod Snapshot
pub mod Session
pub mod Pulled
pub mod Cascade
use agmem.Prelude.{
  ℕ, String, Bool, true, false, ◌&&◌, Option, none, some, List, [], ◌∷◌, ◌++◌, map, length, any,
  ltb, take, str_eq, ◌==◌, not, if◌then◌else◌,
}
use agmem.Model.{
  Derivation, Text, SpaceName, MemoryId, EpisodeId, ChunkId, MemoryRecord, Episode, EpisodeChunk,
  ok, err,
}
use agmem.Model.Names.{new_id, split_once, derivation_to_string}
use agmem.Model.Enums.{reason_as_str}
use agmem.Service.{ErrorData, Outcome, done, failed, invalid_about}
use agmem.Words.Trim.{trim_str}

pub record EpisodeDetail (F Time : Type 0) : Type 0 where
  pub episode : Episode Time
  pub chunks : List (EpisodeChunk F Time)
  pub derived : List (MemoryRecord F Time)

-- What a call asks the store to close or to delete.
pub record StoreForget : Type 0 where
  pub spaces : List SpaceName
  pub memories : List MemoryId
  pub episodes : List EpisodeId
  pub purge : Bool

pub record Forgotten : Type 0 where
  pub memories : List MemoryId
  pub episodes : List EpisodeId
  pub chunks : ℕ

-- A read by id: `unknown` is `StoreError::UnknownMemory` or `UnknownEpisode`.
pub data Read (A : Type 0) : Type 0 where
  found : A → Read A
  unknown : Read A
  broken : ErrorData → Read A

-- The store as one call finds it.
pub record ForgetStore (F Time : Type 0) : Type 0 where
  pub history_chain : SpaceName → MemoryId → Read (List (MemoryRecord F Time))
  pub episode : SpaceName → EpisodeId → Read (EpisodeDetail F Time)
  pub episode_of_chunk : SpaceName → ChunkId → Outcome (Option EpisodeId)
  pub document_citers : SpaceName → EpisodeId → Outcome (List (MemoryRecord F Time))
  pub forget : StoreForget → Outcome Forgotten

pub record ForgetParams : Type 0 where
  pub ids : List String
  pub query : Option Text
  pub space : Option String
  pub purge : Bool
  pub dry_run : Bool
  pub cascade : Bool

pub data MatchKind : Type 0 where
  memory episode : MatchKind

pub record ForgetMatch : Type 0 where
  pub id : String
  pub kind : MatchKind
  pub content : Text
  pub space : String
  pub invalid_reason : Option String
  pub derived : Option ℕ
  pub cascaded_from : Option String

pub record ForgetResult : Type 0 where
  pub spaces : List String
  pub dry_run : Bool
  pub purge : Bool
  pub matched : List ForgetMatch
  pub invalidated : List String
  pub purged : List String
  pub chunks_purged : ℕ

pub record Scope : Type 0 where
  pub query : Text
  pub spaces : List SpaceName
  pub purge : Bool

abbrev pub texts_eq : Text → Text → Bool
texts_eq [] [] = true
texts_eq [] (d ∷ t) = false
texts_eq (c ∷ s) [] = false
texts_eq (c ∷ s) (d ∷ t) = c == d && texts_eq s t

abbrev pub names_eq : List String → List String → Bool
names_eq [] [] = true
names_eq [] (d ∷ t) = false
names_eq (c ∷ s) [] = false
names_eq (c ∷ s) (d ∷ t) = str_eq c d && names_eq s t

abbrev pub flags_eq : Bool → Bool → Bool
flags_eq true b = b
flags_eq false b = not b

unfoldable pub scopes_eq : Scope → Scope → Bool
scopes_eq a b = texts_eq a.query b.query && names_eq a.spaces b.spaces && flags_eq a.purge b.purge

-- One row that a call acts on, in the space that holds it.
pub data Target (F Time : Type 0) : Type 0 where
  memory : SpaceName → MemoryRecord F Time → Option EpisodeId → Target F Time
  episode : SpaceName → EpisodeDetail F Time → Target F Time

abbrev pub preview_chars : ℕ
preview_chars = 300

-- `…`
abbrev pub ellipsis : Text
ellipsis = 8230 ∷ []

unfoldable pub preview : Text → Text
preview text = if ltb preview_chars (length text) then take preview_chars text ++ ellipsis else text

abbrev cited : Option EpisodeId → Option String
cited none = none
cited (some id) = some (derivation_to_string (Derivation.episode id))

module _ {F Time : Type 0} where
  abbrev pub id_of : Target F Time → String
  id_of (memory space record_ from) = record_.id
  id_of (episode space detail) = detail.episode.id

  -- `filter_map(Target::memory)` and `filter_map(Target::episode)`
  unfoldable pub memory_ids : List (Target F Time) → List MemoryId
  memory_ids [] = []
  memory_ids (memory space record_ from ∷ targets) = record_.id ∷ memory_ids targets
  memory_ids (episode space detail ∷ targets) = memory_ids targets

  unfoldable pub episode_ids : List (Target F Time) → List EpisodeId
  episode_ids [] = []
  episode_ids (memory space record_ from ∷ targets) = episode_ids targets
  episode_ids (episode space detail ∷ targets) = detail.episode.id ∷ episode_ids targets

  -- `targets.iter().any(|seen| seen.id() == id)`
  abbrev pub seen : List (Target F Time) → String → Bool
  seen targets id = any (λ target. str_eq (id_of target) id) targets

  unfoldable pub new_match : Target F Time → ForgetMatch
  new_match (memory space r from) = record {
    id = r.id;
    kind = MatchKind.memory;
    content = preview r.content;
    space = space;
    invalid_reason = elim r.invalid_reason [
      | none ↦ none
      | some reason ↦ some (reason_as_str reason)
    ];
    derived = none;
    cascaded_from = cited from;
  }
  new_match (episode space detail) = record {
    id = detail.episode.id;
    kind = MatchKind.episode;
    content = preview detail.episode.content;
    space = space;
    invalid_reason = none;
    derived = some (length detail.derived);
    cascaded_from = none;
  }

pub data Reference : Type 0 where
  memory : MemoryId → Reference
  episode : EpisodeId → Reference
  unqualified : String → Reference

abbrev pub grammar : String → ErrorData
grammar raw = invalid_about "each id must be `memory:<id>`, `episode:<id>`, or a bare id" (raw ∷ [])

abbrev pub missing_memory : String → List SpaceName → ErrorData
missing_memory id spaces = invalid_about "no memory or episode" (id ∷ spaces)

abbrev checked : (String → Reference) → String → String → Outcome Reference
checked wrap raw id = elim (new_id id) [ ok good ↦ done (wrap good) | err e ↦ failed (grammar raw) ]

abbrev bare : String → Outcome Reference
bare raw = checked unqualified raw raw

abbrev qualified : String → Option (String × String) → Outcome Reference
qualified raw none = bare raw
qualified raw (some (head, id)) =
    if str_eq head "memory"
    then checked memory raw id
    else if str_eq head "episode"
    then checked episode raw id
    else bare raw

unfoldable pub parse : String → Outcome Reference
parse raw = let trimmed = trim_str raw in qualified trimmed (split_once trimmed)
