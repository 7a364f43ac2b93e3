-- ===== src/Remember/Validate.antt =====
-- What is checked of a write before anything is embedded: the two `validated` of
-- crates/agmem-server/src/tools/remember.rs, and `memory_id` and `resolve_space` of tools/mod.rs.
use Prim.Native.String.{len}
use agmem.Prelude.{
  ℕ, suc, ◌+◌, String, Bool, true, false, ◌&&◌, ◌||◌, not, Option, none, some, List, [], ◌∷◌, ◌++◌,
  map, length, ltb, str_eq, keep_if, is_some, if◌then◌else◌,
}
use agmem.Model.{Text, SpaceName, MemoryId, Kind, fact, lesson, instruction, summary, ok, err}
use agmem.Model.Names.{new_space, new_id, split_once}
use agmem.Words.{is_blank}
use agmem.Words.Trim.{trim_str}
use agmem.Chunk.{chunk}
use agmem.Hop.{contains}
use agmem.Service.{
  Outcome, done, failed, ErrorData, invalid, invalid_entry, invalid_space, user, ◌>>=◌,
}
use agmem.Store.{NewMemory, new_memory, NewChunk, NewEpisode}
use agmem.Float.{Float}
use agmem.Remember.{
  MemoryInput, EpisodeInput, Writing, max_memory_chars, max_episode_chars, max_title_chars,
  max_tags,
}

-- `raw.strip_prefix("memory:").unwrap_or(raw)`
abbrev pub bare_id : String → String
bare_id raw = elim (split_once raw) [
  | none ↦ raw
  | some (head, id) ↦ if str_eq head "memory" then id else raw
]

-- `places` are the indices that the message names.
unfoldable pub memory_id : List ℕ → String → Outcome MemoryId
memory_id places raw = elim (new_id (bare_id raw)) [
  | ok id ↦ done id
  | err e ↦ failed (invalid_entry places "supersedes: not a memory id")
]

-- The loop over `supersedes` from the one at `position` on: a repeated id is one closure.
unfoldable pub closures_from : ℕ → ℕ → List MemoryId → List String → Outcome (List MemoryId)
closures_from index position ids [] = done ids
closures_from index position ids (raw ∷ rest) = memory_id (index ∷ position ∷ []) raw >>= λ id.
    closures_from index (position + 1) (if contains ids id then ids else ids ++ id ∷ []) rest

abbrev pub kind_or : Kind → Option Kind → Kind
kind_or default none = default
kind_or default (some kind) = kind

abbrev pub is_summary : Option Kind → Bool
is_summary (some summary) = true
is_summary (some fact) = false
is_summary (some lesson) = false
is_summary (some instruction) = false
is_summary none = false

abbrev pub no_texts : {A : Type 0} → List A → Bool
no_texts [] = true
no_texts (x ∷ xs) = false

-- `title.map(trim).filter(non-empty)`
abbrev pub named : Option String → Option String
named none = none
named (some title) = let t = trim_str title in if str_eq t "" then none else some t

abbrev pub title_len : Option String → ℕ
title_len none = 0
title_len (some title) = len title

abbrev pub tags_of : List String → List String
tags_of tags = keep_if (λ tag. not (str_eq tag "")) (map trim_str tags)

abbrev trimmed : Option String → Option String
trimmed none = none
trimmed (some text) = some (trim_str text)

module _ {fl : Float} {Time : Type 0} (writing : Writing fl Time) where
  open fl use {F}

  abbrev pub stamp_or : ErrorData → Option String → Outcome (Option Time)
  stamp_or e none = done none
  stamp_or e (some raw) = elim (writing.parse_stamp raw) [
    | none ↦ failed e
    | some stamp ↦ done (some stamp)
  ]

  -- `MemoryInput::validated`
  unfoldable pub validated : ℕ → MemoryInput → Outcome (NewMemory F Time)
  validated index input =
      if is_blank input.content
      then failed (invalid_entry (index ∷ []) "content is empty")
      else if ltb max_memory_chars (length input.content)
      then failed (invalid_entry (index ∷ length input.content ∷ []) "content is too long")
      else if is_summary input.kind
      then failed (invalid_entry (index ∷ []) "a summary is written through `reflect`")
      else (do
        ids ← closures_from index 0 [] input.supersedes
        stamp ← stamp_or (invalid_entry (index ∷ []) "valid_from is no timestamp") input.valid_from
        let base = new_memory (kind_or fact input.kind) input.content
        done (record base {
          entities = input.entities;
          tags = input.tags;
          decay_class = input.decay_class;
          supersedes = ids;
          valid_from = stamp;
        }))

  -- The claims from the one at `index` on.
  unfoldable pub validated_all : ℕ → List MemoryInput → Outcome (List (NewMemory F Time))
  validated_all index [] = done []
  validated_all index (input ∷ inputs) = do
    memory ← validated index input
    rest ← validated_all (suc index) inputs
    done (memory ∷ rest)

  abbrev bare_chunk : Text → NewChunk F
  bare_chunk text = record { text = text; embedding = none }

  -- `EpisodeInput::validated`
  unfoldable pub validated_episode : EpisodeInput → Outcome (NewEpisode F Time)
  validated_episode input =
      let title = named input.title in
      let tags = tags_of input.tags in
      if is_blank input.content
      then failed (invalid "episode.content is empty")
      else if ltb max_episode_chars (length input.content)
      then failed (invalid_entry (length input.content ∷ []) "episode.content is too long")
      else if is_some input.title && not (is_some title)
      then failed (invalid "episode.title is empty")
      else if ltb max_title_chars (title_len title)
      then failed (invalid_entry (title_len title ∷ []) "episode.title is too long")
      else if is_some input.doc_kind && not (is_some title)
      then failed (invalid "episode.doc_kind needs episode.title")
      else if not (is_some input.doc_kind) && (not (no_texts input.tags) || is_some input.mime)
      then failed (invalid "episode.tags and episode.mime describe a document")
      else if ltb max_tags (length tags)
      then failed (invalid_entry (length tags ∷ []) "episode.tags has too many entries")
      else (do
        stamp ← stamp_or (invalid "episode.occurred_at is no timestamp") input.occurred_at
        done (record {
          content = input.content;
          occurred_at = stamp;
          session = input.session;
          chunks = map bare_chunk (chunk input.content);
          title = title;
          doc_kind = input.doc_kind;
          tags = tags;
          mime = trimmed input.mime;
        }))

  abbrev registered : SpaceName → Outcome SpaceName
  registered name =
      if str_eq name writing.space then done name else writing.ensure_space name >>= λ _. done name

  -- The space that a write lands in, registered if it is not the configured one.
  unfoldable pub resolve_space : Option String → Outcome SpaceName
  resolve_space none = done writing.space
  resolve_space (some name) =
      if str_eq name "current"
      then done writing.space
      else if str_eq name "user"
      then registered user
      else if str_eq name "all"
      then failed (invalid "a write lands in one space; `all` is read-only vocabulary")
      else elim (new_space name) [ err e ↦ failed (invalid_space e) | ok space ↦ registered space ]
