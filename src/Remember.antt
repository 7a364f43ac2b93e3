-- ===== src/Remember.antt =====
-- The write verb: crates/agmem-server/src/tools/remember.rs, with the helpers that it
-- takes from tools/mod.rs. Here the requests, the answer and what a write reaches.
pub mod Validate
pub mod Gate
pub mod Request
pub mod Accounts
pub mod Settled
pub mod Places
pub mod Held
pub mod Embedded
pub mod Answer
use agmem.Prelude.{ℕ, String, Option, List}
use agmem.Model.{Text, SpaceName, Kind, DocKind, DecayClass}
use agmem.Service.{Outcome}
use agmem.Store.{AlreadyClosed, Neighbour, StoreError, Stored}
use agmem.Store.Insert.{Engine}
use agmem.Float.{Float}
use agmem.Dedup.{Thresholds}

pub record MemoryInput : Type 0 where
  pub content : Text
  pub kind : Option Kind
  pub entities : List String
  pub tags : List String
  pub decay_class : Option DecayClass
  pub supersedes : List String
  pub valid_from : Option String

pub record EpisodeInput : Type 0 where
  pub content : Text
  pub occurred_at : Option String
  pub session : Option String
  pub title : Option String
  pub doc_kind : Option DocKind
  pub tags : List String
  pub mime : Option String

pub record RememberParams : Type 0 where
  pub space : Option String
  pub memories : List MemoryInput
  pub episode : Option EpisodeInput

-- A neighbour that a claim restates, or one that it may correct; `of` is the claim's place.
pub record Duplicate (F : Type 0) : Type 0 where
  pub id : String
  pub of : ℕ
  pub content : Text
  pub similarity : F

pub record Related (F : Type 0) : Type 0 where
  pub id : String
  pub of : ℕ
  pub content : Text
  pub similarity : F

pub record RememberResult (F : Type 0) : Type 0 where
  pub created : List String
  pub duplicates : List (Duplicate F)
  pub related : List (Related F)
  pub superseded : List String
  pub already_closed : List AlreadyClosed
  pub episode : Option String

-- The configured space, the embedder and the store that a write reaches.
pub record Writing (fl : Float) (Time : Type 0) : Type 0 where
  pub space : SpaceName
  pub ensure_space : SpaceName → Outcome (Unit {0})
  pub dim : ℕ
  pub embed_passages : List Text → Outcome (List (List fl.F))
  pub thresholds : Thresholds fl
  pub nearest_live : SpaceName → List (List fl.F) → Stored (List (List (Neighbour fl.F)))
  -- the store that each attempt of `insert_batch` finds, and `StoreError::to_string`
  pub engine : ℕ → Engine fl.F Time
  pub message : StoreError → String
  pub parse_stamp : String → Option Time

abbrev pub max_memory_chars : ℕ
max_memory_chars = 10000

abbrev pub max_episode_chars : ℕ
max_episode_chars = 100000

abbrev pub max_title_chars : ℕ
max_title_chars = 200

abbrev pub max_tags : ℕ
max_tags = 16
