-- ===== src/Store.antt =====
-- What a write hands to the store and what it reports: the types of
-- crates/agmem-store/src/repo/write.rs and of its rows in crates/agmem-store/src/types.rs, and
-- `Neighbour` of repo/read.rs.
pub mod Insert
pub mod Retry
pub mod Closures
use agmem.Prelude.{ℕ, String, Bool, true, false, Option, none, some, List, []}
use agmem.Model.{
  Text, SpaceName, MemoryId, EpisodeId, Kind, DocKind, DecayClass, Source, Derivation, Writer,
  CoreError,
}

pub record NewMemory (F Time : Type 0) : Type 0 where
  pub kind : Kind
  pub content : Text
  pub entities : List String
  pub tags : List String
  pub embedding : Option (List F)
  pub decay_class : Option DecayClass
  pub valid_from : Option Time
  pub supersedes : List MemoryId
  pub source : Option Source
  pub derived_from : List Derivation
  pub novelty : Option F

-- `NewMemory::new`
abbrev pub new_memory : {F Time : Type 0} → Kind → Text → NewMemory F Time
new_memory kind content = record {
  kind = kind;
  content = content;
  entities = [];
  tags = [];
  embedding = none;
  decay_class = none;
  valid_from = none;
  supersedes = [];
  source = none;
  derived_from = [];
  novelty = none;
}

pub record NewChunk (F : Type 0) : Type 0 where
  pub text : Text
  pub embedding : Option (List F)

pub record NewEpisode (F Time : Type 0) : Type 0 where
  pub content : Text
  pub occurred_at : Option Time
  pub session : Option String
  pub chunks : List (NewChunk F)
  pub title : Option String
  pub doc_kind : Option DocKind
  pub tags : List String
  pub mime : Option String

pub record Batch (F Time : Type 0) : Type 0 where
  pub space : SpaceName
  pub episode : Option (NewEpisode F Time)
  pub memories : List (NewMemory F Time)
  pub writer : Writer

pub data Written (I : Type 0) : Type 0 where
  created : I → Written I
  duplicate : I → Written I

abbrev pub is_created : {I : Type 0} → Written I → Bool
is_created (created id) = true
is_created (duplicate id) = false

abbrev pub into_id : {I : Type 0} → Written I → I
into_id (created id) = id
into_id (duplicate id) = id

pub record AlreadyClosed : Type 0 where
  pub id : MemoryId
  pub reason : Option String
  pub by : Option MemoryId

pub record BatchOutcome : Type 0 where
  pub episode : Option (Written EpisodeId)
  pub memories : List (Written MemoryId)
  pub superseded : List MemoryId
  pub already_closed : List AlreadyClosed

pub record Neighbour (F : Type 0) : Type 0 where
  pub id : MemoryId
  pub content : Text
  pub similarity : F

-- One guarded insert's report, and a batch's.
pub record WriteRow : Type 0 where
  pub id : String
  pub created : Bool

pub record BatchRow : Type 0 where
  pub episode : Option WriteRow
  pub memories : List WriteRow

-- The errors that a write meets; `db` carries the engine's text.
pub data StoreError : Type 0 where
  db : String → StoreError
  unknown_memory : SpaceName → MemoryId → StoreError
  malformed_row : CoreError → StoreError
  unexpected_response : String → StoreError

-- `Result<A, StoreError>`
pub data Stored (A : Type 0) : Type 0 where
  got : A → Stored A
  lost : StoreError → Stored A

infixl 5 ◌>>=◌
abbrev pub ◌>>=◌ : {A B : Type 0} → Stored A → (A → Stored B) → Stored B
got a >>= f = f a
lost e >>= f = lost e
