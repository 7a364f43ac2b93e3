-- ===== src/Model.antt =====
-- The domain types: crates/agmem-core/src/model.rs and error.rs. Names, ids and labels are native
-- texts; verbatim content is a list of code points, since the program cuts it by characters.
pub mod Enums
pub mod Names
pub mod Citation
use agmem.Prelude.{ℕ, String, Bool, Option, none, some, List, is_some}

-- Text as its characters.
abbrev pub Text : Type 0
Text = List ℕ

pub data CoreError : Type 0 where
  invalid_space_name : String → CoreError
  invalid_record_id : String → CoreError
  unknown_variant : String → String → CoreError

pub data Result {ℓ} (A : Type ℓ) : Type ℓ where
  ok : A → Result A
  err : CoreError → Result A

pub data Kind : Type 0 where
  fact lesson instruction summary : Kind

pub data DocKind : Type 0 where
  plan review report probe transcript other : DocKind

pub data DecayClass : Type 0 where
  pinned slow normal fast : DecayClass

pub data InvalidReason : Type 0 where
  superseded forgotten expired : InvalidReason

unfoldable pub default_decay_class : Kind → DecayClass
default_decay_class fact = normal
default_decay_class lesson = slow
default_decay_class summary = slow
default_decay_class instruction = pinned

-- `SpaceName`, `MemoryId`, `EpisodeId` and `ChunkId` are texts that their constructors let through.
abbrev pub SpaceName : Type 0
SpaceName = String

abbrev pub MemoryId : Type 0
MemoryId = String

abbrev pub EpisodeId : Type 0
EpisodeId = String

abbrev pub ChunkId : Type 0
ChunkId = String

pub data Source : Type 0 where
  episode : EpisodeId → Source
  agent : Source
  external : String → Source

pub data Derivation : Type 0 where
  memory : MemoryId → Derivation
  episode : EpisodeId → Derivation

pub record Writer : Type 0 where
  pub client : String
  pub client_version : Option String
  pub session : String
  pub tool : String

-- A stored claim; `F` is the type of its scores and `Time` that of its stamps.
pub record MemoryRecord (F Time : Type 0) : Type 0 where
  pub id : MemoryId
  pub space : SpaceName
  pub kind : Kind
  pub content : Text
  pub content_hash : String
  pub entities : List String
  pub tags : List String
  pub embedding : Option (List F)
  pub decay_class : DecayClass
  pub strength : F
  pub last_accessed : Time
  pub access_count : ℕ
  pub valid_from : Time
  pub invalid_at : Option Time
  pub invalid_reason : Option InvalidReason
  pub supersedes : List MemoryId
  pub superseded_by : Option MemoryId
  pub source : Source
  pub writer : Option Writer
  pub novelty : Option F
  pub derived_from : List Derivation
  pub created_at : Time

-- Verbatim text; with `doc_kind` it is a document.
pub record Episode (Time : Type 0) : Type 0 where
  pub id : EpisodeId
  pub space : SpaceName
  pub content : Text
  pub content_hash : String
  pub occurred_at : Time
  pub session : Option String
  pub created_at : Time
  pub title : Option String
  pub doc_kind : Option DocKind
  pub tags : List String
  pub mime : Option String

abbrev pub is_document : {Time : Type 0} → Episode Time → Bool
is_document e = is_some e.doc_kind

pub record EpisodeChunk (F Time : Type 0) : Type 0 where
  pub id : ChunkId
  pub episode : EpisodeId
  pub space : SpaceName
  pub text : Text
  pub position : ℕ
  pub occurred_at : Option Time
  pub embedding : Option (List F)

-- What a query of the store finds: `Hit` and `Candidate` of crates/agmem-store/src/repo/read.rs.
pub data Hit (F Time : Type 0) : Type 0 where
  memory : MemoryRecord F Time → Hit F Time
  chunk : EpisodeChunk F Time → Hit F Time

pub record Candidate (F Time : Type 0) : Type 0 where
  pub rrf : F
  pub similarity : Option F
  pub hit : Hit F Time
