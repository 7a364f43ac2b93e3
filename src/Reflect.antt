-- ===== src/Reflect.antt =====
-- The insight verb: crates/agmem-server/src/tools/reflect.rs.
pub mod Cited
pub mod Evidence
use agmem.Prelude.{
  ℕ, zero, suc, ◌+◌, String, Bool, true, false, ◌&&◌, not, Option, none, some, List, [], ◌∷◌, ◌++◌,
  map, any, ltb, str_eq, is_some, if◌then◌else◌,
}
use agmem.Model.{
  Text, SpaceName, MemoryId, Kind, lesson, fact, instruction, summary, MemoryRecord, Derivation,
  memory, episode, Writer,
}
use agmem.Model.Names.{split_once, derivation_to_string}
use agmem.Words.{is_blank}
use agmem.Words.Trim.{trim_str}
use agmem.Service.{Outcome, done, failed, ErrorData, invalid, invalid_about, internal, both, ◌>>=◌}
use agmem.Hop.{contains}
use agmem.Float.{Float}
use agmem.Dedup.{Thresholds, is_near_duplicate, is_correction_candidate}
use agmem.Store.{
  NewMemory, new_memory, Batch, BatchOutcome, Written, is_created, into_id, AlreadyClosed,
  Neighbour, Stored,
}
use agmem.Store.Insert.{insert_batch}
use agmem.Remember.{Writing}
use agmem.Remember.Validate.{memory_id, no_texts, resolve_space, kind_or}
use agmem.Remember.Gate.{measured}
use agmem.Remember.Request.{stored}

pub record ReflectParams : Type 0 where
  pub space : Option String
  pub insight : Text
  pub derived_from : List String
  pub kind : Option Kind
  pub entities : List String
  pub tags : List String
  pub supersedes : List String

pub record RelatedClaim (F : Type 0) : Type 0 where
  pub id : String
  pub content : Text
  pub similarity : F

-- `note` is the claim that the message names.
pub record ReflectResult (F : Type 0) : Type 0 where
  pub id : String
  pub created : Bool
  pub content : Text
  pub derived_from : List String
  pub related : List (RelatedClaim F)
  pub superseded : List String
  pub already_closed : List AlreadyClosed
  pub note : Option MemoryId

-- What a write reaches, with the two lookups of a reflection; `history_chain` is `none` where the
-- store does not answer.
pub record Reflecting (fl : Float) (Time : Type 0) : Type 0 where
  pub writing : Writing fl Time
  pub locate : List SpaceName → List String → Stored (List (Option Derivation))
  pub history_chain : SpaceName → MemoryId → Option (List (MemoryRecord fl.F Time))

abbrev grammar : String → ErrorData
grammar raw =
    invalid_about "derived_from takes ids as `memory:<id>`, `episode:<id>`, or bare" (raw ∷ [])

-- The bare id and the table that the caller claimed.
unfoldable pub asked_one : String → Outcome (String × Option String)
asked_one raw =
    let text = trim_str raw in
    elim (split_once text) [
      | none ↦ done (text, none)
      | some (table, id) ↦
          if any (λ t. str_eq t table) ("memory" ∷ "episode" ∷ [])
          then done (id, some table)
          else failed (grammar text)
    ]

unfoldable pub asked_all : List String → Outcome (List (String × Option String))
asked_all [] = done []
asked_all (raw ∷ rest) = asked_one raw >>= λ one. asked_all rest >>= λ others. done (one ∷ others)

abbrev pub derivation_eq : Derivation → Derivation → Bool
derivation_eq (memory a) (memory b) = str_eq a b
derivation_eq (memory a) (episode b) = false
derivation_eq (episode a) (memory b) = false
derivation_eq (episode a) (episode b) = str_eq a b

abbrev pub cites : List Derivation → Derivation → Bool
cites cited d = any (λ c. derivation_eq c d) cited

abbrev table_of : Derivation → String
table_of (memory id) = "memory"
table_of (episode id) = "episode"

-- The table that the caller claimed, if any, is the one that the id names.
unfoldable pub check_table : String → Option String → Derivation → Outcome (Unit {0})
check_table id none d = done tt
check_table id (some table) d =
    if str_eq table (table_of d)
    then done tt
    else failed (invalid_about "derived_from: that id names another table" (table ∷ id ∷ []))

abbrev located : List SpaceName → String → Option Derivation → Outcome Derivation
located names id none = failed (invalid_about "derived_from: no memory or episode" (id ∷ names))
located names id (some d) = done d

abbrev pub add_citation : List Derivation → Derivation → List Derivation
add_citation cited d = if cites cited d then cited else cited ++ d ∷ []

-- `asked.iter().zip(found)`
unfoldable pub cite_all :
    List SpaceName
    → List (String × Option String)
    → List (Option Derivation)
    → List Derivation
    → Outcome (List Derivation)
cite_all names [] found cited = done cited
cite_all names ((id, claimed) ∷ asked) [] cited = done cited
cite_all names ((id, claimed) ∷ asked) (resolved ∷ found) cited = located names id resolved >>= λ d.
    check_table id claimed d >>= λ _. cite_all names asked found (add_citation cited d)

abbrev pub id_asked : String × Option String → String
id_asked (id, claimed) = id

-- The loop over `supersedes` from the one at `position` on.
unfoldable pub replaced : ℕ → List MemoryId → List String → Outcome (List MemoryId)
replaced position ids [] = done ids
replaced position ids (raw ∷ rest) = memory_id (position ∷ []) raw >>= λ id.
    replaced (position + 1) (if contains ids id then ids else ids ++ id ∷ []) rest

abbrev is_summary : Kind → Bool
is_summary summary = true
is_summary kind = false

-- How the neighbours end: with one that says the same, or with those that may be corrected.
pub data Probed (F : Type 0) : Type 0 where
  restated : Neighbour F → Probed F
  fresh : List (RelatedClaim F) → Probed F

abbrev pub flatten : {A : Type 0} → List (List A) → List A
flatten [] = []
flatten (xs ∷ xss) = xs ++ flatten xss

abbrev first_list : {A : Type 0} → List (List A) → List A
first_list [] = []
first_list (xs ∷ xss) = xs

abbrev pub first_written : {A : Type 0} → List A → Outcome A
first_written [] = failed (internal "the store reported no memory for a batch of one")
first_written (a ∷ more) = done a

abbrev last_vector : {A : Type 0} → List A → Option A
last_vector [] = none
last_vector (a ∷ []) = some a
last_vector (a ∷ (b ∷ more)) = last_vector (b ∷ more)

module _ {fl : Float} {Time : Type 0} (reflecting : Reflecting fl Time) (writer : Writer) where
  open fl use {F}

  abbrev writing : Writing fl Time
  writing = reflecting.writing

  unfoldable pub resolve : SpaceName → List String → Outcome (List Derivation)
  resolve space requested =
      if no_texts requested then failed (invalid "derived_from is empty") else (do
        asked ← asked_all requested
        found ← stored writing.message (reflecting.locate (both space) (map id_asked asked))
        cite_all (both space) asked found [])

  abbrev uncited_link : MemoryId → List (MemoryRecord F Time) → Option MemoryId
  uncited_link id [] = none
  uncited_link id (link ∷ chain) =
      let rest = uncited_link id chain in
      if str_eq link.id id then (if no_texts link.derived_from then some id else none) else rest

  unfoldable pub uncited : SpaceName → MemoryId → Option MemoryId
  uncited space id = elim (reflecting.history_chain space id) [
    | none ↦ none
    | some chain ↦ uncited_link id chain
  ]

  abbrev pub embed_one : Text → Outcome (Option (List F))
  embed_one insight =
      if ltb 0 writing.dim
      then (writing.embed_passages (insight ∷ []) >>= λ vectors. done (last_vector vectors))
      else done none

  abbrev related_to : Neighbour F → RelatedClaim F
  related_to n = record { id = n.id; content = n.content; similarity = n.similarity }

  -- The related claims after a neighbour that ends nothing.
  abbrev probe_next : Bool → Neighbour F → List (RelatedClaim F) → List (RelatedClaim F)
  probe_next passed_over n related =
      if not passed_over && is_correction_candidate fl writing.thresholds n.similarity
      then related ++ related_to n ∷ []
      else related

  -- The neighbours, the closest first; a summary passes over what it cites.
  unfoldable pub probe :
      Kind → List Derivation → List (Neighbour F) → List (RelatedClaim F) → Probed F
  probe kind cited [] related = fresh related
  probe kind cited (n ∷ neighbours) related =
      let passed_over = is_summary kind && cites cited (memory n.id) in
      let rest = probe kind cited neighbours (probe_next passed_over n related) in
      if not passed_over && is_near_duplicate fl writing.thresholds n.similarity
      then restated n
      else rest

  abbrev pub near : SpaceName → Option (List F) → Bool → Outcome (List (List (Neighbour F)))
  near space none free = done []
  near space (some vector) false = done []
  near space (some vector) true = stored writing.message (writing.nearest_live space (vector ∷ []))

  abbrev not_written : SpaceName → Neighbour F → ReflectResult F
  not_written space n = record {
    id = n.id;
    created = false;
    content = n.content;
    derived_from = [];
    related = [];
    superseded = [];
    already_closed = [];
    note = uncited space n.id;
  }

  abbrev pub answer :
      SpaceName
      → Text
      → List Derivation
      → List (RelatedClaim F)
      → BatchOutcome
      → Written MemoryId
      → ReflectResult F
  answer space insight cited related outcome written =
      let created = is_created written in
      record {
        id = into_id written;
        created = created;
        content = insight;
        derived_from = if created then map derivation_to_string cited else [];
        related = if created then related else [];
        superseded = outcome.superseded;
        already_closed = outcome.already_closed;
        note = if created then none else uncited space (into_id written);
      }

  abbrev pub batch_of_one : SpaceName → NewMemory F Time → Batch F Time
  batch_of_one space m = record {
    space = space;
    episode = none;
    memories = m ∷ [];
    writer = writer;
  }

  -- One row, one transaction.
  unfoldable pub send :
      SpaceName → NewMemory F Time → List Derivation → Probed F → Outcome (ReflectResult F)
  send space m cited (restated n) = done (not_written space n)
  send space m cited (fresh related) = do
    outcome ← stored writing.message (insert_batch writing.engine (batch_of_one space m))
    written ← first_written outcome.memories
    done (answer space m.content cited related outcome written)

  abbrev insight_of :
      ReflectParams
      → List Derivation
      → List MemoryId
      → Option (List F)
      → List (List (Neighbour F))
      → NewMemory F Time
  insight_of params cited ids vector found =
      let base = new_memory (kind_or lesson params.kind) params.insight in
      record base {
        entities = params.entities;
        tags = params.tags;
        derived_from = cited;
        supersedes = ids;
        embedding = vector;
        novelty = measured fl (first_list found);
      }

  -- The citations stand: the ids it replaces, the vector, the gate and the write.
  unfoldable pub conclude : SpaceName → ReflectParams → List Derivation → Outcome (ReflectResult F)
  conclude space params cited = do
    ids ← replaced 0 [] params.supersedes
    vector ← embed_one params.insight
    found ← near space vector (no_texts ids)
    send space (insight_of params cited ids vector found) cited
        (probe (kind_or lesson params.kind) cited (flatten found) [])

  unfoldable pub run : ReflectParams → Outcome (ReflectResult F)
  run params = do
    space ← resolve_space writing params.space
    if is_blank params.insight
        then failed (invalid "insight is empty")
        else (do cited ← resolve space params.derived_from; conclude space params cited)
