-- ===== src/Store/Insert.antt =====
-- One batch: `insert_batch` and `insert_batch_once` of crates/agmem-store/src/repo/write.rs. `Engine`
-- stands for the queries that it sends to SurrealDB.
use Prim.Native.String.{[] as end_of_text, ◌∷◌ as char_of}
use text.Mathlib.Text.{starts_with}
use agmem.Prelude.{
  ℕ, zero, suc, String, Bool, false, ◌||◌, not, Option, none, some, List, [], ◌∷◌, ◌++◌, map,
  length, any, str_eq, ◌==◌, keep_if, if◌then◌else◌,
}
use agmem.Model.{SpaceName, MemoryId, ok, err}
use agmem.Model.Names.{new_id}
use agmem.Store.{
  NewMemory, Batch, Written, created, duplicate, AlreadyClosed, BatchOutcome, WriteRow, BatchRow,
  db, malformed_row, unexpected_response, Stored, got, lost, ◌>>=◌,
}

-- The store as one attempt finds it: the two checks, and the transaction.
pub record Engine (F Time : Type 0) : Type 0 where
  pub ensure_memories_exist : SpaceName → List MemoryId → Stored (Unit {0})
  pub closed_memories : SpaceName → List MemoryId → Stored (List AlreadyClosed)
  pub commit : Batch F Time → Stored (Option BatchRow)

-- `text.contains(part)`
unfoldable pub contains_text : String → String → Bool
contains_text end_of_text part = starts_with "" part
contains_text (char_of c s) part = starts_with (char_of c s) part || contains_text s part

unfoldable pub is_write_race : String → Bool
unfolding contains_text
is_write_race text =
    contains_text text "mem_hash_live"
    || contains_text text "episode_hash"
    || contains_text text "failed transaction"
    || contains_text text "Cannot COMMIT"

abbrev pub is_closed : List AlreadyClosed → MemoryId → Bool
is_closed closed id = any (λ c. str_eq c.id id) closed

-- `written(row, MemoryId::new)`
unfoldable pub written : WriteRow → Stored (Written String)
written row = elim (new_id row.id) [
  | err e ↦ lost (malformed_row e)
  | ok id ↦ got (if row.created then created id else duplicate id)
]

unfoldable pub written_all : List WriteRow → Stored (List (Written String))
written_all [] = got []
written_all (row ∷ rows) = written row >>= λ w. written_all rows >>= λ ws. got (w ∷ ws)

abbrev pub written_maybe : Option WriteRow → Stored (Option (Written String))
written_maybe none = got none
written_maybe (some row) = written row >>= λ w. got (some w)

abbrev pub row_or_lost : Option BatchRow → Stored BatchRow
row_or_lost none = lost (unexpected_response "the batch reported nothing")
row_or_lost (some row) = got row

-- An error that is worth another attempt.
abbrev pub is_race : Stored BatchOutcome → Bool
is_race (got outcome) = false
is_race (lost (db text)) = is_write_race text
is_race (lost e) = false

abbrev pub retries : ℕ
retries = 2

module _ {F Time : Type 0} where
  abbrev pub ids_superseded : List (NewMemory F Time) → List MemoryId
  ids_superseded [] = []
  ids_superseded (m ∷ memories) = m.supersedes ++ ids_superseded memories

  -- The targets that are closed already are taken out.
  abbrev pub keep_live : List AlreadyClosed → NewMemory F Time → NewMemory F Time
  keep_live closed m = record m {
    supersedes = keep_if (λ id. not (is_closed closed id)) m.supersedes;
  }

  -- What a written claim closes: a duplicate does not close itself.
  unfoldable pub closes : NewMemory F Time → Written MemoryId → List MemoryId
  closes m (created id) = m.supersedes
  closes m (duplicate dup) = keep_if (λ old. not (str_eq old dup)) m.supersedes

  -- `zip` and `flat_map`
  unfoldable pub superseded_by : List (NewMemory F Time) → List (Written MemoryId) → List MemoryId
  superseded_by [] outcomes = []
  superseded_by (m ∷ memories) [] = []
  superseded_by (m ∷ memories) (w ∷ outcomes) = closes m w ++ superseded_by memories outcomes

  abbrev pub same_number : List WriteRow → List (NewMemory F Time) → Stored (Unit {0})
  same_number rows memories =
      if length rows == length memories
      then got tt
      else lost (unexpected_response "the batch reported a different number of memories")

  -- What the transaction reported, as the outcome.
  unfoldable pub settle :
      List AlreadyClosed → List (NewMemory F Time) → BatchRow → Stored BatchOutcome
  settle already_closed memories row = do
    counted ← same_number row.memories memories
    outcomes ← written_all row.memories
    episode ← written_maybe row.episode
    got (record {
      episode = episode;
      memories = outcomes;
      superseded = superseded_by memories outcomes;
      already_closed = already_closed;
    })

  unfoldable pub insert_batch_once : Engine F Time → Batch F Time → Stored BatchOutcome
  insert_batch_once engine batch = do
    let targets = ids_superseded batch.memories
    exist ← engine.ensure_memories_exist batch.space targets
    already_closed ← engine.closed_memories batch.space targets
    let memories = map (keep_live already_closed) batch.memories
    reported ← engine.commit (record batch { memories = memories })
    row ← row_or_lost reported
    settle already_closed memories row

  -- The loop, with the attempts left after this one. `engine n` is the store that attempt `n` finds.
  unfoldable pub attempt : (ℕ → Engine F Time) → ℕ → ℕ → Batch F Time → Stored BatchOutcome
  attempt engine n zero batch = insert_batch_once (engine n) batch
  attempt engine n (suc left) batch =
      let again = attempt engine (suc n) left batch in
      let outcome = insert_batch_once (engine n) batch in if is_race outcome then again else outcome

  unfoldable pub insert_batch : (ℕ → Engine F Time) → Batch F Time → Stored BatchOutcome
  insert_batch engine batch = attempt engine 0 retries batch
