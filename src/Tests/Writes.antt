-- ===== src/Tests/Writes.antt =====
-- Writes that tools/remember.rs and repo/write.rs answer.
use agmem.Prelude.{
  ℕ, zero, suc, ◌≡◌, refl, String, true, none, some, List, [], ◌∷◌, map, All, length,
}
use agmem.Model.{Text, fact, Writer}
use agmem.Model.Names.{new_id, is_ulid}
use agmem.Service.{done}
use agmem.Words.{is_white}
use agmem.Chunk.{trim_start, trim_end}
use agmem.Sort.{sort_by, insert}
use agmem.Store.{
  NewMemory, NewEpisode, new_memory, Batch, BatchOutcome, BatchRow, WriteRow, created,
  AlreadyClosed, Neighbour, db, got, lost,
}
use agmem.Store.Insert.{
  Engine, contains_text, is_write_race, written, written_all, closes, superseded_by, settle,
  insert_batch_once, attempt, retries, insert_batch,
}
use agmem.Store.Retry.{Decides, insert_batch-Decides}
use agmem.Store.Closures.{MayClose, batch_closes}
use agmem.Dedup.{bge_small, novelty, is_near_duplicate, is_correction_candidate}
use agmem.Remember.{MemoryInput, RememberParams, RememberResult, Writing}
use agmem.Remember.Validate.{closures_from, validated, validated_all, resolve_space}
use agmem.Remember.Gate.{Entries, embed, gated_from, probes, judge, judge_all, gate, unmeasured}
use agmem.Remember.Request.{diff, send, write, run, is_blocked}
use agmem.Remember.Answer.{Accounted, remember_accounts}
use agmem.Remember.Held.{gate_exact, restates}
use agmem.Remember.Embedded.{embed_each, embedded_each}
use agmem.Tests.Fixed.{Fixed, fixed, at}

abbrev pub first_id : String
first_id = "01M145SMNET1XRYA713EWAQTD3"

abbrev second_id : String
second_id = "01M145SMNET1XRYA713EWAQTD4"

abbrev pub old_id : String
old_id = "01M145SMNET1XRYA713EWAQTD5"

abbrev pub writer : Writer
writer = record { client = "test"; client_version = none; session = "s"; tool = "remember" }

abbrev row : NewMemory Fixed ℕ → WriteRow
row m = record { id = first_id; created = true }

abbrev report : Batch Fixed ℕ → BatchRow
report batch = record { episode = none; memories = map row batch.memories }

abbrev pub past : AlreadyClosed
past = record { id = second_id; reason = some "forgotten"; by = none }

-- An engine that commits, and one that loses a race.
abbrev quiet : Engine Fixed ℕ
quiet = record {
  ensure_memories_exist = λ space ids. got tt;
  closed_memories = λ space ids. got (past ∷ []);
  commit = λ batch. got (some (report batch));
}

abbrev racing : Engine Fixed ℕ
racing = record quiet { commit = λ batch. lost (db "the mem_hash_live index already holds it") }

-- The third attempt goes well.
abbrev pub third_goes : ℕ → Engine Fixed ℕ
third_goes zero = racing
third_goes (suc zero) = racing
third_goes (suc (suc n)) = quiet

abbrev correction : NewMemory Fixed ℕ
correction =
    let base = new_memory fact (97 ∷ []) in record base { supersedes = second_id ∷ old_id ∷ [] }

abbrev batch : Batch Fixed ℕ
batch = record { space = "work"; episode = none; memories = correction ∷ []; writer = writer }

abbrev written_once : BatchOutcome
written_once = record {
  episode = none;
  memories = created first_id ∷ [];
  superseded = old_id ∷ [];
  already_closed = past ∷ [];
}

quiet_writes : insert_batch_once quiet batch ≡ got written_once
unfolding insert_batch_once settle written_all written new_id is_ulid superseded_by closes
quiet_writes = refl

third_attempt_writes : insert_batch third_goes batch ≡ got written_once
unfolding insert_batch attempt insert_batch_once settle written_all written new_id is_ulid
    superseded_by closes is_write_race contains_text
third_attempt_writes = refl

insert_batch-Decides_example : Decides third_goes batch 0 retries (insert_batch third_goes batch)
insert_batch-Decides_example = insert_batch-Decides third_goes batch

batch_closes_example :
    (length written_once.memories ≡ length batch.memories)
    × All (MayClose (past ∷ []) (second_id ∷ old_id ∷ [])) (old_id ∷ [])
batch_closes_example = batch_closes quiet batch written_once quiet_writes

abbrev entry : Text → MemoryInput
entry content = record {
  content = content;
  kind = none;
  entities = [];
  tags = [];
  decay_class = none;
  supersedes = [];
  valid_from = none;
}

-- The vector of a text is its length; what is two characters long has a near duplicate, and what is
-- one long a claim that it may correct.
abbrev vector : Text → List Fixed
vector text = at (length text) ∷ []

abbrev neighbour : ℕ → Neighbour Fixed
neighbour s = record { id = old_id; content = 120 ∷ []; similarity = at s }

abbrev neighbours : List Fixed → List (Neighbour Fixed)
neighbours (at (suc zero) ∷ vs) = neighbour 800 ∷ []
neighbours (at (suc (suc zero)) ∷ vs) = neighbour 960 ∷ []
neighbours vs = []

abbrev pub writing : Writing fixed ℕ
writing = record {
  space = "work";
  ensure_space = λ space. done tt;
  dim = 1;
  embed_passages = λ texts. done (map vector texts);
  thresholds = bge_small fixed;
  nearest_live = λ space vectors. got (map neighbours vectors);
  engine = third_goes;
  message = λ e. "refused";
  parse_stamp = λ text. none;
}

abbrev params : RememberParams
params = record {
  space = none;
  memories = entry (97 ∷ []) ∷ entry (98 ∷ 98 ∷ []) ∷ [];
  episode = none;
}

abbrev answered : RememberResult Fixed
answered = record {
  created = first_id ∷ [];
  duplicates = record { id = old_id; of = 1; content = 120 ∷ []; similarity = at 960 } ∷ [];
  related = record { id = old_id; of = 0; content = 120 ∷ []; similarity = at 800 } ∷ [];
  superseded = [];
  already_closed = past ∷ [];
  episode = none;
}

write_is_answered : run writing writer params ≡ done answered
unfolding run resolve_space validated_all validated closures_from write embed gated_from probes gate
    judge_all judge is_near_duplicate is_correction_candidate novelty send diff sort_by insert
    insert_batch attempt insert_batch_once settle written_all written new_id is_ulid superseded_by
    closes is_write_race contains_text is_white trim_start trim_end
write_is_answered = refl

remember_accounts_example : Accounted 2 answered
remember_accounts_example = remember_accounts writing writer params answered write_is_answered

abbrev embedded : List (NewMemory Fixed ℕ)
embedded =
    let base = new_memory fact (98 ∷ 98 ∷ []) in
    correction ∷ record base { embedding = some (at 2 ∷ []) } ∷ []

abbrev second_claim : NewMemory Fixed ℕ
second_claim =
    let base = new_memory fact (98 ∷ 98 ∷ []) in record base { embedding = some (at 2 ∷ []) }

gate_exact_example :
    is_blocked
      (gate
        (bge_small fixed)
        (gated_from 0 embedded)
        (map neighbours (probes embedded (gated_from 0 embedded)))
        (unmeasured embedded)).blocked
      1
    ≡ restates (bge_small fixed) neighbours second_claim
gate_exact_example = gate_exact (bge_small fixed) neighbours embedded 1 second_claim refl

abbrev chunked : NewEpisode Fixed ℕ
chunked = record {
  content = 97 ∷ 98 ∷ 99 ∷ [];
  occurred_at = none;
  session = none;
  chunks = record { text = 97 ∷ 98 ∷ 99 ∷ []; embedding = none } ∷ [];
  title = none;
  doc_kind = none;
  tags = [];
  mime = none;
}

abbrev entries : Entries Fixed ℕ
entries = record { memories = correction ∷ []; episode = some chunked }

embed_each_example : embed writing entries ≡ done (embedded_each vector entries)
embed_each_example = embed_each writing vector entries refl (λ texts. refl)
