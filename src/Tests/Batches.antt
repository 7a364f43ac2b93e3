-- ===== src/Tests/Batches.antt =====
-- Re-embedding that reindex.rs does, one row in a batch.
use agmem.Prelude.{ℕ, ◌-◌, ◌≡◌, ◌⊎◌, refl, arith, true, false, none, some, [], ◌∷◌, map}
use agmem.Reindex.{
  Backend, Passage, Target, complete, gave_up, embed_batch, write_vectors, reembed, refused,
  execute, drain_from, drain,
}
use agmem.Reindex.Ends.{Settled, Counted, reembed_ends, drain-Settled}

abbrev row : Passage
row = record { id = "A"; text = 97 ∷ [] }

-- The batch `n` leaves all but `n + 1` of two rows.
abbrev backend : ℕ → Backend ℕ
backend n = record {
  pending = λ limit. some (row ∷ []);
  embed_passages = λ texts. some (map (λ text. []) texts);
  update = λ rows. some tt;
  pending_after = some (1 - n);
}

-- A model that answers nothing.
abbrev silent : ℕ → Backend ℕ
silent n = let b = backend n in record b { embed_passages = λ texts. none }

abbrev target : Target
target = record {
  model = "bge-small";
  dim = 384;
  matches = some true;
  reset_vectors = λ dim. some tt;
  set_embedder = some tt;
  pending_count = some 2;
}

two_rows_are_embedded :
    execute target backend
    ≡ some (record { model = "bge-small"; dim = 384; embedded = 2; moved = false })
unfolding execute reembed embed_batch write_vectors
two_rows_are_embedded = refl

-- No row comes back for the two that were counted.
abbrev idle : ℕ → Backend ℕ
idle n = let b = backend n in record b { pending = λ limit. some [] }

two_rows_are_reported :
    execute target idle
    ≡ some (record { model = "bge-small"; dim = 384; embedded = 2; moved = false })
unfolding execute reembed embed_batch
two_rows_are_reported = refl

rows_are_drained : drain backend 2 ≡ complete
unfolding drain drain_from embed_batch write_vectors
rows_are_drained = refl

drain_gives_up : drain silent 2 ≡ gave_up 2
unfolding drain drain_from embed_batch write_vectors
drain_gives_up = refl

reembed_ends_example :
    (reembed backend 3 0 2 0 ≡ refused) ⊎ Counted backend 2 0 (reembed backend 3 0 2 0)
reembed_ends_example = reembed_ends backend 3 0 2 0 (omega arith)

drain-Settled_example : Settled silent 2 (drain silent 2)
drain-Settled_example = drain-Settled silent 2
