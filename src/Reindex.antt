-- ===== src/Reindex.antt =====
-- Re-embedding a store: `execute`, `embed_batch` and `drain` of crates/agmem-server/src/reindex.rs, and
-- `write_vectors` of crates/agmem-store/src/repo/reindex.rs. `none` is an error of any kind.
pub mod Ends
use agmem.Prelude.{
  ℕ, zero, suc, ◌+◌, ◌-◌, ◌*◌, String, Bool, true, false, ◌||◌, Option, none, some, ◌>>=◌, List, [],
  ◌∷◌, map, length, ltb, leb, ◌==◌, if◌then◌else◌,
}
use agmem.Model.{Text}
use agmem.Remember.Validate.{no_texts}

abbrev pub batch_size : ℕ
batch_size = 128

abbrev pub drain_batch : ℕ
drain_batch = 16

abbrev pub drain_give_up : ℕ
drain_give_up = 5

pub record Passage : Type 0 where
  pub id : String
  pub text : Text

pub record Report : Type 0 where
  pub model : String
  pub dim : ℕ
  pub embedded : ℕ
  pub moved : Bool

-- The store and the model as one batch finds them: `update` is the statement that writes vectors,
-- and `pending_after` the count of the rows that then have none.
pub record Backend (F : Type 0) : Type 0 where
  pub pending : ℕ → Option (List Passage)
  pub embed_passages : List Text → Option (List (List F))
  pub update : List (String × List F) → Option (Unit {0})
  pub pending_after : Option ℕ

-- The model's name and width, and what `execute` does before its loop; `matches` tells whether the
-- store belongs to that model.
pub record Target : Type 0 where
  pub model : String
  pub dim : ℕ
  pub matches : Option Bool
  pub reset_vectors : ℕ → Option (Unit {0})
  pub set_embedder : Option (Unit {0})
  pub pending_count : Option ℕ

-- How the loop of `execute` ends: with the number of rows embedded, or with an error.
pub data Looped : Type 0 where
  finished : ℕ → Looped
  refused : Looped
  out_of_fuel : Looped

-- How `drain` ends: a batch answers that no row is left, or some are left pending.
pub data Drained : Type 0 where
  complete : Drained
  gave_up : ℕ → Drained
  no_fuel : Drained

abbrev report_of : Target → Bool → Looped → Option Report
report_of target moved (finished embedded) =
    some (record { model = target.model; dim = target.dim; embedded = embedded; moved = moved })
report_of target moved refused = none
report_of target moved out_of_fuel = none

abbrev moving : Target → Bool → Option (Unit {0})
moving target true = target.reset_vectors target.dim >>= λ _. target.set_embedder
moving target false = some tt

abbrev is_moved : Bool → Bool
is_moved true = false
is_moved false = true

-- Every row may be progressed on after four failures, and the last five may fail.
abbrev pub drain_fuel : ℕ → ℕ
drain_fuel pending = drain_give_up * pending + drain_give_up

module _ {F : Type 0} where
  abbrev pub writes : List Passage → List (List F) → List (String × List F)
  writes [] vectors = []
  writes (p ∷ passages) [] = []
  writes (p ∷ passages) (v ∷ vectors) = (p.id, v) ∷ writes passages vectors

  unfoldable pub write_vectors : Backend F → List Passage → List (List F) → Option (Unit {0})
  write_vectors backend passages vectors =
      if length passages == length vectors
      then (if no_texts passages then some tt else backend.update (writes passages vectors))
      else none

  unfoldable pub embed_batch : Backend F → ℕ → Option ℕ
  embed_batch backend limit = backend.pending limit >>= λ rows.
      if no_texts rows
      then some 0
      else (backend.embed_passages (map (λ (p : Passage). p.text) rows) >>= λ vectors.
          write_vectors backend rows vectors >>= λ _. backend.pending_after)

  -- The loop of `execute` from the batch `n` on, for `fuel` rounds at most.
  unfoldable pub reembed : (ℕ → Backend F) → ℕ → ℕ → ℕ → ℕ → Looped
  reembed backend zero n remaining embedded = out_of_fuel
  reembed backend (suc fuel) n zero embedded = finished embedded
  reembed backend (suc fuel) n (suc more) embedded = elim (embed_batch (backend n) batch_size) [
    | none ↦ refused
    | some left ↦
        let rest = reembed backend fuel (suc n) left (embedded + (suc more - left)) in
        if ltb left (suc more) then rest else refused
  ]

  -- One more round than there are rows to embed.
  unfoldable pub execute : Target → (ℕ → Backend F) → Option Report
  execute target backend =
      if target.dim == 0
      then none
      else (target.matches >>= λ matches. moving target (is_moved matches) >>= λ _.
          target.pending_count >>= λ total.
          report_of target (is_moved matches) (reembed backend (suc total) 0 total 0))

  -- The loop of `drain`: `failures` batches in a row have failed and `previous` rows were left.
  unfoldable pub drain_from : (ℕ → Backend F) → ℕ → ℕ → ℕ → ℕ → Drained
  drain_from backend zero n failures previous = no_fuel
  drain_from backend (suc fuel) n failures previous =
      let again = drain_from backend fuel (suc n) (suc failures) previous in
      let stumble = if leb drain_give_up (suc failures) then gave_up previous else again in
      elim (embed_batch (backend n) drain_batch) [
        | none ↦ stumble
        | some left ↦
            let onward = drain_from backend fuel (suc n) 0 left in
            if left == 0 then complete else if ltb left previous then onward else stumble
      ]

  unfoldable pub drain : (ℕ → Backend F) → ℕ → Drained
  drain backend pending = drain_from backend (drain_fuel pending) 0 0 pending
