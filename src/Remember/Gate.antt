-- ===== src/Remember/Gate.antt =====
-- The embedding pass and the near-duplicate gate of crates/agmem-server/src/tools/remember.rs.
use agmem.Prelude.{
  ℕ, suc, ◌+◌, Bool, true, false, ◌&&◌, Option, none, some, List, [], ◌∷◌, ◌++◌, map, length,
  get_elem?, set, take, drop, ◌==◌, is_some, if◌then◌else◌,
}
use agmem.Model.{Text}
use agmem.Service.{Outcome, done, failed, internal, ◌>>=◌}
use agmem.Store.{NewMemory, NewChunk, NewEpisode, Neighbour}
use agmem.Float.{Float}
use agmem.Dedup.{Thresholds, novelty, is_near_duplicate, is_correction_candidate}
use agmem.Remember.{Duplicate, Related, Writing}
use agmem.Remember.Validate.{no_texts}

-- What one embedding pass fills in.
pub record Entries (F Time : Type 0) : Type 0 where
  pub memories : List (NewMemory F Time)
  pub episode : Option (NewEpisode F Time)

-- What the gate has found so far.
pub record GateState (F Time : Type 0) : Type 0 where
  pub memories : List (NewMemory F Time)
  pub blocked : List Bool
  pub duplicates : List (Duplicate F)
  pub related : List (Related F)

abbrev pub embed_chunk : {F : Type 0} → NewChunk F → List F → NewChunk F
embed_chunk c vector = record c { embedding = some vector }

-- `iter_mut().zip(vectors)`: what has no vector stays as it is.
abbrev pub fill : {F A : Type 0} → (A → List F → A) → List A → List (List F) → List A
fill f [] vectors = []
fill f (x ∷ xs) [] = x ∷ xs
fill f (x ∷ xs) (v ∷ vectors) = f x v ∷ fill f xs vectors

module _ {F Time : Type 0} where
  abbrev pub chunks_of : Option (NewEpisode F Time) → List (NewChunk F)
  chunks_of none = []
  chunks_of (some episode) = episode.chunks

  abbrev pub passages : Entries F Time → List Text
  passages entries =
      map (λ (m : NewMemory F Time). m.content) entries.memories
      ++ map (λ (c : NewChunk F). c.text) (chunks_of entries.episode)

  abbrev pub embed_memory : NewMemory F Time → List F → NewMemory F Time
  embed_memory m vector = record m { embedding = some vector }

  abbrev pub with_chunks :
      Option (NewEpisode F Time) → List (NewChunk F) → Option (NewEpisode F Time)
  with_chunks none chunks = none
  with_chunks (some episode) chunks = some (record episode { chunks = chunks })

  abbrev pub assign : Entries F Time → List (List F) → Entries F Time
  assign entries vectors =
      let n = length entries.memories in
      record {
        memories = fill embed_memory entries.memories (take n vectors);
        episode =
            with_chunks entries.episode
              (fill embed_chunk (chunks_of entries.episode) (drop n vectors));
      }

  abbrev pub is_gated : NewMemory F Time → Bool
  is_gated m = no_texts m.supersedes && is_some m.embedding

  -- The places of the claims to be measured, from the place `i` on.
  unfoldable pub gated_from : ℕ → List (NewMemory F Time) → List ℕ
  gated_from i [] = []
  gated_from i (m ∷ memories) =
      let rest = gated_from (suc i) memories in if is_gated m then i ∷ rest else rest

  abbrev pub vector_at : List (NewMemory F Time) → ℕ → Option (List F)
  vector_at memories i = elim (get_elem? memories i) [ none ↦ none | some m ↦ m.embedding ]

  unfoldable pub probes : List (NewMemory F Time) → List ℕ → List (List F)
  probes memories [] = []
  probes memories (i ∷ gated) =
      let rest = probes memories gated in
      elim (vector_at memories i) [ none ↦ rest | some vector ↦ vector ∷ rest ]

  -- `memory` is what stands at `i`.
  abbrev pub with_novelty :
      List (NewMemory F Time) → ℕ → Option F → Option (NewMemory F Time) → List (NewMemory F Time)
  with_novelty memories i measured none = memories
  with_novelty memories i measured (some memory) =
      set memories i (record memory { novelty = measured })

  abbrev pub set_novelty : List (NewMemory F Time) → ℕ → Option F → List (NewMemory F Time)
  set_novelty memories i measured = with_novelty memories i measured (get_elem? memories i)

  abbrev pub unmeasured : List (NewMemory F Time) → GateState F Time
  unmeasured memories = record {
    memories = memories;
    blocked = map (λ _. false) memories;
    duplicates = [];
    related = [];
  }

  abbrev pub assign_all : Entries F Time → List (List F) → Outcome (Entries F Time)
  assign_all entries vectors =
      if length vectors == length entries.memories + length (chunks_of entries.episode)
      then done (assign entries vectors)
      else failed (internal "the embedder returned a different number of vectors")

module _ {fl : Float} {Time : Type 0} (writing : Writing fl Time) where
  open fl use {F}

  unfoldable pub embed : Entries F Time → Outcome (Entries F Time)
  embed entries =
      if writing.dim == 0
      then done entries
      else if no_texts (passages entries)
      then done entries
      else (do vectors ← writing.embed_passages (passages entries); assign_all entries vectors)

-- The novelty that the closest neighbour leaves.
abbrev pub measured : (fl : Float) → List (Neighbour fl.F) → Option fl.F
measured fl [] = none
measured fl (n ∷ neighbours) = some (novelty fl n.similarity)

module _ {fl : Float} {Time : Type 0} (bands : Thresholds fl) where
  open fl use {F}

  -- One neighbour of the claim at `i`.
  unfoldable pub judge : ℕ → Neighbour F → GateState F Time → GateState F Time
  judge i n s =
      if is_near_duplicate fl bands n.similarity
      then record s {
        blocked = set s.blocked i true;
        duplicates =
            s.duplicates
            ++ record { id = n.id; of = i; content = n.content; similarity = n.similarity } ∷ [];
      }
      else if is_correction_candidate fl bands n.similarity
      then record s {
        related =
            s.related
            ++ record { id = n.id; of = i; content = n.content; similarity = n.similarity } ∷ [];
      }
      else s

  unfoldable pub judge_all : ℕ → List (Neighbour F) → GateState F Time → GateState F Time
  judge_all i [] s = s
  judge_all i (n ∷ neighbours) s = judge_all i neighbours (judge i n s)

  -- The claims measured, each with its neighbours, the closest first.
  unfoldable pub gate : List ℕ → List (List (Neighbour F)) → GateState F Time → GateState F Time
  gate [] found s = s
  gate (i ∷ gated) [] s = s
  gate (i ∷ gated) (neighbours ∷ found) s = gate gated found (
      judge_all i neighbours
        (record s { memories = set_novelty s.memories i (measured fl neighbours) }))
