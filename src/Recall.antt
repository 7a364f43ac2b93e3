-- ===== src/Recall.antt =====
-- One page of `recall`: crates/agmem-server/src/tools/recall.rs, from the candidates to the hits. The
-- notes that an answer carries in words are left out.
pub mod Request
pub mod Page
pub mod Seat
pub mod Bounds
use agmem.Prelude.{
  ℕ, zero, suc, ◌+◌, ◌-◌, String, Bool, true, false, not, ◌&&◌, ◌||◌, Option, none, some, List, [],
  ◌∷◌, map, take, any, ltb, leb, ◌==◌, str_eq, if◌then◌else◌, length, is_some, ◌>>=◌,
}
use agmem.Float.{Float}
use agmem.Model.{MemoryRecord, EpisodeChunk, Candidate, Hit, memory, chunk, MemoryId, Source, agent}
use agmem.Model.Names.{provenance}
use agmem.Scoring.{
  Clock, Signals, Ranked, TemporalQuery, Interval, temporal_fit, for_memory, for_episode_chunk,
  with_similarity, with_temporal,
}
use agmem.Scoring
use agmem.Hop.{contains, reserve_tail}
use agmem.Occupancy.{cap, Resliced, verbatim_cap, verbatim_key}
use agmem.Occupancy
use agmem.Abstain.{Verdict}
use agmem.Abstain

-- What the two caps did to a page.
pub record Capped : Type 0 where
  pub cap : ℕ
  pub displaced : ℕ
  pub sources : List String
  pub verbatim_displaced : ℕ
  pub verbatim_cap : ℕ

displaced_by : Option Resliced → ℕ
displaced_by none = 0
displaced_by (some r) = r.displaced

sources_of : Option Resliced → List String
sources_of none = []
sources_of (some r) = r.sources

-- `Capped::new`: none when neither cap changed the page.
unfoldable pub new_capped : ℕ → Option Resliced → Option Resliced → Option Capped
unfolding displaced_by sources_of
new_capped page_cap by_source verbatim =
    if not (is_some by_source) && not (is_some verbatim)
    then none
    else some (record {
      cap = page_cap;
      displaced = displaced_by by_source + displaced_by verbatim;
      sources = sources_of by_source;
      verbatim_displaced = displaced_by verbatim;
      verbatim_cap = verbatim_cap;
    })

abbrev claimed_by : Source → Option String
claimed_by agent = none
claimed_by (Source.episode id) = some (provenance (Source.episode id))
claimed_by (Source.external origin) = some (provenance (Source.external origin))

module _ {F Time : Type 0} where
  abbrev pub hit_key : Hit F Time → String
  hit_key (memory m) = m.id
  hit_key (chunk c) = c.id

  -- The source whose quota a hit counts against.
  abbrev pub source_key : Hit F Time → Option String
  source_key (memory m) = claimed_by m.source
  source_key (chunk c) = some (provenance (Source.episode c.episode))

  -- All verbatim text is one source to the second cap.
  abbrev pub verbatim_source : Hit F Time → Option String
  verbatim_source (memory m) = none
  verbatim_source (chunk c) = some verbatim_key

  abbrev pub is_voted : List MemoryId → Hit F Time → Bool
  is_voted hopped (memory m) = contains hopped m.id
  is_voted hopped (chunk c) = false

  -- The ids of the claims among the hits.
  unfoldable pub claim_ids : List (Hit F Time) → List MemoryId
  claim_ids [] = []
  claim_ids (memory m ∷ hits) = m.id ∷ claim_ids hits
  claim_ids (chunk c ∷ hits) = claim_ids hits

module _ (fl : Float) (clock : Clock fl.F) where
  open fl use {F}
  open clock use {Time, before}

  -- `at.max(memory.created_at)`
  abbrev last_change : Option Time → Time → Time
  last_change none created = created
  last_change (some at) created = if before at created then created else at

  -- How a hit fits the window, where there is one and the hit has a date.
  unfoldable pub fit_of : Option (TemporalQuery fl clock) → Hit F Time → Option F
  fit_of none hit = none
  fit_of (some query) (memory m) = some (
      temporal_fit fl clock query (record { from = m.valid_from; to = m.invalid_at })
        (last_change m.invalid_at m.created_at))
  fit_of (some query) (chunk c) = elim c.occurred_at [
    | none ↦ none
    | some at ↦ some (temporal_fit fl clock query (record { from = at; to = some at }) at)
  ]

  abbrev base_signals : F → Hit F Time → Time → Signals fl
  base_signals rrf (memory m) now = for_memory fl clock rrf m now
  base_signals rrf (chunk c) now = for_episode_chunk fl rrf

  unfoldable pub signals_of :
      Option (TemporalQuery fl clock) → Time → Candidate F Time → Hit F Time × Signals fl
  signals_of window now c = (
    c.hit,
    with_temporal fl (with_similarity fl (base_signals c.rrf c.hit now) c.similarity)
        (fit_of window c.hit),
  )

  abbrev pub Row : Type 0
  Row = Hit F Time × Ranked fl

  abbrev pub hit_of : Row → Hit F Time
  hit_of (hit, r) = hit

  abbrev pub similarity_of : Row → Option F
  similarity_of (hit, r) = r.signals.similarity

  abbrev pub retrieval_of : Row → F
  retrieval_of (hit, r) = r.rrf_normalized

  -- What the knee may not trim: a row that the ranking alone had not put on the page, and a row of
  -- the hop.
  abbrev pub is_exempt : List String → List MemoryId → Row → Bool
  is_exempt by_score hopped (hit, r) = not (contains by_score (hit_key hit)) || is_voted hopped hit

  pub record Answer : Type 0 where
    pub rows : List Row
    pub capped : Option Capped
    -- the rows on the page before the cut
    pub considered : ℕ
    pub cut : Option (Verdict fl)
    pub abstained : Bool
    -- the claims on the page
    pub touched : List MemoryId

  -- The rows after both caps, with what they did.
  unfoldable pub cap_rows : List Row → ℕ → Option (List Row × Option Capped)
  cap_rows ranked k = do
    (sourced, by_source) ← Occupancy.apply ranked k (cap k) (λ row. source_key (hit_of row))
    (mixed, verbatim) ← Occupancy.apply sourced k verbatim_cap (λ row. verbatim_source (hit_of row))
    some (mixed, new_capped (cap k) by_source verbatim)

  -- The cut of a search; a listing is never cut.
  unfoldable pub cut_rows :
      Bool → F → List String → List MemoryId → List Row → Option (List Row × Option (Verdict fl))
  cut_rows is_search floor by_score hopped rows =
      if is_search
      then Abstain.apply fl similarity_of retrieval_of (is_exempt by_score hopped) rows floor
      else some (rows, none)

  emptied : Option (Verdict fl) → Bool
  emptied none = false
  emptied (some verdict) = verdict.kept == 0

  unfoldable pub finish : ℕ → Option Capped → List Row × Option (Verdict fl) → Answer
  unfolding emptied
  finish considered capped (rows, cut) = record {
    rows = rows;
    capped = if emptied cut then none else capped;
    considered = considered;
    cut = cut;
    abstained = emptied cut;
    touched = claim_ids (map hit_of rows);
  }

  -- The page of the ranked candidates; `none` is a panic.
  unfoldable pub page : ℕ → Bool → F → List MemoryId → List Row → Option Answer
  page k is_search floor hopped ranked = do
    let by_score = map (λ row. hit_key (hit_of row)) (take k ranked)
    (mixed, capped) ← cap_rows ranked k
    let seated = take k (reserve_tail mixed k (λ row. is_voted hopped (hit_of row)))
    cut ← cut_rows is_search floor by_score hopped seated
    some (finish (length seated) capped cut)
