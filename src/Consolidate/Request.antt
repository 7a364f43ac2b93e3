-- ===== src/Consolidate/Request.antt =====
-- `run` of crates/agmem-server/src/tools/consolidate.rs, with `overdue` and `note`.
use agmem.Prelude.{
  ℕ, String, Bool, false, ◌||◌, Option, none, some, List, [], ◌∷◌, ◌++◌, map, length, take, ltb,
  leb, ◌==◌, if◌then◌else◌,
}
use agmem.Model.{SpaceName, MemoryRecord, Episode, EpisodeId, DocKind, Derivation, lesson, fast}
use agmem.Model.Names.{derivation_to_string}
use agmem.Service.{
  Service, spaces, Outcome, done, failed, internal, ◌>>=◌, new_lookup, Lookup, no_filters,
}
use agmem.Sort.{sort_by}
use agmem.Float.{Float, clamp, max_f, zero_f}
use agmem.Scoring.{
  Clock, min_stability, max_stability, decay_horizon_secs, prune_retention, seconds_per_day,
}
use agmem.Dedup.{Thresholds}
use agmem.Consolidate.{Embedded, Cluster, Contradiction, Found, compare}
use agmem.Consolidate.Tags.{OverFullTag, over_full_tags}

abbrev pub max_clusters : ℕ
max_clusters = 20

abbrev pub max_contradictions : ℕ
max_contradictions = 20

abbrev pub orphan_grace_days : ℕ
orphan_grace_days = 30

abbrev pub churn_versions : ℕ
churn_versions = 3

abbrev pub max_pool : ℕ
max_pool = 1000

pub record SpaceScan : Type 0 where
  pub space : SpaceName
  pub compared : ℕ
  pub truncated : Bool

pub record StaleContext (F Time : Type 0) : Type 0 where
  pub claim : MemoryRecord F Time
  pub idle_days : F
  pub expires_in_days : F

-- A stamp stands for its text here and below.
pub record OrphanDocument (Time : Type 0) : Type 0 where
  pub space : SpaceName
  pub episode : String
  pub title : String
  pub doc_kind : DocKind
  pub chars : ℕ
  pub created_at : Time
  pub age_days : ℕ

pub record DocumentChurn (Time : Type 0) : Type 0 where
  pub title : String
  pub doc_kind : DocKind
  pub versions : ℕ
  pub newest : EpisodeId
  pub first_at : Time
  pub latest_at : Time

pub record ChurningDocument (Time : Type 0) : Type 0 where
  pub space : SpaceName
  pub title : String
  pub doc_kind : DocKind
  pub versions : ℕ
  pub newest : String
  pub first_at : Time
  pub latest_at : Time

-- The ways in which an answer is thinner than the store.
pub data Reason : Type 0 where
  no_embedder : Reason
  rows_cut : Reason
  findings_cut : Reason
  tags_cut : Reason

pub record ConsolidateResult (F Time : Type 0) : Type 0 where
  pub spaces : List SpaceName
  pub scanned : List SpaceScan
  pub near_duplicates : List (Cluster F Time)
  pub contradictions : List (Contradiction F Time)
  pub stale_contexts : List (StaleContext F Time)
  pub over_full_tags : List (OverFullTag F Time)
  pub orphan_documents : List (OrphanDocument Time)
  pub churning_documents : List (ChurningDocument Time)
  pub note : List Reason

-- What the spaces have given so far.
pub record Sweep (F Time : Type 0) : Type 0 where
  pub scanned : List SpaceScan
  pub clusters : List (Cluster F Time)
  pub contradictions : List (Contradiction F Time)
  pub stale : List (StaleContext F Time)
  pub over_full : List (OverFullTag F Time)
  pub orphans : List (OrphanDocument Time)
  pub churning : List (ChurningDocument Time)
  pub truncated_any : Bool

-- The reads that `consolidate` sends, and what it takes of the standard library and of `jiff`.
pub record Maintenance (fl : Float) (Time : Type 0) : Type 0 where
  pub live_vectors : SpaceName → ℕ → Outcome (List (Embedded fl.F Time))
  pub stale_contexts : SpaceName → Outcome (List (MemoryRecord fl.F Time))
  pub orphan_documents : SpaceName → ℕ → Outcome (List (Episode Time))
  pub churning_documents : SpaceName → ℕ → Outcome (List (DocumentChurn Time))
  pub thresholds : Thresholds fl
  pub sqrt : fl.F → fl.F
  pub to_f32 : fl.F → fl.F
  pub lower : String → String
  pub arrange : List (ℕ × List ℕ) → List (ℕ × List ℕ)
  -- whole days up to now, or 0 where that does not fit
  pub age_days : Time → ℕ

-- `note`, before its reasons are joined
unfoldable pub note : ℕ → Bool → Bool → Bool → List Reason
note dim truncated capped tags_capped =
    (if dim == 0 then no_embedder ∷ [] else [])
    ++ (if truncated then rows_cut ∷ [] else [])
    ++ (if capped then findings_cut ∷ [] else [])
    ++ (if tags_capped then tags_cut ∷ [] else [])

-- A panic, as a failure of the call.
abbrev or_panic : {A : Type 0} → Option A → Outcome A
or_panic none = failed (internal "an index is out of range")
or_panic (some a) = done a

-- `now` stands for every reading of the clock.
module _ (fl : Float) (clock : Clock fl.F) (service : Service fl.F clock.Time)
    (maintenance : Maintenance fl clock.Time) (now : clock.Time) where
  open fl use {F, le, sub, mul, div}
  open clock use {Time, seconds_since}

  abbrev horizon_secs : F
  horizon_secs = elim (decay_horizon_secs fl fast (prune_retention fl)) [
    | none ↦ zero_f fl
    | some secs ↦ secs
  ]

  unfoldable pub overdue : MemoryRecord F Time → StaleContext F Time
  overdue claim =
      let idle = max_f fl (seconds_since now claim.last_accessed) (zero_f fl) in
      let stability = clamp fl claim.strength (min_stability fl) (max_stability fl) in
      record {
        claim = claim;
        idle_days = div idle (seconds_per_day fl);
        expires_in_days =
            div (max_f fl (sub (mul horizon_secs stability) idle) (zero_f fl)) (seconds_per_day fl);
      }

  abbrev orphan : SpaceName → Episode Time → String → DocKind → OrphanDocument Time
  orphan space document title kind = record {
    space = space;
    episode = derivation_to_string (Derivation.episode document.id);
    title = title;
    doc_kind = kind;
    chars = length document.content;
    created_at = document.created_at;
    age_days = maintenance.age_days document.created_at;
  }

  -- `filter_map`: a document without a title or a kind is passed over.
  unfoldable pub orphans_of : SpaceName → List (Episode Time) → List (OrphanDocument Time)
  orphans_of space [] = []
  orphans_of space (document ∷ documents) =
      let rest = orphans_of space documents in
      elim document.title [
        | none ↦ rest
        | some title ↦ elim document.doc_kind [
          | none ↦ rest
          | some kind ↦ orphan space document title kind ∷ rest
        ]
      ]

  abbrev churns_of : SpaceName → List (DocumentChurn Time) → List (ChurningDocument Time)
  churns_of space [] = []
  churns_of space (churn ∷ churns) =
      record {
        space = space;
        title = churn.title;
        doc_kind = churn.doc_kind;
        versions = churn.versions;
        newest = derivation_to_string (Derivation.episode churn.newest);
        first_at = churn.first_at;
        latest_at = churn.latest_at;
      }
      ∷ churns_of space churns

  abbrev lessons_of : SpaceName → Lookup Time
  lessons_of space =
      let lookup = new_lookup (space ∷ []) in
      record lookup { filters = record no_filters { kinds = lesson ∷ [] }; limit = max_pool }

  abbrev compared : SpaceName → List (Embedded F Time) → Outcome (Found F Time)
  compared space rows = or_panic (
      compare fl maintenance.sqrt maintenance.to_f32 maintenance.lower maintenance.arrange
        maintenance.thresholds space rows)

  unfoldable pub sweep_space : SpaceName → Sweep F Time → Outcome (Sweep F Time)
  sweep_space space s = do
    rows ← maintenance.live_vectors space max_pool
    found ← compared space rows
    stale ← maintenance.stale_contexts space
    lessons ← service.direct_lookup (lessons_of space)
    orphans ← maintenance.orphan_documents space orphan_grace_days
    churning ← maintenance.churning_documents space churn_versions
    let truncated = length rows == max_pool
    let scan : SpaceScan = record { space = space; compared = length rows; truncated = truncated }
    done (record {
      scanned = s.scanned ++ scan ∷ [];
      clusters = s.clusters ++ found.clusters;
      contradictions = s.contradictions ++ found.contradictions;
      stale = s.stale ++ map overdue stale;
      over_full = s.over_full ++ over_full_tags space lessons;
      orphans = s.orphans ++ orphans_of space orphans;
      churning = s.churning ++ churns_of space churning;
      truncated_any = s.truncated_any || truncated;
    })

  unfoldable pub sweep : List SpaceName → Sweep F Time → Outcome (Sweep F Time)
  sweep [] s = done s
  sweep (space ∷ names) s = sweep_space space s >>= λ next. sweep names next

  abbrev pub closest_first : Cluster F Time → Cluster F Time → Bool
  closest_first a b = le b.max_similarity a.max_similarity

  abbrev pub closest_pair_first : Contradiction F Time → Contradiction F Time → Bool
  closest_pair_first a b = le b.similarity a.similarity

  abbrev idle_first : StaleContext F Time → StaleContext F Time → Bool
  idle_first a b = le b.idle_days a.idle_days

  abbrev fullest_first : OverFullTag F Time → OverFullTag F Time → Bool
  fullest_first a b = leb b.live a.live

  unfoldable pub report : List SpaceName → Sweep F Time → ConsolidateResult F Time
  report names s =
      let capped =
        ltb max_clusters (length s.clusters) || ltb max_contradictions (length s.contradictions) in
      let tags_capped = ltb max_clusters (length s.over_full) in
      record {
        spaces = names;
        scanned = s.scanned;
        near_duplicates = take max_clusters (sort_by closest_first s.clusters);
        contradictions = take max_contradictions (sort_by closest_pair_first s.contradictions);
        stale_contexts = sort_by idle_first s.stale;
        over_full_tags = take max_clusters (sort_by fullest_first s.over_full);
        orphan_documents = s.orphans;
        churning_documents = s.churning;
        note = note service.dim s.truncated_any capped tags_capped;
      }

  abbrev pub nothing_swept : Sweep F Time
  nothing_swept = record {
    scanned = [];
    clusters = [];
    contradictions = [];
    stale = [];
    over_full = [];
    orphans = [];
    churning = [];
    truncated_any = false;
  }

  -- `none` asks for the current space alone.
  abbrev asked_space : Option String → Option String
  asked_space none = some "current"
  asked_space (some name) = some name

  unfoldable pub run : Option String → Outcome (ConsolidateResult F Time)
  run space = do
    names ← spaces service (asked_space space)
    s ← sweep names nothing_swept
    done (report names s)
