-- ===== src/Recall/Request.antt =====
-- The request of `recall` and how it is answered: `run` of crates/agmem-server/src/tools/recall.rs,
-- without the headers of documents and the text of the hits. `Recalling` stands for the parser of
-- stamps, the settings and the reads that only this tool makes.
use agmem.Prelude.{
  ℕ, min, String, Bool, true, false, not, ◌&&◌, ◌||◌, Option, none, some, List, [], map, ltb, ◌==◌,
  if◌then◌else◌, is_some, length,
}
use agmem.Float.{Float}
use agmem.Words.{is_blank}
use agmem.Model.{Text, Kind, MemoryRecord, Candidate, memory, MemoryId, SpaceName}
use agmem.Scoring.{Clock, TemporalQuery}
use agmem.Scoring
use agmem.Hop
use agmem.Service.{
  Service, Outcome, done, failed, invalid, invalid_k, ◌>>=◌, Filters, Liveness, live, as_of,
  any_time, Lookup, new_lookup, new_search, spaces, embed_query,
}
use agmem.Recall.{Answer, page, signals_of}

abbrev pub default_k : ℕ
default_k = 10

abbrev pub hop_scan : ℕ
hop_scan = 32

pub record RecallParams : Type 0 where
  pub query : Option Text
  pub k : Option ℕ
  pub space : Option String
  pub kinds : List Kind
  pub entities : List String
  pub tags : List String
  pub as_of : Option String
  pub since : Option String
  pub until : Option String
  pub changed_since : Option String
  pub include_invalidated : Bool

pub record Recalling (F Time : Type 0) : Type 0 where
  pub max_k : ℕ
  -- `embedder().thresholds().abstention`
  pub abstention : F
  -- A field's name and its stamp; the error names the field.
  pub parse_stamp : String → String → Outcome Time
  pub count_matching : Lookup Time → Outcome ℕ

-- `none` refuses the request.
unfoldable pub resolve_k : ℕ → Option ℕ → Option ℕ
resolve_k max_k none = let k = min default_k max_k in if k == 0 || ltb max_k k then none else some k
resolve_k max_k (some k) = if k == 0 || ltb max_k k then none else some k

abbrev pub k_of : ℕ → Option ℕ → Outcome ℕ
k_of max_k requested = elim (resolve_k max_k requested) [
  | none ↦ failed (invalid_k max_k)
  | some k ↦ done k
]

abbrev pub aimed : Option Text → Option Text
aimed none = none
aimed (some text) = if is_blank text then none else some text

abbrev answered {ℓ} : {A : Type ℓ} → Outcome A → Option A
answered (done a) = some a
answered (failed e) = none

module _ {Time : Type 0} (parse_stamp : String → String → Outcome Time) where
  unfoldable pub resolve_liveness : Option String → Bool → Outcome (Liveness Time)
  resolve_liveness none true = done any_time
  resolve_liveness none false = done live
  resolve_liveness (some stamp) include_invalidated =
      parse_stamp "as_of" stamp >>= λ instant. done (as_of instant)

  abbrev parsed : String → Option String → Outcome (Option Time)
  parsed field none = done none
  parsed field (some stamp) = parse_stamp field stamp >>= λ instant. done (some instant)

module _ (fl : Float) (clock : Clock fl.F) where
  open fl use {F, ratio}
  open clock use {Time, before}

  abbrev inverted : Option Time → Option Time → Bool
  inverted (some since) (some until) = before until since
  inverted (some since) none = false
  inverted none until = false

  -- `none` where the request has no window.
  abbrev window_of :
      Option Time → Option Time → Option Time → Outcome (Option (TemporalQuery fl clock))
  window_of since until changed_since =
      if not (is_some since) && not (is_some until) && not (is_some changed_since)
      then done none
      else if inverted since until
      then failed (invalid "since must not be after until")
      else done (some (record { since = since; until = until; changed_since = changed_since }))

  unfoldable pub resolve_window :
      (String → String → Outcome Time)
      → Option String
      → Option String
      → Option String
      → Outcome (Option (TemporalQuery fl clock))
  resolve_window parse_stamp since until changed_since = do
    from ← parsed parse_stamp "since" since
    to ← parsed parse_stamp "until" until
    changed ← parsed parse_stamp "changed_since" changed_since
    window_of from to changed

  abbrev listed : MemoryRecord F Time → Candidate F Time
  listed m = record { rrf = ratio 0 1; similarity = none; hit = memory m }

  -- What an answer carries besides the spaces and the words.
  pub record RecallResult : Type 0 where
    pub answer : Answer fl clock
    -- the claims counted, the claims returned and `k`
    pub truncated : Option (ℕ × ℕ × ℕ)
    -- the claims whose decay is pushed back
    pub reinforced : List MemoryId

  abbrev is_live : Liveness Time → Bool
  is_live live = true
  is_live (as_of instant) = false
  is_live any_time = false

  module _ (service : Service F Time) (recalling : Recalling F Time) where
    -- The lookup of the hop: `run` of tools/hop.rs reads the seeds' rows through the request's filters.
    abbrev hop_lookup :
        List SpaceName → Filters → Liveness Time → List String → Option (List (MemoryRecord F Time))
    hop_lookup names filters liveness seeds = answered (
        service.direct_lookup (record {
          spaces = names;
          filters = record filters { entities = seeds };
          liveness = liveness;
          limit = hop_scan;
        }))

    -- The candidates, and the ids that the hop voted for.
    unfoldable pub gather :
        List SpaceName
        → Filters
        → Liveness Time
        → Option Text
        → Outcome (List (Candidate F Time) × List MemoryId)
    gather names filters liveness none = do
      rows ←
          service.direct_lookup (record {
            spaces = names;
            filters = filters;
            liveness = liveness;
            limit = service.pool;
          })
      done (map listed rows, [])
    gather names filters liveness (some text) = do
      vector ← embed_query service text
      candidates ← service.search_hybrid (record (new_search names) {
        vector = vector;
        text = some text;
        filters = filters;
        liveness = liveness;
        pool = service.pool;
      })
      done (Hop.run fl Time filters.entities (hop_lookup names filters liveness) candidates)

    unfoldable pub count_if_full :
        List SpaceName
        → Filters
        → Liveness Time
        → ℕ
        → Answer fl clock
        → Outcome (Option (ℕ × ℕ × ℕ))
    count_if_full names filters liveness k answer =
        if answer.considered == k && not answer.abstained
        then (recalling.count_matching
              (record (new_lookup names) { filters = filters; liveness = liveness })
            >>= λ matching. done (
                if ltb (length answer.touched) matching
                then some (matching, length answer.touched, k)
                else none))
        else done none

    -- The outer `none` is a panic.
    unfoldable pub answer_of :
        ℕ
        → Bool
        → Option (TemporalQuery fl clock)
        → Time
        → List MemoryId
        → List (Candidate F Time)
        → Option (Answer fl clock)
    answer_of k is_search window now hopped candidates =
        page fl clock k is_search recalling.abstention hopped
          (Scoring.rank fl (map (signals_of fl clock window now) candidates))

    unfoldable pub run : RecallParams → Time → Outcome (Option RecallResult)
    run params now = do
      names ← spaces service params.space
      k ← k_of recalling.max_k params.k
      liveness ← resolve_liveness recalling.parse_stamp params.as_of params.include_invalidated
      window ← resolve_window recalling.parse_stamp params.since params.until params.changed_since
      let filters : Filters = record {
        kinds = params.kinds;
        entities = params.entities;
        tags = params.tags;
      }
      (candidates, hopped) ← gather names filters liveness (aimed params.query)
      elim (answer_of k (is_some (aimed params.query)) window now hopped candidates) [
        | none ↦ done none
        | some answer ↦ count_if_full names filters liveness k answer >>= λ truncated. done (
            some (record {
              answer = answer;
              truncated = truncated;
              reinforced = if is_live liveness then answer.touched else [];
            }))
      ]
