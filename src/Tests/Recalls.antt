-- ===== src/Tests/Recalls.antt =====
-- Pages and requests that tools/recall.rs answers.
use agmem.Prelude.{
  ℕ, ◌-◌, ◌*◌, ◌≡◌, ◌≤◌, ◌<◌, ◌⊎◌, ◌++◌, refl, String, true, false, Option, none, some, List, [],
  ◌∷◌, arith, ltb, length, any, Perm,
}
use agmem.Model.{memory, chunk, EpisodeChunk, fact}
use agmem.Scoring.{Clock, Ranked}
use agmem.Service.{spaces, Outcome, done, failed}
use agmem.Recall.{Row, Answer, page, cap_rows, cut_rows, finish, signals_of, new_capped, claim_ids}
use agmem.Recall.Page.{page_holds}
use agmem.Recall.Seat.{page_seats, voted}
use agmem.Recall.Request.{
  RecallParams, RecallResult, Recalling, run, resolve_k, resolve_liveness, resolve_window, gather,
  answer_of, count_if_full,
}
use agmem.Occupancy.{apply, cap}
use agmem.Scoring.{rank}
use agmem.Sort.{sort_by, insert}
use agmem.Hop.{reserve_tail}
use agmem.Recall.Bounds.{resolve_k_bounds, run_bounds}
use agmem.Tests.Rows.{claim, service}
use agmem.Tests.Fixed.{Fixed, at, fixed}

abbrev clock : Clock Fixed
clock = record {
  Time = ℕ;
  before = ltb;
  seconds_since = λ later earlier. at (1000 * (later - earlier));
}

abbrev slice : String → EpisodeChunk Fixed ℕ
slice id = record {
  id = id;
  episode = "E";
  space = "work";
  text = [];
  position = 0;
  occurred_at = none;
  embedding = none;
}

abbrev ranked_at : ℕ → Ranked fixed
ranked_at score = record {
  signals = record {
    rrf = at score;
    similarity = some (at 800);
    temporal = none;
    novelty = none;
    retention = at 1000;
    importance = at 500;
  };
  rrf_normalized = at score;
  score = at score;
}

-- Two slices lead, and the claim that the hop voted for comes last.
abbrev ranked : List (Row fixed clock)
ranked =
    (chunk (slice "S"), ranked_at 900)
    ∷ (chunk (slice "T"), ranked_at 850)
    ∷ (memory (claim "A"), ranked_at 800)
    ∷ (memory (claim "B"), ranked_at 400)
    ∷ []

page_holds_example :
    (answer : Answer fixed clock) × (rest : List (Row fixed clock)) × (page fixed clock 2 true
        (at 500)
        ("B" ∷ [])
        ranked
      ≡ some answer)
    × Perm (answer.rows ++ rest) ranked
    × (length answer.rows ≤ 2)
page_holds_example = page_holds fixed clock 2 true (at 500) ("B" ∷ []) ranked

page_seats_example :
    (answer : Answer fixed clock) × (page fixed clock 2 true (at 500) ("B" ∷ []) ranked
      ≡ some answer)
    × ((answer.rows ≡ []) ⊎ (any (voted fixed clock ("B" ∷ [])) answer.rows ≡ true))
page_seats_example = page_seats fixed clock 2 true (at 500) ("B" ∷ []) ranked (omega arith) refl

resolve_k_bounds_example : (0 < 10) × (10 ≤ 50)
unfolding resolve_k
resolve_k_bounds_example = resolve_k_bounds 50 none 10 refl

abbrev recalling : Recalling Fixed ℕ
recalling = record {
  max_k = 50;
  abstention = at 500;
  parse_stamp = λ field stamp. done 3;
  count_matching = λ l. done 2;
}

abbrev listing : RecallParams
listing = record {
  query = none;
  k = some 5;
  space = none;
  kinds = fact ∷ [];
  entities = [];
  tags = [];
  as_of = none;
  since = none;
  until = none;
  changed_since = none;
  include_invalidated = false;
}

abbrev answered_by : Outcome (Option (RecallResult fixed clock)) → Option (RecallResult fixed clock)
answered_by (done r) = r
answered_by (failed e) = none

abbrev result : Option (RecallResult fixed clock)
result = answered_by (run fixed clock service recalling listing 7)

run_bounds_example :
    (r : RecallResult fixed clock) × (result ≡ some r) × (length r.answer.rows ≤ 50)
unfolding run spaces resolve_k resolve_liveness resolve_window gather answer_of page cap_rows apply
    rank sort_by insert reserve_tail cut_rows finish count_if_full signals_of new_capped cap
    claim_ids
run_bounds_example = run_bounds fixed clock service recalling listing 7 result refl
