-- ===== src/Scoring.antt =====
-- The ranking mathematics: crates/agmem-core/src/scoring.rs. `Clock` stands for the stamps of the
-- `jiff` crate, whose code is not here.
pub mod Laws
pub mod Ranking
pub mod Dominance
pub mod Temporal
pub mod Decay
use agmem.Prelude.{
  ℕ, zero, suc, ◌+◌, ◌<◌, ◌≡◌, Bool, true, false, not, ◌&&◌, ◌||◌, Option, none, some, List, [],
  ◌∷◌, map, ltb, if◌then◌else◌, length, is_some,
}
use agmem.Float.{Float, lt, min_f, max_f, clamp, neg, zero_f, one_f}
use agmem.Sort.{sort_by}
use agmem.Model.{MemoryRecord, DecayClass, pinned, slow, normal, fast}

-- `later.duration_since(earlier).as_secs_f64()`, and the order of the stamps.
pub record Clock (F : Type 0) : Type 1 where
  pub Time : Type 0
  pub before : Time → Time → Bool
  pub seconds_since : Time → Time → F

module _ (fl : Float) where
  open fl use {F, le, add, sub, mul, div, ratio, infinity, neg_infinity, exp, ln}

  abbrev pub weight_rrf : F
  weight_rrf = ratio 6 10

  abbrev pub weight_retention : F
  weight_retention = ratio 25 100

  abbrev pub weight_importance : F
  weight_importance = ratio 15 100

  abbrev pub weight_temporal : F
  weight_temporal = ratio 15 100

  abbrev pub temporal_tau_days : F
  temporal_tau_days = ratio 30 1

  abbrev pub weight_novelty : F
  weight_novelty = ratio 0 1

  abbrev pub min_stability : F
  min_stability = ratio 1 100

  abbrev pub max_stability : F
  max_stability = ratio 5 1

  abbrev pub prune_retention : F
  prune_retention = ratio 5 100

  abbrev pub seconds_per_day : F
  seconds_per_day = ratio 86400 1

  unfoldable pub rate : DecayClass → F
  rate pinned = ratio 0 1
  rate slow = ratio 5 1000
  rate normal = ratio 2 100
  rate fast = ratio 15 100

  unfoldable pub importance : DecayClass → F
  importance pinned = ratio 1 1
  importance slow = ratio 75 100
  importance normal = ratio 5 10
  importance fast = ratio 25 100

  abbrev pub eq : F → F → Bool
  eq a b = le a b && le b a

  -- `threshold` outside (0, 1), or a class that never decays: no horizon.
  unfoldable pub decay_horizon_secs : DecayClass → F → Option F
  decay_horizon_secs class threshold =
      if eq (rate class) (zero_f fl) || le threshold (zero_f fl) || le (one_f fl) threshold
      then none
      else some (mul (div (neg fl (ln threshold)) (rate class)) seconds_per_day)

  pub record Signals : Type 0 where
    pub rrf : F
    pub similarity : Option F
    pub temporal : Option F
    pub novelty : Option F
    pub retention : F
    pub importance : F

  unfoldable pub for_episode_chunk : F → Signals
  for_episode_chunk rrf = record {
    rrf = rrf;
    similarity = none;
    temporal = none;
    novelty = none;
    retention = ratio 1 1;
    importance = importance normal;
  }

  abbrev pub with_similarity : Signals → Option F → Signals
  with_similarity s similarity = record s { similarity = similarity }

  abbrev pub with_temporal : Signals → Option F → Signals
  with_temporal s temporal = record s { temporal = temporal }

  pub record Ranked : Type 0 where
    pub signals : Signals
    pub rrf_normalized : F
    pub score : F

  -- What one pass over the pool gathers.
  pub record Pool : Type 0 where
    pub worst : F
    pub best : F
    pub novelty_sum : F
    pub novelty_count : ℕ

  abbrev pub unwrap_or : F → Option F → F
  unwrap_or d none = d
  unwrap_or d (some x) = x

  unfoldable pub gather_step : Pool → Signals → Pool
  gather_step p s = record {
    worst = min_f fl p.worst s.rrf;
    best = max_f fl p.best s.rrf;
    novelty_sum = add p.novelty_sum (unwrap_or (zero_f fl) s.novelty);
    novelty_count = if is_some s.novelty then p.novelty_count + 1 else p.novelty_count;
  }

  unfoldable pub gather : Pool → List Signals → Pool
  gather p [] = p
  gather p (s ∷ rest) = gather (gather_step p s) rest

  abbrev pub empty_pool : Pool
  empty_pool = record {
    worst = infinity;
    best = neg_infinity;
    novelty_sum = ratio 0 1;
    novelty_count = 0;
  }

  -- `rrf` stretched over the pool.
  unfoldable pub normalize : Pool → F → F
  normalize p rrf =
      if le p.best (zero_f fl)
      then ratio 0 1
      else if lt fl (zero_f fl) (sub p.best p.worst)
      then div (sub rrf p.worst) (sub p.best p.worst)
      else ratio 1 1

  unfoldable pub novelty_mean : Pool → F
  novelty_mean p =
      if ltb 0 p.novelty_count then div p.novelty_sum (ratio p.novelty_count 1) else ratio 0 1

  unfoldable pub novelty_term : Pool → Option F → F
  novelty_term p none = ratio 0 1
  novelty_term p (some novelty) = sub novelty (novelty_mean p)

  unfoldable pub score_of : Pool → Signals → F
  unfolding novelty_term
  score_of p s =
      add
        (add
          (add (add (mul weight_rrf (normalize p s.rrf)) (mul weight_retention s.retention))
            (mul weight_importance s.importance))
          (mul weight_temporal (unwrap_or (zero_f fl) s.temporal)))
        (mul weight_novelty (novelty_term p s.novelty))

  unfoldable pub rank_one : Pool → Signals → Ranked
  rank_one p s = record { signals = s; rrf_normalized = normalize p s.rrf; score = score_of p s }

  module _ {ℓ} {T : Type ℓ} where
    abbrev pub signals_of : T × Signals → Signals
    signals_of (item, s) = s

    abbrev pub place : Pool → T × Signals → T × Ranked
    place p (item, s) = (item, rank_one p s)

    -- `b.score.total_cmp(&a.score)` is not `Greater`: the higher score goes first.
    abbrev pub by_score : T × Ranked → T × Ranked → Bool
    by_score (x, a) (y, b) = le b.score a.score

    unfoldable pub rank : List (T × Signals) → List (T × Ranked)
    rank candidates =
        let pool = gather empty_pool (map signals_of candidates) in
        sort_by by_score (map (place pool) candidates)

  module _ (clock : Clock F) where
    open clock use {Time, before, seconds_since}

    -- `later - earlier` in days, and 0 where `later` is the earlier one.
    unfoldable pub days_between : Time → Time → F
    days_between earlier later =
        max_f fl (div (seconds_since later earlier) seconds_per_day) (zero_f fl)

    unfoldable pub retention : DecayClass → F → Time → Time → F
    retention class strength last_accessed now =
        if eq (rate class) (zero_f fl)
        then ratio 1 1
        else exp (
            div (mul (neg fl (days_between last_accessed now)) (rate class))
              (clamp fl strength min_stability max_stability))

    unfoldable pub for_memory : F → MemoryRecord F Time → Time → Signals
    for_memory rrf m now = record {
      rrf = rrf;
      similarity = none;
      temporal = none;
      novelty = m.novelty;
      retention = retention m.decay_class m.strength m.last_accessed now;
      importance = importance m.decay_class;
    }

    -- `memory.invalid_at.is_none_or(|closed| instant < closed)` and `valid_from <= instant`
    unfoldable pub is_valid_at : MemoryRecord F Time → Time → Bool
    is_valid_at m instant =
        before m.valid_from instant
        && elim m.invalid_at [ none ↦ true | some closed ↦ not (before closed instant) ]

    pub record TemporalQuery : Type 0 where
      pub since : Option Time
      pub until : Option Time
      pub changed_since : Option Time

    pub record Interval : Type 0 where
      pub from : Time
      pub to : Option Time

    starts_late : Option Time → Interval → F
    starts_late none valid = ratio 0 1
    starts_late (some until) valid = days_between until valid.from

    ended_early : Option Time → Option Time → F
    ended_early (some since) (some to) = days_between to since
    ended_early (some since) none = ratio 0 1
    ended_early none to = ratio 0 1

    abbrev pub falloff : F → F
    falloff gap = exp (div (neg fl gap) temporal_tau_days)

    unfoldable pub temporal_fit : TemporalQuery → Interval → Time → F
    unfolding starts_late ended_early
    temporal_fit query valid changed =
        let gap = max_f fl (starts_late query.until valid) (ended_early query.since valid.to) in
        let window : F =
          if is_some query.since || is_some query.until
          then min_f fl (ratio 1 1) (falloff gap)
          else ratio 1 1 in
        elim query.changed_since [
          | none ↦ window
          | some cutoff ↦ min_f fl window (falloff (days_between changed cutoff))
        ]
