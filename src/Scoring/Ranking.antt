-- ===== src/Scoring/Ranking.antt =====
-- The order that `rank` of scoring.rs puts the candidates in, and the range of its retrieval term.
use agmem.Prelude.{◌≡◌, Bool, true, false, List, [], ◌∷◌, map, arith, All}
use agmem.Float.{Float, min_f, max_f, zero_f, one_f, le_refl}
use agmem.Sort.{sort_by, IsSorted, sort_by-IsSorted, All-sort_by}
use agmem.Scoring.{
  Signals, Ranked, Pool, gather, gather_step, empty_pool, normalize, rank_one, rank, signals_of,
  place, by_score,
}
use agmem.Scoring.Laws.{FloatLaws}

module _ (fl : Float) where
  open fl use {F, le, finite, le_total, le_trans}

  -- The extremes of the retrieval scores bound each of them.
  gather_worst_le :
      (p : Pool fl) (ss : List (Signals fl)) → le (gather fl p ss).worst p.worst ≡ true
  unfolding gather gather_step
  gather_worst_le p [] = le_refl fl p.worst
  gather_worst_le p (s ∷ ss) =
      le_trans _ _ _ (gather_worst_le (gather_step fl p s) ss) (least p.worst s.rrf)
    where
      least : (a b : F) → le (min_f fl a b) a ≡ true
      least a b = ground (arith, le_refl fl a, le_total a b)

  gather_le_best : (p : Pool fl) (ss : List (Signals fl)) → le p.best (gather fl p ss).best ≡ true
  unfolding gather gather_step
  gather_le_best p [] = le_refl fl p.best
  gather_le_best p (s ∷ ss) =
      le_trans _ _ _ (most p.best s.rrf) (gather_le_best (gather_step fl p s) ss)
    where
      most : (a b : F) → le a (max_f fl a b) ≡ true
      most a b = ground (arith, le_refl fl a)

  abbrev pub Within : Pool fl → Signals fl → Type 0
  Within p s = (le p.worst s.rrf ≡ true) × (le s.rrf p.best ≡ true)

  pub gather-Within : (p : Pool fl) (ss : List (Signals fl)) → All (Within (gather fl p ss)) ss
  unfolding gather gather_step
  gather-Within p [] = tt
  gather-Within p (s ∷ ss) = (
    (
      le_trans _ _ _ (gather_worst_le (gather_step fl p s) ss) (least p.worst s.rrf),
      le_trans _ _ _ (most p.best s.rrf) (gather_le_best (gather_step fl p s) ss),
    ),
    gather-Within (gather_step fl p s) ss,
  )
    where
      least : (a b : F) → le (min_f fl a b) b ≡ true
      least a b = ground (arith, le_refl fl b)

      most : (a b : F) → le b (max_f fl a b) ≡ true
      most a b = ground (arith, le_refl fl b, le_total a b)

  -- The best of scores that are all at most `b` is at most `b`.
  gather_best_le :
      (b : F) (p : Pool fl) (ss : List (Signals fl))
      → le p.best b ≡ true
      → All (λ s. le s.rrf b ≡ true) ss
      → le (gather fl p ss).best b ≡ true
  unfolding gather gather_step
  gather_best_le b p [] h k = h
  gather_best_le b p (s ∷ ss) h k = gather_best_le b (gather_step fl p s) ss (ground arith) k.1

  module _ {ℓ} {T : Type ℓ} where
    abbrev pub pool_of : List (T × Signals fl) → Pool fl
    pool_of candidates = gather fl (empty_pool fl) (map (signals_of fl) candidates)

    by_score_total : (a b : T × Ranked fl) → by_score fl a b ≡ false → by_score fl b a ≡ true
    by_score_total (x, a) (y, b) h = le_total b.score a.score h

    by_score_trans :
        (a b c : T × Ranked fl)
        → by_score fl a b ≡ true
        → by_score fl b c ≡ true
        → by_score fl a c ≡ true
    by_score_trans (x, a) (y, b) (z, c) h k = le_trans c.score b.score a.score k h

    -- The second row's score is not above the first's.
    abbrev pub not_below : T × Ranked fl → T × Ranked fl → Bool
    not_below (x, a) (y, b) = le b.score a.score

    pub rank-IsSorted :
        (candidates : List (T × Signals fl)) → IsSorted not_below (rank fl candidates)
    unfolding rank
    rank-IsSorted candidates =
        sort_by-IsSorted (by_score fl) by_score_total by_score_trans
          (map (place fl (pool_of candidates)) candidates)

    pub All-place :
        (P : Signals fl → Type 0) (Q : Ranked fl → Type 0) (p : Pool fl)
        (candidates : List (T × Signals fl))
        → ((s : Signals fl) → P s → Q (rank_one fl p s))
        → All P (map (signals_of fl) candidates)
        → All (λ c. Q c.1) (map (place fl p) candidates)
    All-place P Q p [] f h = tt
    All-place P Q p ((item, s) ∷ candidates) f h = (f s h.0, All-place P Q p candidates f h.1)

    -- On the filters-only path, where no candidate has a retrieval score above 0, the retrieval term
    -- is 0 throughout.
    rank_unretrieved :
        (candidates : List (T × Signals fl))
        → All (λ s. le s.rrf (zero_f fl) ≡ true) (map (signals_of fl) candidates)
        → All (λ c. c.1.rrf_normalized ≡ zero_f fl) (rank fl candidates)
    unfolding rank
    rank_unretrieved candidates h =
        let p = pool_of candidates in
        let flat =
          gather_best_le (zero_f fl) (empty_pool fl) (map (signals_of fl) candidates)
            (fl.neg_infinity_le (zero_f fl)) h in
        All-sort_by (by_score fl) (λ c. c.1.rrf_normalized ≡ zero_f fl) _
          (All-place (λ s. le s.rrf (zero_f fl) ≡ true) (λ r. r.rrf_normalized ≡ zero_f fl) p
            candidates (λ s _. unfold rank_one normalize in rw flat) h)

  module _ (laws : FloatLaws fl) where
    gather_worst_finite :
        (p : Pool fl) (ss : List (Signals fl))
        → finite p.worst ≡ true
        → All (λ s. finite s.rrf ≡ true) ss
        → finite (gather fl p ss).worst ≡ true
    unfolding gather gather_step
    gather_worst_finite p [] h k = h
    gather_worst_finite p (s ∷ ss) h k =
        gather_worst_finite (gather_step fl p s) ss (ground arith) k.1

    gather_best_finite :
        (p : Pool fl) (ss : List (Signals fl))
        → finite p.best ≡ true
        → All (λ s. finite s.rrf ≡ true) ss
        → finite (gather fl p ss).best ≡ true
    unfolding gather gather_step
    gather_best_finite p [] h k = h
    gather_best_finite p (s ∷ ss) h k =
        gather_best_finite (gather_step fl p s) ss (ground arith) k.1

    -- A pool of finite scores that holds a candidate has finite extremes.
    pub pool_finite :
        (s : Signals fl) (ss : List (Signals fl))
        → All (λ s. finite s.rrf ≡ true) (s ∷ ss)
        → (finite (gather fl (empty_pool fl) (s ∷ ss)).worst ≡ true)
          × (finite (gather fl (empty_pool fl) (s ∷ ss)).best ≡ true)
    unfolding gather gather_step
    pool_finite s ss h = (
      gather_worst_finite (gather_step fl (empty_pool fl) s) ss
          (ground (arith, laws.infinity_above s.rrf)) h.1,
      gather_best_finite (gather_step fl (empty_pool fl) s) ss
          (ground (arith, laws.neg_infinity_below s.rrf, fl.neg_infinity_le s.rrf)) h.1,
    )

    abbrev pub IsUnit : F → Type 0
    IsUnit x = (le (zero_f fl) x ≡ true) × (le x (one_f fl) ≡ true)

    normalize-IsUnit :
        (p : Pool fl) (s : Signals fl)
        → finite p.worst ≡ true
        → finite p.best ≡ true
        → Within p s
        → IsUnit (normalize fl p s.rrf)
    unfolding normalize
    normalize-IsUnit p s w b h = ground (
      arith,
      laws.stretch_nonneg p.worst s.rrf p.best w b h.0 h.1,
      laws.stretch_le_one p.worst s.rrf p.best w b h.0 h.1,
      le_refl fl (zero_f fl),
      le_refl fl (one_f fl),
      laws.ratio_mono 0 1 1 1 (omega arith) (omega arith) (omega arith),
    )

    -- With finite retrieval scores every normalised score lies between 0 and 1.
    rank-IsUnit {ℓ} :
        {T : Type ℓ} (candidates : List (T × Signals fl))
        → All (λ s. finite s.rrf ≡ true) (map (signals_of fl) candidates)
        → All (λ c. IsUnit c.1.rrf_normalized) (rank fl candidates)
    unfolding rank
    rank-IsUnit [] h = unfold sort_by in tt
    rank-IsUnit (c ∷ candidates) h =
        let ss = map (signals_of fl) (c ∷ candidates) in
        let p = gather fl (empty_pool fl) ss in
        let ends = pool_finite (signals_of fl c) (map (signals_of fl) candidates) h in
        All-sort_by (by_score fl) (λ d. IsUnit d.1.rrf_normalized) _
          (All-place (Within p) (λ r. IsUnit r.rrf_normalized) p (c ∷ candidates)
            (λ s inside. unfold rank_one in normalize-IsUnit p s ends.0 ends.1 inside)
            (gather-Within (empty_pool fl) ss))
