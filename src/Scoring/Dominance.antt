-- ===== src/Scoring/Dominance.antt =====
-- Candidates compared signal by signal: proofs on the score and the order of `rank` in scoring.rs.
use agmem.Prelude.{
  ℕ, zero, suc, ◌<◌, ◌≤◌, ◌≡◌, ◌⊎◌, inl, inr, refl, Bool, true, some, List, [], ◌∷◌, map, arith,
  get_elem?, All, All-map, Bool-cases, subst, leb,
}
use mathlib.Core.Option.{some-injective}
use agmem.Float.{Float, lt, zero_f, one_f, le_refl}
use agmem.Sort.{sort_by, IsSorted, All-sort_by}
use agmem.Scoring.{
  Signals, Ranked, Pool, empty_pool, normalize, novelty_term, score_of, rank_one, rank, signals_of,
  by_score, unwrap_or, eq,
}
use agmem.Scoring.Laws.{FloatLaws}
use agmem.Scoring.Ranking.{
  Within, gather-Within, pool_of, All-place, rank-IsSorted, not_below, pool_finite,
}

module _ {ℓ κ} {A : Type ℓ} (P : A → Type κ) where
  All-get_elem? : (xs : List A) (i : ℕ) (x : A) → All P xs → get_elem? xs i ≡ some x → P x
  All-get_elem? [] i x h e = cc
  All-get_elem? (y ∷ ys) zero x h e = subst P (some-injective y x e) h.0
  All-get_elem? (y ∷ ys) (suc i) x h e = All-get_elem? ys i x h.1 e

  All-both {μ} : (Q : A → Type μ) (xs : List A) → All P xs → All Q xs → All (λ x. P x × Q x) xs
  All-both Q [] h k = tt
  All-both Q (x ∷ xs) h k = ((h.0, k.0), All-both Q xs h.1 k.1)

-- In a sorted list an element is ordered with each that stands behind it.
IsSorted-get_elem? {ℓ} :
    {A : Type ℓ} (leq : A → A → Bool) (xs : List A) (i j : ℕ) (x y : A)
    → IsSorted leq xs
    → i < j
    → get_elem? xs i ≡ some x
    → get_elem? xs j ≡ some y
    → leq x y ≡ true
IsSorted-get_elem? leq [] i j x y h less e e' = cc
IsSorted-get_elem? leq (z ∷ zs) i zero x y h less e e' = absurd (omega arith)
IsSorted-get_elem? leq (z ∷ zs) zero (suc j) x y h less e e' =
    subst (λ w. leq w y ≡ true) (some-injective z x e)
      (All-get_elem? (λ w. leq z w ≡ true) zs j y h.0 e')
IsSorted-get_elem? leq (z ∷ zs) (suc i) (suc j) x y h less e e' =
    IsSorted-get_elem? leq zs i j x y h.1 (omega arith) e e'

module _ (fl : Float) where
  open fl use {F, le, add, mul, ratio, finite}

  -- No signal of the first is above the second's, but for novelty, which has weight 0.
  pub record Dominated (s t : Signals fl) : Type 0 where
    pub rrf : le s.rrf t.rrf ≡ true
    pub retention : le s.retention t.retention ≡ true
    pub importance : le s.importance t.importance ≡ true
    pub temporal :
        le (unwrap_or fl (zero_f fl) s.temporal) (unwrap_or fl (zero_f fl) t.temporal) ≡ true

  -- Each number that the score is made of is finite.
  pub record Measured (p : Pool fl) (s : Signals fl) : Type 0 where
    pub rrf : finite s.rrf ≡ true
    pub retention : finite s.retention ≡ true
    pub importance : finite s.importance ≡ true
    pub temporal : finite (unwrap_or fl (zero_f fl) s.temporal) ≡ true
    pub novelty : finite (novelty_term fl p s.novelty) ≡ true

  module _ (laws : FloatLaws fl) where
    above_zero : (c : F) → lt fl (zero_f fl) c ≡ true → le (zero_f fl) c ≡ true
    above_zero c h = ground (arith, h, fl.le_total c (zero_f fl))

    -- A weight `n / d`, above 0 and at most 1.
    module _ (n d : ℕ) (some_weight : 0 < n) (part : n ≤ d) (small : d ≤ 1000) where
      weighted_mono : (a b : F) → le a b ≡ true → le (mul (ratio n d) a) (mul (ratio n d) b) ≡ true
      weighted_mono a b h =
          laws.mul_mono_left a b (ratio n d) (laws.ratio_pos n d some_weight (omega arith) small)
            (laws.ratio_finite n d (omega arith) (omega arith)) h

      weighted_finite : (a : F) → finite a ≡ true → finite (mul (ratio n d) a) ≡ true
      weighted_finite a h =
          laws.mul_finite (ratio n d) a
            (above_zero (ratio n d) (laws.ratio_pos n d some_weight (omega arith) small))
            (laws.ratio_mono n d 1 1 (omega arith) (omega arith) (omega arith)) h

    unweighted :
        (a b : F)
        → finite a ≡ true
        → finite b ≡ true
        → le (mul (zero_f fl) a) (mul (zero_f fl) b) ≡ true
    unweighted a b h k =
        fl.le_trans (mul (zero_f fl) a) (zero_f fl) (mul (zero_f fl) b) (laws.zero_mul a h)
          (laws.le_zero_mul b k)

    unweighted_finite : (a : F) → finite a ≡ true → finite (mul (zero_f fl) a) ≡ true
    unweighted_finite a h =
        laws.mul_finite (zero_f fl) a (le_refl fl (zero_f fl))
          (laws.ratio_mono 0 1 1 1 (omega arith) (omega arith) (omega arith)) h

    normalize_mono :
        (p : Pool fl) (s t : Signals fl)
        → finite p.worst ≡ true
        → finite p.best ≡ true
        → Within fl p s
        → Within fl p t
        → le s.rrf t.rrf ≡ true
        → le (normalize fl p s.rrf) (normalize fl p t.rrf) ≡ true
    unfolding normalize
    normalize_mono p s t w b hs ht h = ground (
      arith,
      laws.stretch_mono p.worst s.rrf t.rrf p.best w b hs.0 h ht.1,
      le_refl fl (zero_f fl),
      le_refl fl (one_f fl),
    )

    score_of_mono :
        (p : Pool fl) (s t : Signals fl)
        → finite p.worst ≡ true
        → finite p.best ≡ true
        → Within fl p s × Measured p s
        → Within fl p t × Measured p t
        → Dominated s t
        → le (score_of fl p s) (score_of fl p t) ≡ true
    unfolding score_of
    score_of_mono p s t w b (inside_s, ms) (inside_t, mt) below =
        laws.add_mono _ _ _ _ (unweighted_finite _ ms.novelty) (unweighted_finite _ mt.novelty)
          (laws.add_mono _ _ _ _
            (weighted_finite 15 100 (omega arith) (omega arith) (omega arith) _ ms.temporal)
            (weighted_finite 15 100 (omega arith) (omega arith) (omega arith) _ mt.temporal)
            (laws.add_mono _ _ _ _
              (weighted_finite 15 100 (omega arith) (omega arith) (omega arith) _ ms.importance)
              (weighted_finite 15 100 (omega arith) (omega arith) (omega arith) _ mt.importance)
              (laws.add_mono _ _ _ _
                (weighted_finite 25 100 (omega arith) (omega arith) (omega arith) _ ms.retention)
                (weighted_finite 25 100 (omega arith) (omega arith) (omega arith) _ mt.retention)
                (weighted_mono 6 10 (omega arith) (omega arith) (omega arith) _ _
                  (normalize_mono p s t w b inside_s inside_t below.rrf))
                (weighted_mono 25 100 (omega arith) (omega arith) (omega arith) _ _
                  below.retention))
              (weighted_mono 15 100 (omega arith) (omega arith) (omega arith) _ _ below.importance))
            (weighted_mono 15 100 (omega arith) (omega arith) (omega arith) _ _ below.temporal))
          (unweighted _ _ ms.novelty mt.novelty)

    -- A row of the ranking: it has the score of its signals, which the pool bounds.
    abbrev Scored : Pool fl → Ranked fl → Type 0
    Scored p r = (r.score ≡ score_of fl p r.signals) × Within fl p r.signals × Measured p r.signals

    module _ {ℓ} {T : Type ℓ} where
      rank-Scored :
          (candidates : List (T × Signals fl))
          → All (Measured (pool_of fl candidates)) (map (signals_of fl) candidates)
          → All (λ c. Scored (pool_of fl candidates) c.1) (rank fl candidates)
      unfolding rank
      rank-Scored candidates h =
          let p = pool_of fl candidates in
          let ss = map (signals_of fl) candidates in
          All-sort_by (by_score fl) (λ c. Scored p c.1) _
            (All-place fl (λ s. Within fl p s × Measured p s) (Scored p) p candidates
              (λ s known. unfold rank_one in (refl, known.0, known.1))
              (All-both (Within fl p) (Measured p) ss (gather-Within fl (empty_pool fl) ss) h))

      rows_mono :
          (candidates : List (T × Signals fl)) (i j : ℕ) (x y : T) (a b : Ranked fl)
          → All (Measured (pool_of fl candidates)) (map (signals_of fl) candidates)
          → get_elem? (rank fl candidates) i ≡ some (x, a)
          → get_elem? (rank fl candidates) j ≡ some (y, b)
          → Dominated a.signals b.signals
          → le a.score b.score ≡ true
      rows_mono [] i j x y a b h e e' below = unfold rank sort_by in cc
      rows_mono (c ∷ candidates) i j x y a b h e e' below =
          let p = pool_of fl (c ∷ candidates) in
          let ss = map (signals_of fl) candidates in
          let rows = rank-Scored (c ∷ candidates) h in
          let (score_a, inside_a, measured_a) =
            All-get_elem? (λ r. Scored p r.1) (rank fl (c ∷ candidates)) i (x, a) rows e in
          let (score_b, inside_b, measured_b) =
            All-get_elem? (λ r. Scored p r.1) (rank fl (c ∷ candidates)) j (y, b) rows e' in
          let ends = pool_finite fl laws (signals_of fl c) ss (
            All-map (Measured p) (λ s. finite s.rrf ≡ true) (signals_of fl c ∷ ss) (λ s m. m.rrf)
              h) in
          rw (score_a, score_b)
            (score_of_mono p a.signals b.signals ends.0 ends.1 (inside_a, measured_a)
              (inside_b, measured_b) below)

      -- Where the signals of all candidates, and their novelty above the pool's mean, are finite: of
      -- two rows of the ranking, where the first has no retrieval score, retention, importance or
      -- temporal fit above the second's, the first's score is not above the second's either, and the
      -- first stands behind the second, is the same row, or ties with it.
      pub rank_dominates :
          (candidates : List (T × Signals fl)) (i j : ℕ) (x y : T) (a b : Ranked fl)
          → All (Measured (pool_of fl candidates)) (map (signals_of fl) candidates)
          → get_elem? (rank fl candidates) i ≡ some (x, a)
          → get_elem? (rank fl candidates) j ≡ some (y, b)
          → Dominated a.signals b.signals
          → (le a.score b.score ≡ true) × ((j ≤ i) ⊎ (eq fl a.score b.score ≡ true))
      rank_dominates candidates i j x y a b h e e' below =
          let low = rows_mono candidates i j x y a b h e e' below in
          (
            low,
            elim (Bool-cases (leb j i)) [
              | inl behind ↦ inl (ground (arith, behind))
              | inr ahead ↦
                  let high : le b.score a.score ≡ true =
                    IsSorted-get_elem? (not_below fl) (rank fl candidates) i j (x, a) (y, b)
                      (rank-IsSorted fl candidates) (ground (arith, ahead)) e e' in
                  inr (ground (arith, low, high))
            ],
          )
