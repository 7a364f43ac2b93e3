-- ===== src/Scoring/Decay.antt =====
-- The decay curve of scoring.rs: `retention` stays between 0 and 1, and use flattens it up to the
-- ceiling.
use agmem.Prelude.{◌≡◌, refl, true, false, arith, if◌then◌else◌, Bool-cases, inl, inr}
use agmem.Float.{Float, lt, max_f, clamp, neg, zero_f, one_f, le_refl}
use agmem.Model.{DecayClass, pinned, slow, normal, fast}
use agmem.Scoring.{
  Clock, retention, days_between, rate, eq, min_stability, max_stability, seconds_per_day,
}
use agmem.Scoring.Laws.{FloatLaws}
use agmem.Scoring.Ranking.{IsUnit}

module _ (fl : Float) (laws : FloatLaws fl) where
  open fl use {F, le, mul, div, exp, finite, le_total, le_trans}

  lt-le : (a b : F) → lt fl a b ≡ true → le a b ≡ true
  lt-le a b h = ground (arith, le_total b a)

  lt-le_trans : (a b c : F) → lt fl a b ≡ true → le b c ≡ true → lt fl a c ≡ true
  lt-le_trans a b c h k = ground (arith, le_trans b c a)

  -- A class that decays has a positive rate.
  rate_pos :
      (class : DecayClass)
      → eq fl (rate fl class) (zero_f fl) ≡ false
      → lt fl (zero_f fl) (rate fl class) ≡ true
  unfolding rate
  rate_pos pinned h = absurd (ground (arith, le_refl fl (zero_f fl)))
  rate_pos slow h = laws.ratio_pos 5 1000 (omega arith) (omega arith) (omega arith)
  rate_pos normal h = laws.ratio_pos 2 100 (omega arith) (omega arith) (omega arith)
  rate_pos fast h = laws.ratio_pos 15 100 (omega arith) (omega arith) (omega arith)

  rate_finite : (class : DecayClass) → finite (rate fl class) ≡ true
  unfolding rate
  rate_finite pinned = laws.ratio_finite 0 1 (omega arith) (omega arith)
  rate_finite slow = laws.ratio_finite 5 1000 (omega arith) (omega arith)
  rate_finite normal = laws.ratio_finite 2 100 (omega arith) (omega arith)
  rate_finite fast = laws.ratio_finite 15 100 (omega arith) (omega arith)

  stability : F → F
  stability strength = clamp fl strength (min_stability fl) (max_stability fl)

  bounds_ordered : le (min_stability fl) (max_stability fl) ≡ true
  bounds_ordered = laws.ratio_mono 1 100 5 1 (omega arith) (omega arith) (omega arith)

  min_le-stability : (s : F) → le (min_stability fl) (stability s) ≡ true
  unfolding stability
  min_le-stability s = ground (arith, le_refl fl (min_stability fl), bounds_ordered)

  stability-le_max : (s : F) → le (stability s) (max_stability fl) ≡ true
  unfolding stability
  stability-le_max s = ground (arith, le_refl fl (max_stability fl), bounds_ordered)

  stability_mono : (s t : F) → le s t ≡ true → le (stability s) (stability t) ≡ true
  unfolding stability
  stability_mono s t h = ground (
    arith,
    le_refl fl (min_stability fl),
    le_refl fl (max_stability fl),
    bounds_ordered,
    le_trans (min_stability fl) s t,
    le_trans s t (min_stability fl),
    le_trans s t (max_stability fl),
    le_total (min_stability fl) t,
    le_total t (max_stability fl),
    le_total s (max_stability fl),
    le_total (max_stability fl) s,
    le_trans (max_stability fl) s t,
    h,
  )

  stability_capped : (s : F) → lt fl (max_stability fl) s ≡ true → stability s ≡ max_stability fl
  unfolding stability
  stability_capped s h = ground (
    arith,
    le_trans s (min_stability fl) (max_stability fl),
    bounds_ordered,
    le_total s (max_stability fl),
    le_total s (min_stability fl),
  )

  stability_max : stability (max_stability fl) ≡ max_stability fl
  unfolding stability
  stability_max = ground (arith, bounds_ordered, le_refl fl (max_stability fl))

  stability_pos : (s : F) → lt fl (zero_f fl) (stability s) ≡ true
  stability_pos s =
      lt-le_trans _ _ _ (laws.ratio_pos 1 100 (omega arith) (omega arith) (omega arith))
        (min_le-stability s)

  stability_finite : (s : F) → finite (stability s) ≡ true
  stability_finite s =
      laws.finite_between (min_stability fl) (stability s) (max_stability fl)
        (laws.ratio_finite 1 100 (omega arith) (omega arith))
        (laws.ratio_finite 5 1 (omega arith) (omega arith)) (min_le-stability s)
        (stability-le_max s)

  pub max_nonneg : (a : F) → le (zero_f fl) (max_f fl a (zero_f fl)) ≡ true
  max_nonneg a = ground (arith, le_refl fl (zero_f fl), le_total a (zero_f fl))

  module _ (clock : Clock F) where
    open clock use {Time, seconds_since}

    -- What the exponent of the curve divides by the stability.
    spent : DecayClass → Time → Time → F
    spent class last now = mul (neg fl (days_between fl clock last now)) (rate fl class)

    spent_nonpos :
        (class : DecayClass) (last now : Time)
        → eq fl (rate fl class) (zero_f fl) ≡ false
        → le (spent class last now) (zero_f fl) ≡ true
    unfolding spent days_between
    spent_nonpos class last now h =
        let days_nonneg = max_nonneg (div (seconds_since now last) (seconds_per_day fl)) in
        le_trans _ _ _
          (laws.mul_mono _ _ _ (rate_pos class h) (rate_finite class)
            (le_trans _ _ _ (laws.neg_anti _ _ days_nonneg) laws.neg_zero_le))
          (laws.zero_mul _ (rate_finite class))

    retention-eq :
        (class : DecayClass) (strength : F) (last now : Time)
        → retention fl clock class strength last now ≡ (
            if eq fl (rate fl class) (zero_f fl)
            then one_f fl
            else exp (div (spent class last now) (stability strength)))
    unfolding retention spent stability
    retention-eq class strength last now = refl

    -- Retention lies between 0 and 1, for every class, strength and pair of stamps.
    retention-IsUnit :
        (class : DecayClass) (strength : F) (last now : Time)
        → IsUnit fl laws (retention fl clock class strength last now)
    retention-IsUnit class strength last now =
        elim (Bool-cases (eq fl (rate fl class) (zero_f fl))) [
          | inl e ↦
              rw (retention-eq class strength last now, e)
                (
                  laws.ratio_mono 0 1 1 1 (omega arith) (omega arith) (omega arith),
                  le_refl fl (one_f fl),
                )
          | inr e ↦
              rw (retention-eq class strength last now, e)
                (
                  laws.exp_nonneg _,
                  laws.exp_le_one _ (
                      le_trans _ _ _
                        (laws.div_mono _ _ _ (stability_pos strength) (stability_finite strength)
                          (spent_nonpos class last now e))
                        (laws.zero_div _ (stability_pos strength))),
                )
        ]

    -- Of two memories of one class and one last access, the stronger retains at least as much.
    retention_mono :
        (class : DecayClass) (s t : F) (last now : Time)
        → le s t ≡ true
        → le (retention fl clock class s last now) (retention fl clock class t last now) ≡ true
    retention_mono class s t last now h = elim (Bool-cases (eq fl (rate fl class) (zero_f fl))) [
      | inl e ↦
          rw (retention-eq class s last now, retention-eq class t last now, e)
            (le_refl fl (one_f fl))
      | inr e ↦
          rw (retention-eq class s last now, retention-eq class t last now, e)
            (laws.exp_mono _ _ (
              laws.div_anti _ _ _ (spent_nonpos class last now e) (stability_pos s)
                (stability_finite t) (stability_mono s t h)))
    ]

    -- Retention lies between 0 and 1, for every class, strength and pair of stamps; and of two
    -- memories of one class and one last access, the stronger retains at least as much.
    pub retention_grows :
        (class : DecayClass) (s t : F) (last now : Time)
        → le s t ≡ true
        → IsUnit fl laws (retention fl clock class s last now)
          × IsUnit fl laws (retention fl clock class t last now)
          × (le (retention fl clock class s last now) (retention fl clock class t last now) ≡ true)
    retention_grows class s t last now h = (
      retention-IsUnit class s last now,
      retention-IsUnit class t last now,
      retention_mono class s t last now h,
    )

    -- A strength above the ceiling of 5 retains exactly what the ceiling does.
    pub retention_capped :
        (class : DecayClass) (s : F) (last now : Time)
        → lt fl (max_stability fl) s ≡ true
        → retention fl clock class s last now ≡ retention fl clock class (max_stability fl) last now
    retention_capped class s last now h =
        rw
          (
            retention-eq class s last now,
            retention-eq class (max_stability fl) last now,
            stability_capped s h,
            stability_max,
          )
          refl
