-- ===== src/Scoring/Temporal.antt =====
-- The temporal signal of scoring.rs: `temporal_fit` lies between 0 and 1, and is 1 for a memory that
-- held inside the window asked for.
use agmem.Prelude.{
  ◌≡◌, refl, true, false, Bool, not, ◌||◌, Option, none, some, arith, if◌then◌else◌, Bool-cases,
  inl, inr, is_some, Option-cases, subst,
}
use agmem.Float.{Float, lt, min_f, max_f, zero_f, one_f, le_refl}
use agmem.Scoring.{
  Clock, days_between, temporal_fit, falloff, TemporalQuery, Interval, starts_late, ended_early,
  temporal_tau_days,
}
use agmem.Scoring.Laws.{FloatLaws}
use agmem.Scoring.Ranking.{IsUnit}

module _ (fl : Float) (laws : FloatLaws fl) where
  open fl use {F, le, exp, div, le_total, le_trans}

  tau_pos : lt fl (zero_f fl) (temporal_tau_days fl) ≡ true
  tau_pos = laws.ratio_pos 30 1 (omega arith) (omega arith) (omega arith)

  zero_le-one : le (zero_f fl) (one_f fl) ≡ true
  zero_le-one = laws.ratio_mono 0 1 1 1 (omega arith) (omega arith) (omega arith)

  min-IsUnit :
      (a b : F) → IsUnit fl laws a → le (zero_f fl) b ≡ true → IsUnit fl laws (min_f fl a b)
  min-IsUnit a b (low, high) k = elim (Bool-cases (le a b)) [
    | inl e ↦ rw (e) (low, high)
    | inr e ↦ rw (e) (k, le_trans b a (one_f fl) (le_total a b e) high)
  ]

  one-IsUnit : IsUnit fl laws (one_f fl)
  one-IsUnit = (zero_le-one, le_refl fl (one_f fl))

  max_nonpos : (a b c : F) → le a c ≡ true → le b c ≡ true → le (max_f fl a b) c ≡ true
  max_nonpos a b c h k = ground (arith, h, k)

  min_one :
      (a b : F)
      → le (one_f fl) a ≡ true
      → le (one_f fl) b ≡ true
      → le (one_f fl) (min_f fl a b) ≡ true
  min_one a b h k = ground (arith, h, k)

  if_IsUnit :
      (b : Bool) (x y : F)
      → IsUnit fl laws x
      → IsUnit fl laws y
      → IsUnit fl laws (if b then x else y)
  if_IsUnit true x y h k = h
  if_IsUnit false x y h k = k

  if_one :
      (b : Bool) (x y : F)
      → le (one_f fl) x ≡ true
      → le (one_f fl) y ≡ true
      → le (one_f fl) (if b then x else y) ≡ true
  if_one true x y h k = h
  if_one false x y h k = k

  module _ (clock : Clock F) where
    open clock use {Time, before, seconds_since}

    falloff_one :
        (gap : F) → le gap (zero_f fl) ≡ true → le (one_f fl) (falloff fl clock gap) ≡ true
    falloff_one gap h = laws.one_le_exp _ (
        le_trans _ _ _ (laws.le_zero_div _ tau_pos) (
          laws.div_mono _ _ _ tau_pos (laws.ratio_finite 30 1 (omega arith) (omega arith))
            (le_trans _ _ _ laws.le_neg_zero (laws.neg_anti _ _ h))))

    falloff-IsUnit :
        (a gap : F) → IsUnit fl laws a → IsUnit fl laws (min_f fl a (falloff fl clock gap))
    falloff-IsUnit a gap h = min-IsUnit a (falloff fl clock gap) h (laws.exp_nonneg _)

    gap_of : TemporalQuery fl clock → Interval fl clock → F
    gap_of query valid =
        max_f fl (starts_late fl clock query.until valid)
          (ended_early fl clock query.since valid.to)

    -- The fit of the window alone.
    window_fit : TemporalQuery fl clock → Interval fl clock → F
    window_fit query valid =
        if is_some query.since || is_some query.until
        then min_f fl (one_f fl) (falloff fl clock (gap_of query valid))
        else one_f fl

    temporal_fit-none :
        (query : TemporalQuery fl clock) (valid : Interval fl clock) (changed : Time)
        → query.changed_since ≡ none
        → temporal_fit fl clock query valid changed ≡ window_fit query valid
    unfolding temporal_fit window_fit gap_of
    temporal_fit-none query valid changed h = rw (h) refl

    temporal_fit-some :
        (query : TemporalQuery fl clock) (valid : Interval fl clock) (changed cutoff : Time)
        → query.changed_since ≡ some cutoff
        → temporal_fit fl clock query valid changed
          ≡ min_f fl
              (window_fit query valid)
              (falloff fl clock (days_between fl clock changed cutoff))
    unfolding temporal_fit window_fit gap_of
    temporal_fit-some query valid changed cutoff h = rw (h) refl

    window-IsUnit :
        (query : TemporalQuery fl clock) (valid : Interval fl clock)
        → IsUnit fl laws (window_fit query valid)
    unfolding window_fit
    window-IsUnit query valid = if_IsUnit _ _ _ (falloff-IsUnit _ _ one-IsUnit) one-IsUnit

    -- The fit of a memory to a temporal query lies between 0 and 1, whatever the query, the interval
    -- the memory held in and the stamp of its last change.
    pub temporal_fit-IsUnit :
        (query : TemporalQuery fl clock) (valid : Interval fl clock) (changed : Time)
        → IsUnit fl laws (temporal_fit fl clock query valid changed)
    temporal_fit-IsUnit query valid changed = elim (Option-cases query.changed_since) [
      | inl h ↦ rw (temporal_fit-none query valid changed h) (window-IsUnit query valid)
      | inr (cutoff, h) ↦
          rw (temporal_fit-some query valid changed cutoff h)
            (falloff-IsUnit _ _ (window-IsUnit query valid))
    ]

    -- `earlier` is absent or not after `later`, where that is present.
    abbrev pub reaches : Option Time → Option Time → Bool
    reaches none later = true
    reaches (some earlier) none = true
    reaches (some earlier) (some later) = not (before later earlier)

    module _
        (back : (a b : Time) → before a b ≡ false → le (seconds_since b a) (zero_f fl) ≡ true) where
      days_nonpos :
          (earlier later : Time)
          → not (before earlier later) ≡ true
          → le (days_between fl clock earlier later) (zero_f fl) ≡ true
      unfolding days_between
      days_nonpos earlier later h =
          max_nonpos _ _ _
            (le_trans _ _ _
              (laws.div_mono _ _ _
                (laws.ratio_pos 86400 1 (omega arith) (omega arith) (omega arith))
                (laws.ratio_finite 86400 1 (omega arith) (omega arith))
                (back earlier later (ground arith)))
              (laws.zero_div _ (laws.ratio_pos 86400 1 (omega arith) (omega arith) (omega arith))))
            (le_refl fl (zero_f fl))

      starts_late_nonpos :
          (until : Option Time) (valid : Interval fl clock)
          → reaches (some valid.from) until ≡ true
          → le (starts_late fl clock until valid) (zero_f fl) ≡ true
      unfolding starts_late
      starts_late_nonpos none valid h = le_refl fl (zero_f fl)
      starts_late_nonpos (some until) valid h = days_nonpos until valid.from h

      ended_early_nonpos :
          (since to : Option Time)
          → reaches since to ≡ true
          → le (ended_early fl clock since to) (zero_f fl) ≡ true
      unfolding ended_early
      ended_early_nonpos none to h = le_refl fl (zero_f fl)
      ended_early_nonpos (some since) none h = le_refl fl (zero_f fl)
      ended_early_nonpos (some since) (some to) h = days_nonpos to since h

      window_inside :
          (query : TemporalQuery fl clock) (valid : Interval fl clock)
          → reaches (some valid.from) query.until ≡ true
          → reaches query.since valid.to ≡ true
          → le (one_f fl) (window_fit query valid) ≡ true
      unfolding window_fit gap_of
      window_inside query valid opens ends =
          let gap =
            max_nonpos _ _ _ (starts_late_nonpos query.until valid opens)
              (ended_early_nonpos query.since valid.to ends) in
          if_one (is_some query.since || is_some query.until) _ _
            (min_one _ _ (le_refl fl (one_f fl)) (falloff_one _ gap)) (le_refl fl (one_f fl))

      -- A memory that held at some moment of the window asked for, and changed at or after the cutoff
      -- where the query names one, has a fit of at least 1, when the clock counts no positive span
      -- from a stamp to one that does not come after it.
      pub temporal_fit_inside :
          (query : TemporalQuery fl clock) (valid : Interval fl clock) (changed : Time)
          → reaches (some valid.from) query.until ≡ true
          → reaches query.since valid.to ≡ true
          → reaches query.changed_since (some changed) ≡ true
          → le (one_f fl) (temporal_fit fl clock query valid changed) ≡ true
      temporal_fit_inside query valid changed opens ends fresh =
          let window = window_inside query valid opens ends in
          elim (Option-cases query.changed_since) [
            | inl h ↦ rw (temporal_fit-none query valid changed h) window
            | inr (cutoff, h) ↦ rw (temporal_fit-some query valid changed cutoff h) (
                min_one _ _ window (
                  falloff_one _ (
                    days_nonpos changed cutoff
                      (subst (λ c. reaches c (some changed) ≡ true) h fresh))))
          ]
