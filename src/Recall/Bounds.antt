-- ===== src/Recall/Bounds.antt =====
-- What every answer of `recall` keeps to: `run` of crates/agmem-server/src/tools/recall.rs.
use agmem.Prelude.{
  ℕ, ◌≤◌, ◌<◌, ◌≡◌, sym, Option, none, some, map, arith, length, Option-cases, inl, inr, is_some,
}
use agmem.Float.{Float}
use agmem.Scoring.{Clock}
use agmem.Service.{bind_lift, done_inj, Service, spaces, done}
use agmem.Recall.{signals_of}
use agmem.Scoring
use agmem.Recall.Page.{page_holds}
use agmem.Recall.Request.{
  RecallParams, RecallResult, Recalling, run, resolve_k, k_of, answer_of, count_if_full, gather,
  aimed, resolve_liveness, resolve_window,
}

-- The `k` that a request resolves to lies between 1 and the configured maximum.
pub resolve_k_bounds :
    (max_k : ℕ) (requested : Option ℕ) (k : ℕ)
    → resolve_k max_k requested ≡ some k
    → (0 < k) × (k ≤ max_k)
unfolding resolve_k
resolve_k_bounds max_k none k h = ground (arith, h)
resolve_k_bounds max_k (some j) k h = ground (arith, h)

k_of_done : (max_k : ℕ) (requested : Option ℕ) (k : ℕ) → k_of max_k requested ≡ done k → k ≤ max_k
k_of_done max_k requested k h = elim (Option-cases (resolve_k max_k requested)) [
  | inl n ↦ absurd (ground (arith, h, n))
  | inr (j, e) ↦
      let same : j ≡ k = ground (arith, h, e) in
      rw (← same) (resolve_k_bounds max_k requested j e).1
]

module _ (fl : Float) (clock : Clock fl.F) (service : Service fl.F clock.Time)
    (recalling : Recalling fl.F clock.Time) where
  open fl use {F}
  open clock use {Time}

  -- An answer was made, with at most `max_k` hits.
  abbrev Within : Option (RecallResult fl clock) → Type 0
  Within r =
      (result : RecallResult fl clock) × (r ≡ some result)
      × (length result.answer.rows ≤ recalling.max_k)

  -- A request that is not refused, and whose reads succeed, is answered without a panic, and with at
  -- most the configured maximum of hits.
  pub run_bounds :
      (params : RecallParams) (now : Time) (r : Option (RecallResult fl clock))
      → run fl clock service recalling params now ≡ done r
      → (result : RecallResult fl clock) × (r ≡ some result)
        × (length result.answer.rows ≤ recalling.max_k)
  unfolding run answer_of
  run_bounds params now r h = bind_lift Within (spaces service params.space) _ r h (λ names _ h1.
      bind_lift Within (k_of recalling.max_k params.k) _ r h1 (λ k hk h2.
        bind_lift Within
          (resolve_liveness recalling.parse_stamp params.as_of params.include_invalidated) _ r h2
          (λ liveness _ h3.
            bind_lift Within
              (resolve_window fl clock recalling.parse_stamp params.since params.until
                params.changed_since)
              _ r h3
              (λ window _ h4.
                bind_lift Within
                  (gather fl clock service recalling names _ liveness (aimed params.query)) _ r h4
                  (λ found _ h5.
                    let (answer, rest, made, among, short) =
                      page_holds fl clock k (is_some (aimed params.query)) recalling.abstention
                        found.1 (Scoring.rank fl (map (signals_of fl clock window now) found.0)) in
                    bind_lift Within
                      (count_if_full fl clock service recalling names _ liveness k answer) _ r
                      (rw made at h5)
                      (λ truncated _ h6. (
                        _,
                        sym (done_inj _ r h6),
                        omega (arith, short, k_of_done recalling.max_k params.k k hk),
                      )))))))
