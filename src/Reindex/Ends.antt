-- ===== src/Reindex/Ends.antt =====
-- The two loops of crates/agmem-server/src/reindex.rs end.
use agmem.Prelude.{
  ℕ, zero, suc, ◌+◌, ◌-◌, ◌*◌, ◌≤◌, ◌<◌, ◌≡◌, ◌⊎◌, refl, ap, ◌∙◌, true, false, some, List, map,
  arith, ltb, leb, ◌==◌, ==_iff, Bool-cases, Option-cases, inl, inr, if◌then◌else◌,
}
use agmem.Reindex.{
  Backend, Passage, Looped, finished, refused, Drained, complete, gave_up, batch_size, drain_batch,
  drain_give_up, embed_batch, write_vectors, reembed, drain_from, drain_fuel, drain,
}
use agmem.Remember.Validate.{no_texts}

module _ {F : Type 0} (backend : ℕ → Backend F) where
  -- A batch found no row pending: none came back to embed, or none was left when its vectors were
  -- written.
  abbrev pub FoundNone : Backend F → ℕ → Type 0
  FoundNone batch limit =
      ((rows : List Passage) × (batch.pending limit ≡ some rows) × (no_texts rows ≡ true))
      ⊎ (batch.pending_after ≡ some 0)

  none_left-FoundNone :
      (batch : Backend F) (limit : ℕ) → embed_batch batch limit ≡ some 0 → FoundNone batch limit
  unfolding embed_batch
  none_left-FoundNone batch limit h = elim (Option-cases (batch.pending limit)) [
    | inl e ↦ cc (rw e at h)
    | inr (rows, e) ↦ elim (Bool-cases (no_texts rows)) [
      | inl empty ↦ inl (rows, e, empty)
      | inr full ↦ elim (Option-cases (batch.embed_passages (map (λ (p : Passage). p.text) rows))) [
        | inl e' ↦ cc (rw (e, full, e') at h)
        | inr (vectors, e') ↦ elim (Option-cases (write_vectors batch rows vectors)) [
          | inl e'' ↦ cc (rw (e, full, e', e'') at h)
          | inr (_, e'') ↦ inr (rw (e, full, e', e'') at h)
        ]
      ]
    ]
  ]

  -- The loop came to its end after the rows that were embedded before and those that were pending.
  abbrev pub Counted : ℕ → ℕ → Looped → Type 0
  Counted remaining embedded result =
      (result ≡ finished (embedded + remaining))
      × ((remaining ≡ 0) ⊎ ((n : ℕ) × FoundNone (backend n) batch_size))

  Counted-more :
      (left more n embedded : ℕ) (result : Looped)
      → left < suc more
      → embed_batch (backend n) batch_size ≡ some left
      → Counted left (embedded + (suc more - left)) result
      → Counted (suc more) embedded result
  Counted-more left more n embedded result less fine (e, inl none) = (
    e ∙ ap finished (omega (arith, less)),
    inr (n, none_left-FoundNone (backend n) batch_size (fine ∙ ap some none)),
  )
  Counted-more left more n embedded result less fine (e, inr later) =
      (e ∙ ap finished (omega (arith, less)), inr later)

  -- With more rounds than rows pending the loop of `execute` ends, whatever the store and the model
  -- answer: with an error, or reporting as embedded the rows that were embedded before it and all
  -- those that were pending when it began. It reports so only where none was pending or where some
  -- batch found none, and a batch that no row comes back for is such a one.
  pub reembed_ends :
      (fuel n remaining embedded : ℕ)
      → remaining < fuel
      → (reembed backend fuel n remaining embedded ≡ refused)
        ⊎ Counted remaining embedded (reembed backend fuel n remaining embedded)
  unfolding reembed
  reembed_ends zero n remaining embedded h = absurd (omega (arith, h))
  reembed_ends (suc fuel) n zero embedded h = inr (ap finished (omega arith), inl refl)
  reembed_ends (suc fuel) n (suc more) embedded h =
      elim (Option-cases (embed_batch (backend n) batch_size)) [
        | inl bad ↦ inl (rw (bad, reembed) refl)
        | inr (left, fine) ↦ elim (Bool-cases (ltb left (suc more))) [
          | inr stuck ↦ inl (rw (fine, reembed) (rw stuck refl))
          | inl less ↦
              elim (reembed_ends fuel (suc n) left (embedded + (suc more - left))
                (ground (arith, h, less))) [
                  | inl e ↦ inl (rw (fine, reembed) (rw less e))
                  | inr c ↦ inr (
                      rw (fine, reembed)
                        (rw less
                          (Counted-more left more n embedded _ (ground (arith, less)) fine c)))
                ]
        ]
      ]

  -- A batch answered that no row is left, or some are pending, at most as many as at the start.
  abbrev pub Settled : ℕ → Drained → Type 0
  Settled previous result =
      ((n : ℕ) × (embed_batch (backend n) drain_batch ≡ some 0) × (result ≡ complete))
      ⊎ ((left : ℕ) × (left ≤ previous) × (result ≡ gave_up left))

  Settled-weaken :
      (left previous : ℕ) (x : Drained) → left < previous → Settled left x → Settled previous x
  Settled-weaken left previous x below (inl c) = inl c
  Settled-weaken left previous x below (inr (p, at_most, e)) =
      inr (p, omega (arith, below, at_most), e)

  stumbles :
      (failures previous : ℕ) (x : Drained)
      → (leb drain_give_up (suc failures) ≡ false → Settled previous x)
      → Settled previous (if leb drain_give_up (suc failures) then gave_up previous else x)
  stumbles failures previous x again = elim (Bool-cases (leb drain_give_up (suc failures))) [
    | inl last ↦ rw last (inr (previous, omega arith, refl))
    | inr more ↦ rw more (again more)
  ]

  drain_from-Settled :
      (fuel n failures previous : ℕ)
      → failures < drain_give_up
      → drain_give_up * previous + (drain_give_up - failures) ≤ fuel
      → Settled previous (drain_from backend fuel n failures previous)
  unfolding drain_from
  drain_from-Settled zero n failures previous few enough = absurd (omega (arith, few, enough))
  drain_from-Settled (suc fuel) n failures previous few enough =
      let stumbled =
        stumbles failures previous (drain_from backend fuel (suc n) (suc failures) previous)
          (λ again.
            drain_from-Settled fuel (suc n) (suc failures) previous (ground (arith, again))
              (ground (arith, enough, again))) in
      elim (Option-cases (embed_batch (backend n) drain_batch)) [
        | inl bad ↦ rw (bad, drain_from) stumbled
        | inr (left, fine) ↦ elim (Bool-cases (left == 0)) [
          | inl none_left ↦
              let at_zero : left ≡ 0 = (==_iff left 0).0 none_left in
              rw (fine, drain_from) (rw none_left (inl (n, fine ∙ ap some at_zero, refl)))
          | inr some_left ↦ elim (Bool-cases (ltb left previous)) [
            | inl less ↦
                let below : left < previous = ground (arith, less) in
                rw (fine, drain_from)
                  (rw (some_left, less)
                    (Settled-weaken left previous _ below (
                      drain_from-Settled fuel (suc n) 0 left (omega arith)
                        (omega (arith, below, enough)))))
            | inr stuck ↦ rw (fine, drain_from) (rw (some_left, stuck) stumbled)
          ]
        ]
      ]

  -- The background drain ends after at most five batches for each row pending and five more, whatever
  -- the store and the model answer: with a batch that answers that no row is left, or giving up with no
  -- more rows pending than at the start.
  pub drain-Settled : (pending : ℕ) → Settled pending (drain backend pending)
  unfolding drain
  drain-Settled pending =
      drain_from-Settled (drain_fuel pending) 0 0 pending (omega arith) (omega arith)
