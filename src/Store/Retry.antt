-- ===== src/Store/Retry.antt =====
-- The loop of `insert_batch` in crates/agmem-store/src/repo/write.rs.
use agmem.Prelude.{
  ℕ, zero, suc, ◌+◌, ◌≤◌, ◌<◌, ◌≡◌, ◌⊎◌, refl, true, false, inl, inr, arith, dec_lt, Bool-cases,
}
use agmem.Store.{Batch, BatchOutcome, Stored}
use agmem.Store.Insert.{Engine, insert_batch_once, is_race, attempt, retries, insert_batch}

module _ {F Time : Type 0} (engine : ℕ → Engine F Time) (batch : Batch F Time) where
  abbrev pub try_at : ℕ → Stored BatchOutcome
  try_at n = insert_batch_once (engine n) batch

  -- The attempt that decides, from attempt `first` on with `left` more.
  abbrev pub Decides : ℕ → ℕ → Stored BatchOutcome → Type 0
  Decides first left outcome =
      (n : ℕ) × (first ≤ n)
      × (n ≤ first + left)
      × (outcome ≡ try_at n)
      × ((m : ℕ) → first ≤ m → m < n → is_race (try_at m) ≡ true)
      × ((n ≡ first + left) ⊎ (is_race (try_at n) ≡ false))

  attempt-Decides : (left first : ℕ) → Decides first left (attempt engine first left batch)
  unfolding attempt
  attempt-Decides zero first =
      (first, omega arith, omega arith, refl, (λ m h k. absurd (omega arith)), inl (omega arith))
  attempt-Decides (suc left) first = elim (Bool-cases (is_race (try_at first))) [
    | inr fine ↦
        (first, omega arith, omega arith, rw fine refl, (λ m h k. absurd (omega arith)), inr fine)
    | inl race ↦
        let (n, low, high, same, before, last) = attempt-Decides left (suc first) in
        (
          n,
          omega (arith, low),
          omega (arith, high),
          rw race same,
          (λ m h k. elim (dec_lt first m) [
            | yes p ↦ before m (omega arith) k
            | no p ↦ let here : m ≡ first = omega arith in rw here race
          ]),
          elim last [ inl e ↦ inl (omega (arith, e)) | inr fine ↦ inr fine ],
        )
  ]

  -- A batch is tried three times at most: the answer is that of the first attempt that does not
  -- lose a write race, or of the third.
  pub insert_batch-Decides : Decides 0 retries (insert_batch engine batch)
  unfolding insert_batch
  insert_batch-Decides = attempt-Decides retries 0
