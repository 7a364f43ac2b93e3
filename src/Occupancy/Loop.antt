-- ===== src/Occupancy/Loop.antt =====
-- The index loop of `apply` (tools/occupancy.rs) against the specification on rows.
use agmem.Prelude.{
  ℕ, zero, suc, ◌+◌, ◌≤◌, ◌≡◌, ◌≢◌, refl, ap, ap₂, subst, String, min, true, false, Option, none,
  some, List, [], ◌∷◌, ◌++◌, arith, ltb, length, take, eq_iff, All, get_elem?, All-append, All-map,
  lt→ltb, Bool-cases, Option-cases, inl, inr,
}
use agmem.HashMap.{Counts, count_of, bump, count_of-bump}
use agmem.Occupancy.{sort_out, count_below}
use agmem.Occupancy.Gather.{Reads, Distinct, Distinct-middle}
use agmem.Occupancy.Spec.{occupied, over, kept, surplus}

module _ {ℓ} {T : Type ℓ} (key : T → Option String) (limit : ℕ) where
  -- The table holds, for each source, the rows seen so far, but never more than the limit.
  abbrev pub Tallies : Counts → List T → Type 0
  Tallies counts before = (s : String) → count_of counts s ≡ min limit (occupied key s before)

  Tallies-over :
      (counts : Counts) (before : List T) (row : T)
      → Tallies counts before
      → over key limit before row ≡ true
      → Tallies counts (row ∷ before)
  unfolding occupied over
  Tallies-over counts before row inv e s = elim (Option-cases (key row)) [
    | inl p ↦ ground (arith, inv s)
    | inr (source, p) ↦ ground (arith, inv s, eq_iff source s)
  ]

  Tallies-bump :
      (counts : Counts) (before : List T) (row : T) (source : String)
      → Tallies counts before
      → key row ≡ some source
      → over key limit before row ≡ false
      → Tallies (bump counts source) (row ∷ before)
  unfolding occupied over
  Tallies-bump counts before row source inv p e s =
      ground (arith, inv s, count_of-bump counts source s, eq_iff source s)

  Tallies-none :
      (counts : Counts) (before : List T) (row : T)
      → Tallies counts before
      → key row ≡ none
      → Tallies counts (row ∷ before)
  unfolding occupied
  Tallies-none counts before row inv p s = ground (arith, inv s)

  -- One turn of the loop, in the words of the specification.
  data Turn (counts : Counts) (before : List T) (row : T) : Type ℓ where
    defers :
        over key limit before row ≡ true
        → ((n : ℕ) (rows : List T)
            → sort_out key limit counts n (row ∷ rows) ≡ (
              (sort_out key limit counts (suc n) rows).0,
              n ∷ (sort_out key limit counts (suc n) rows).1,
            ))
        → Turn counts before row
    takes :
        (counts' : Counts)
        → over key limit before row ≡ false
        → Tallies counts' (row ∷ before)
        → ((n : ℕ) (rows : List T)
            → sort_out key limit counts n (row ∷ rows) ≡ (
              n ∷ (sort_out key limit counts' (suc n) rows).0,
              (sort_out key limit counts' (suc n) rows).1,
            ))
        → Turn counts before row

  turn :
      (counts : Counts) (before : List T) (row : T) → Tallies counts before → Turn counts before row
  unfolding sort_out over
  turn counts before row inv = elim (Option-cases (key row)) [
    | inl p ↦
        takes counts (rw (p, over)) (Tallies-none counts before row inv p)
          (λ n rows. rw (p, sort_out))
    | inr (source, p) ↦ elim (Bool-cases (ltb (count_of counts source) limit)) [
      | inl e ↦
          let under : over key limit before row ≡ false = ground (arith, inv source) in
          takes (bump counts source) under (Tallies-bump counts before row source inv p under)
            (λ n rows. rw (p, sort_out) (rw e))
      | inr e ↦ defers (ground (arith, inv source)) (λ n rows. rw (p, sort_out) (rw e))
    ]
  ]

  -- The loop from row `n` on reads the rows of the specification out of the whole page.
  pub sort_out-Reads :
      (all : List T) (counts : Counts) (before : List T) (n : ℕ) (rows : List T)
      → Tallies counts before
      → ((i : ℕ) → get_elem? all (n + i) ≡ get_elem? rows i)
      → Reads all (sort_out key limit counts n rows).0 (kept key limit before rows)
        × Reads all (sort_out key limit counts n rows).1 (surplus key limit before rows)
  unfolding kept surplus
  sort_out-Reads all counts before n [] inv h = unfold sort_out in (refl, refl)
  sort_out-Reads all counts before n (row ∷ rows) inv h = elim (turn counts before row inv) [
    | defers e step ↦
        let ih =
          sort_out-Reads all counts (row ∷ before) (suc n) rows
            (Tallies-over counts before row inv e) (shift) in
        rw (step, e) (ih.0, ap₂ ◌∷◌ here ih.1)
    | takes counts' e inv' step ↦
        let ih = sort_out-Reads all counts' (row ∷ before) (suc n) rows inv' (shift) in
        rw (step, e) (ap₂ ◌∷◌ here ih.0, ih.1)
  ]
    where
      shift : (i : ℕ) → get_elem? all (suc n + i) ≡ get_elem? rows i
      shift i = subst (λ j. get_elem? all j ≡ get_elem? rows i) (omega arith) (h (suc i))

      here : get_elem? all n ≡ some row
      here = subst (λ j. get_elem? all j ≡ some row) (omega arith) (h 0)

  pub sort_out-bounds :
      (counts : Counts) (before : List T) (n : ℕ) (rows : List T)
      → Tallies counts before
      → All (λ i. n ≤ i) (sort_out key limit counts n rows).0
        × All (λ i. n ≤ i) (sort_out key limit counts n rows).1
        × Distinct ((sort_out key limit counts n rows).0 ++ (sort_out key limit counts n rows).1)
  sort_out-bounds counts before n [] inv = unfold sort_out in (tt, tt, tt)
  sort_out-bounds counts before n (row ∷ rows) inv = elim (turn counts before row inv) [
    | defers e step ↦
        let ih =
          sort_out-bounds counts (row ∷ before) (suc n) rows
            (Tallies-over counts before row inv e) in
        rw step (
          weaken _ ih.0,
          (omega arith, weaken _ ih.1),
          Distinct-middle n _ _ (apart _ (All-append (λ i. suc n ≤ i) _ _ ih.0 ih.1)) ih.2,
        )
    | takes counts' e inv' step ↦
        let ih = sort_out-bounds counts' (row ∷ before) (suc n) rows inv' in
        rw step (
          (omega arith, weaken _ ih.0),
          weaken _ ih.1,
          (apart _ (All-append (λ i. suc n ≤ i) _ _ ih.0 ih.1), ih.2),
        )
  ]
    where
      weaken : (is : List ℕ) → All (λ i. suc n ≤ i) is → All (λ i. n ≤ i) is
      weaken is h = All-map (λ i. suc n ≤ i) (λ i. n ≤ i) is (λ i le. omega arith) h

      apart : (is : List ℕ) → All (λ i. suc n ≤ i) is → All (λ i. n ≢ i) is
      apart is h = All-map (λ i. suc n ≤ i) (λ i. n ≢ i) is (λ i le. omega arith) h

  count_below-none : (k : ℕ) (is : List ℕ) → All (λ i. k ≤ i) is → count_below k is ≡ 0
  unfolding count_below
  count_below-none k [] h = refl
  count_below-none k (i ∷ is) h = ground arith

  -- How many of the deferred rows stand above row `n + m`.
  pub count_below-sort_out :
      (m : ℕ) (counts : Counts) (before : List T) (n : ℕ) (rows : List T)
      → Tallies counts before
      → count_below (n + m) (sort_out key limit counts n rows).1
        ≡ length (surplus key limit before (take m rows))
  unfolding count_below surplus
  count_below-sort_out zero counts before n rows inv = count_below-none (n + 0) _ (
      All-map (λ i. n ≤ i) (λ i. n + 0 ≤ i) _ (λ i le. omega arith)
        (sort_out-bounds counts before n rows inv).1)
  count_below-sort_out (suc m) counts before n [] inv = unfold sort_out in refl
  count_below-sort_out (suc m) counts before n (row ∷ rows) inv =
      elim (turn counts before row inv) [
        | defers e step ↦
            let ih =
              count_below-sort_out m counts (row ∷ before) (suc n) rows
                (Tallies-over counts before row inv e) in
            rw (step, e, lt→ltb n (n + suc m) (omega arith)) (ap suc (at_row _ _ ih))
        | takes counts' e inv' step ↦
            let ih = count_below-sort_out m counts' (row ∷ before) (suc n) rows inv' in
            rw (step, e) (at_row _ _ ih)
      ]
    where
      at_row :
          (is : List ℕ) (c : ℕ) → count_below (suc n + m) is ≡ c → count_below (n + suc m) is ≡ c
      at_row is c h = subst (λ j. count_below j is ≡ c) (omega arith) h
