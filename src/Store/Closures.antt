-- ===== src/Store/Closures.antt =====
-- What a batch closes: `insert_batch_once` of crates/agmem-store/src/repo/write.rs.
use agmem.Prelude.{
  suc, String, ◌≡◌, refl, ap, ◌∙◌, Bool, true, false, not, List, [], ◌∷◌, ◌++◌, map, length,
  length-map, eq_iff, keep_if, arith, All, All-map, All-append, Bool-cases, inl, inr, subst,
}
use agmem.Model.{MemoryId}
use agmem.Hop.{contains}
use agmem.Store.{
  NewMemory, Batch, Written, created, duplicate, AlreadyClosed, BatchOutcome, BatchRow, WriteRow,
  Stored, got, lost, ◌>>=◌,
}
use agmem.Store.Insert.{
  Engine, row_or_lost, same_number, settle, written_maybe, is_closed, keep_live, closes,
  superseded_by, ids_superseded, insert_batch_once, written, written_all,
}

-- A step that went well, and the rest of the chain.
data Went {A B : Type 0} (m : Stored A) (f : A → Stored B) (b : B) : Type 0 where
  step : (a : A) → m ≡ got a → f a ≡ got b → Went m f b

got_step : {A B : Type 0} (m : Stored A) (f : A → Stored B) {b : B} → (m >>= f) ≡ got b → Went m f b
got_step (got a) f h = step a refl h
got_step (lost e) f h = cc

-- Open, and named by a claim of the batch.
abbrev pub MayClose : List AlreadyClosed → List MemoryId → MemoryId → Type 0
MayClose closed targets id = (is_closed closed id ≡ false) × (contains targets id ≡ true)

keep_if-All :
    (P : String → Type 0) (p : String → Bool) (xs : List String) → All P xs → All P (keep_if p xs)
keep_if-All P p [] h = tt
keep_if-All P p (x ∷ xs) h = elim (Bool-cases (p x)) [
  | inl e ↦ rw e (h.0, keep_if-All P p xs h.1)
  | inr e ↦ rw e (keep_if-All P p xs h.1)
]

all_contained : (xs : List String) → All (λ id. contains xs id ≡ true) xs
all_contained [] = tt
all_contained (x ∷ xs) = (
  ground (arith, eq_iff x x),
  All-map (λ id. contains xs id ≡ true) (λ id. contains (x ∷ xs) id ≡ true) xs
      (λ id h. ground (arith, h)) (all_contained xs),
)

All-both : (P : String → Type 0) (xs ys : List String) → All P (xs ++ ys) → All P xs × All P ys
All-both P [] ys h = (tt, h)
All-both P (x ∷ xs) ys h = let (l, r) = All-both P xs ys h.1 in ((h.0, l), r)

live_ids :
    (closed : List AlreadyClosed) (targets ids : List MemoryId)
    → All (λ id. contains targets id ≡ true) ids
    → All (MayClose closed targets) (keep_if (λ id. not (is_closed closed id)) ids)
live_ids closed targets [] h = tt
live_ids closed targets (id ∷ ids) h = elim (Bool-cases (is_closed closed id)) [
  | inl old ↦ rw old (live_ids closed targets ids h.1)
  | inr open_ ↦ rw open_ ((open_, h.0), live_ids closed targets ids h.1)
]

written_all-length :
    (rows : List WriteRow) (ws : List (Written String))
    → written_all rows ≡ got ws
    → length ws ≡ length rows
unfolding written_all
written_all-length [] ws h = let e : [] ≡ ws = cc in rw (← e) refl
written_all-length (row ∷ rows) ws h = elim (got_step (written row) _ h) [
  | step w _ rest ↦ elim (got_step (written_all rows) _ rest) [
    | step vs all end ↦
        let e : w ∷ vs ≡ ws = cc in rw (← e) (ap suc (written_all-length rows vs all))
  ]
]

module _ {F Time : Type 0} where
  closes-MayClose :
      (closed : List AlreadyClosed) (targets : List MemoryId) (m : NewMemory F Time)
      (w : Written MemoryId)
      → All (λ id. contains targets id ≡ true) m.supersedes
      → All (MayClose closed targets) (closes (keep_live closed m) w)
  unfolding closes
  closes-MayClose closed targets m (created id) h = live_ids closed targets m.supersedes h
  closes-MayClose closed targets m (duplicate dup) h =
      keep_if-All (MayClose closed targets) _ _ (live_ids closed targets m.supersedes h)

  superseded_by-MayClose :
      (closed : List AlreadyClosed) (targets : List MemoryId) (memories : List (NewMemory F Time))
      (outcomes : List (Written MemoryId))
      → All (λ id. contains targets id ≡ true) (ids_superseded memories)
      → All (MayClose closed targets) (superseded_by (map (keep_live closed) memories) outcomes)
  unfolding superseded_by
  superseded_by-MayClose closed targets [] outcomes h = tt
  superseded_by-MayClose closed targets (m ∷ memories) [] h = tt
  superseded_by-MayClose closed targets (m ∷ memories) (w ∷ outcomes) h =
      let (mine, rest) = All-both _ m.supersedes (ids_superseded memories) h in
      All-append (MayClose closed targets) (closes (keep_live closed m) w) _
        (closes-MayClose closed targets m w mine)
        (superseded_by-MayClose closed targets memories outcomes rest)

  settle_lem :
      (closed : List AlreadyClosed) (memories : List (NewMemory F Time)) (row : BatchRow)
      (outcome : BatchOutcome)
      → settle closed memories row ≡ got outcome
      → (length outcome.memories ≡ length memories)
        × (outcome.superseded ≡ superseded_by memories outcome.memories)
        × (outcome.already_closed ≡ closed)
  unfolding settle
  settle_lem closed memories row outcome h =
      elim (got_step (same_number row.memories memories) _ h) [
        | step _ counted h1 ↦ elim (got_step (written_all row.memories) _ h1) [
          | step outcomes all h2 ↦ elim (got_step (written_maybe row.episode) _ h2) [
            | step episode _ h3 ↦
                let made : BatchOutcome = record {
                  episode = episode;
                  memories = outcomes;
                  superseded = superseded_by memories outcomes;
                  already_closed = closed;
                } in
                let same : made ≡ outcome = cc in
                subst
                  (λ o.
                    (length o.memories ≡ length memories)
                    × (o.superseded ≡ superseded_by memories o.memories)
                    × (o.already_closed ≡ closed))
                  same
                  (
                    ground (arith, written_all-length row.memories outcomes all, counted),
                    refl,
                    refl,
                  )
          ]
        ]
      ]

  -- An attempt that goes well reports each claim of the batch once, and what it closes was open
  -- before, by the report, and is named by a claim of the batch.
  pub batch_closes :
      (engine : Engine F Time) (batch : Batch F Time) (outcome : BatchOutcome)
      → insert_batch_once engine batch ≡ got outcome
      → (length outcome.memories ≡ length batch.memories)
        × All (MayClose outcome.already_closed (ids_superseded batch.memories)) outcome.superseded
  unfolding insert_batch_once
  batch_closes engine batch outcome h =
      let targets = ids_superseded batch.memories in
      elim (got_step (engine.ensure_memories_exist batch.space targets) _ h) [
        | step _ _ h1 ↦ elim (got_step (engine.closed_memories batch.space targets) _ h1) [
          | step closed _ h2 ↦ elim (got_step (engine.commit _) _ h2) [
            | step reported _ h3 ↦ elim (got_step (row_or_lost reported) _ h3) [
              | step row _ h4 ↦
                  let memories = map (keep_live closed) batch.memories in
                  let (size, ids, report) = settle_lem closed memories row outcome h4 in
                  (
                    size ∙ length-map batch.memories (keep_live closed),
                    rw (ids, report)
                        (superseded_by-MayClose closed targets batch.memories outcome.memories
                          (all_contained targets)),
                  )
            ]
          ]
        ]
      ]
