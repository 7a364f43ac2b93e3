-- ===== src/Occupancy/Page.antt =====
-- The page that `apply` (tools/occupancy.rs) leaves.
use agmem.Prelude.{
  ℕ, zero, suc, ◌-◌, ◌≤◌, ◌≡◌, ◌≢◌, refl, sym, ap, ap₂, subst, ◌∙◌, String, Option, none, some,
  List, [], ◌∷◌, ◌++◌, arith, leb, ◌==◌, length, take, eq_iff, All, get_elem?, map-take, map-append,
  Perm, Bool-cases, Option-cases, inl, inr,
}
use mathlib.Core.List.{perm_middle}
use mathlib.Core.List.Perm
use native.Mathlib.Nat.{zero-add}
use agmem.HashMap.{count_of}
use agmem.Occupancy.{sort_out, count_below, collect_sources, reslice, apply}
use agmem.Occupancy.Gather.{Reads, gather-Reads}
use agmem.Occupancy.Spec.{occupied, over, kept, surplus, names, capped_page}
use agmem.Occupancy.Loop.{Tallies, sort_out-Reads, sort_out-bounds, count_below-sort_out}

-- The surplus of a page's head is the head of the page's surplus.
take-surplus {ℓ} :
    {T : Type ℓ} (key : T → Option String) (limit : ℕ) (m : ℕ) (before rows : List T)
    → take (length (surplus key limit before (take m rows))) (surplus key limit before rows)
      ≡ surplus key limit before (take m rows)
unfolding surplus
take-surplus key limit zero before rows = refl
take-surplus key limit (suc m) before [] = refl
take-surplus key limit (suc m) before (row ∷ rows) = elim (Bool-cases (over key limit before row)) [
  | inl e ↦ rw e (ap (◌∷◌ row) (take-surplus key limit m (row ∷ before) rows))
  | inr e ↦ rw e (take-surplus key limit m (row ∷ before) rows)
]

module _ {ℓ} {T : Type ℓ} (key : T → Option String) where
  -- The loop over the sources does not panic on rows that have a key.
  collect_sources-Reads :
      (all : List T) (is : List ℕ) (rs : List T) (found : List String)
      → Reads all is rs
      → All (λ r. key r ≢ none) rs
      → collect_sources key all is found ≡ some (names key rs found)
  unfolding collect_sources names
  collect_sources-Reads all [] [] found h k = refl
  collect_sources-Reads all [] (r ∷ rs) found h k = cc
  collect_sources-Reads all (i ∷ is) [] found h k = cc
  collect_sources-Reads all (i ∷ is) (r ∷ rs) found h k =
      let head : get_elem? all i ≡ some r = cc in
      let tail : Reads all is rs = cc in
      elim (Option-cases (key r)) [
        | inl e ↦ absurd (k.0 e)
        | inr (source, e) ↦
            rw (head, collect_sources)
              (rw (e, collect_sources, names) (collect_sources-Reads all is rs _ tail k.1))
      ]

  surplus-keyed :
      (limit : ℕ) (before rows : List T) → All (λ r. key r ≢ none) (surplus key limit before rows)
  unfolding surplus over
  surplus-keyed limit before [] = tt
  surplus-keyed limit before (row ∷ rows) = elim (Option-cases (key row)) [
    | inl e ↦ rw (e, over) (surplus-keyed limit (row ∷ before) rows)
    | inr (source, e) ↦ elim (Bool-cases (leb limit (occupied key source before))) [
      | inl q ↦ rw (e, over) (rw q ((λ p. cc), surplus-keyed limit (row ∷ before) rows))
      | inr q ↦ rw (e, over) (rw q (surplus-keyed limit (row ∷ before) rows))
    ]
  ]

  Tallies-empty : (limit : ℕ) → Tallies key limit [] []
  Tallies-empty limit s = unfold count_of occupied in omega arith

  Reads-append :
      (all : List T) (is js : List ℕ) (rs qs : List T)
      → Reads all is rs
      → Reads all js qs
      → Reads all (is ++ js) (rs ++ qs)
  Reads-append all is js rs qs h k =
      map-append (get_elem? all) is js ∙ ap₂ ◌++◌ h k ∙ sym (map-append some rs qs)

  Reads-take :
      (all : List T) (n : ℕ) (is : List ℕ) (rs : List T)
      → Reads all is rs
      → Reads all (take n is) (take n rs)
  Reads-take all n is rs h =
      map-take (get_elem? all) n is ∙ ap (take n) h ∙ sym (map-take some n rs)

  reslice-eq :
      (ranked : List T) (k limit : ℕ)
      → let (taken, deferred) = sort_out key limit [] 0 ranked in
        let fallen = surplus key limit [] (take k ranked) in
        reslice key ranked (length fallen) taken deferred
        ≡ some (
          kept key limit [] ranked ++ surplus key limit [] ranked,
          some (record { displaced = length fallen; sources = names key fallen [] }),
        )
  unfolding reslice
  reslice-eq ranked k limit =
      let reads =
        sort_out-Reads key limit ranked [] [] 0 ranked (Tallies-empty limit)
          (λ i. ap (get_elem? ranked) (omega arith)) in
      let distinct = (sort_out-bounds key limit [] [] 0 ranked (Tallies-empty limit)).2 in
      let fallen = surplus key limit [] (take k ranked) in
      let head =
        subst (Reads ranked (take (length fallen) (sort_out key limit [] 0 ranked).1))
          (take-surplus key limit k [] ranked) (Reads-take ranked (length fallen) _ _ reads.1) in
      rw
        (collect_sources-Reads ranked _ _ [] head (surplus-keyed limit [] (take k ranked)), reslice)
        (rw (gather-Reads ranked _ _ distinct (Reads-append ranked _ _ _ _ reads.0 reads.1)))

  -- `apply` does not panic, and its result is that of `capped_page`: the pool as it came, and no
  -- report, while the page holds all of it or no row of the page is past its source's quota, and
  -- otherwise the rows within quota followed by those past it, each in order, with a report that
  -- counts the rows of the page that were past it and names their sources.
  pub apply-eq :
      (ranked : List T) (k limit : ℕ)
      → apply ranked k limit key ≡ some (capped_page key ranked k limit)
  unfolding apply
  apply-eq ranked k limit =
      let count : count_below k (sort_out key limit [] 0 ranked).1
          ≡ length (surplus key limit [] (take k ranked)) =
        subst
          (λ j.
            count_below j (sort_out key limit [] 0 ranked).1
            ≡ length (surplus key limit [] (take k ranked)))
          (zero-add k) (count_below-sort_out key limit k [] [] 0 ranked (Tallies-empty limit)) in
      elim (Bool-cases (leb (length ranked) k)) [
        | inl e ↦ rw e
        | inr e ↦ elim (Bool-cases (length (surplus key limit [] (take k ranked)) == 0)) [
          | inl z ↦ rw (e, count, z)
          | inr z ↦ rw (e, count, z) (reslice-eq ranked k limit)
        ]
      ]

module _ {ℓ} {T : Type ℓ} (key : T → Option String) (limit : ℕ) where
  -- Kept and surplus rows together are the rows.
  pub kept-surplus-perm :
      (before rows : List T)
      → Perm (kept key limit before rows ++ surplus key limit before rows) rows
  unfolding kept surplus
  kept-surplus-perm before [] = Perm.nil
  kept-surplus-perm before (row ∷ rows) =
      let ih = kept-surplus-perm (row ∷ before) rows in
      elim (Bool-cases (over key limit before row)) [
        | inl e ↦ rw e (Perm.trans (perm_middle _ _) (Perm.cons row ih))
        | inr e ↦ rw e (Perm.cons row ih)
      ]

  -- The rows kept of a source, with those that stood before, are at most the limit.
  pub occupied-kept :
      (s : String) (before rows : List T)
      → occupied key s (kept key limit before rows) ≤ limit - occupied key s before
  unfolding kept occupied over
  occupied-kept s before [] = omega arith
  occupied-kept s before (row ∷ rows) = elim (Option-cases (key row)) [
    | inl e ↦ ground (arith, occupied-kept s (row ∷ before) rows)
    | inr (source, e) ↦ ground (arith, occupied-kept s (row ∷ before) rows, eq_iff source s)
  ]

  pub occupied-take :
      (s : String) (n : ℕ) (rows : List T) → occupied key s (take n rows) ≤ occupied key s rows
  unfolding occupied
  occupied-take s zero rows = omega arith
  occupied-take s (suc n) [] = omega arith
  occupied-take s (suc n) (row ∷ rows) = ground (arith, occupied-take s n rows)

  -- A page with no surplus is kept whole.
  pub kept_whole :
      (before rows : List T)
      → surplus key limit before rows ≡ []
      → kept key limit before rows ≡ rows
  unfolding kept surplus
  kept_whole before [] h = refl
  kept_whole before (row ∷ rows) h = elim (Bool-cases (over key limit before row)) [
    | inl e ↦ ground arith
    | inr e ↦ rw e (ap (◌∷◌ row) (kept_whole (row ∷ before) rows (ground arith)))
  ]
