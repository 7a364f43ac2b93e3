-- ===== src/Occupancy/Quota.antt =====
-- What `recall` relies on of the cap (tools/occupancy.rs): no row is lost, no source fills the
-- page, and the page of a single source, which the cap reports although it moves nothing.
use mathlib.Core.List.Perm
use agmem.Prelude.{
  ℕ, zero, suc, ◌-◌, ◌≤◌, ◌<◌, ◌≡◌, refl, ap, subst, ◌∙◌, String, true, false, Option, some, List,
  [], ◌∷◌, ◌++◌, arith, leb, ◌==◌, length, le→leb, take, drop, length-take, length-drop, eq_iff,
  All, take-append-drop, Bool-cases, inl, inr, Perm,
}
use agmem.Occupancy.{apply, Resliced, cap}
use agmem.Occupancy.Spec.{occupied, over, kept, surplus, names, capped_page}
use agmem.Occupancy.Page.{apply-eq, kept-surplus-perm, occupied-kept, occupied-take, kept_whole}

-- A page of three rows or more is larger than its cap.
cap-lt : (k : ℕ) → 2 < k → cap k < k
unfolding cap
cap-lt k h = omega arith

module _ {ℓ} {T : Type ℓ} (key : T → Option String) where
  capped_page-perm :
      (ranked : List T) (k limit : ℕ) → Perm (capped_page key ranked k limit).0 ranked
  capped_page-perm ranked k limit = elim (Bool-cases (leb (length ranked) k)) [
    | inl e ↦ rw e Perm.rfl
    | inr e ↦ elim (Bool-cases (length (surplus key limit [] (take k ranked)) == 0)) [
      | inl z ↦ rw (e, z) Perm.rfl
      | inr z ↦ rw (e, z) (kept-surplus-perm key limit [] ranked)
    ]
  ]

  -- `apply` does not panic, and it drops, adds and repeats no row.
  pub apply-perm :
      (ranked : List T) (k limit : ℕ)
      → (rows : List T) × (cut : Option Resliced) × (apply ranked k limit key ≡ some (rows, cut))
        × Perm rows ranked
  apply-perm ranked k limit =
      let page = capped_page key ranked k limit in
      (page.0, page.1, apply-eq key ranked k limit, capped_page-perm ranked k limit)

  take-append : (k : ℕ) (xs ys : List T) → k ≤ length xs → take k (xs ++ ys) ≡ take k xs
  take-append zero xs ys h = refl
  take-append (suc k) [] ys h = absurd (omega arith)
  take-append (suc k) (x ∷ xs) ys h = ap (◌∷◌ x) (take-append k xs ys (omega arith))

  length-surplus-zero : (rows : List T) → (length rows == 0) ≡ true → rows ≡ []
  length-surplus-zero [] h = refl
  length-surplus-zero (row ∷ rows) h = absurd (ground arith)

  page_quota :
      (ranked : List T) (k limit : ℕ) (s : String)
      → k < length ranked
      → k ≤ length (kept key limit [] ranked)
      → occupied key s (take k (capped_page key ranked k limit).0) ≤ limit
  page_quota ranked k limit s more enough = elim (Bool-cases (leb (length ranked) k)) [
    | inl e ↦ absurd (ground arith)
    | inr e ↦ elim (Bool-cases (length (surplus key limit [] (take k ranked)) == 0)) [
      | inl z ↦
          rw (e, z)
            (subst (λ rows. occupied key s rows ≤ limit)
              (kept_whole key limit [] (take k ranked) (length-surplus-zero _ z))
              (unfold occupied in omega (arith, occupied-kept key limit s [] (take k ranked))))
      | inr z ↦
          rw (e, z, take-append k _ (surplus key limit [] ranked) enough)
            (unfold occupied in
              omega (
                arith,
                occupied-kept key limit s [] ranked,
                occupied-take key limit s k (kept key limit [] ranked),
              ))
    ]
  ]

  -- Where there are enough rows within quota, no source holds
  -- more than `limit` rows of the page that `apply` leaves.
  applied_quota :
      (ranked : List T) (k limit : ℕ) (s : String) (rows : List T) (cut : Option Resliced)
      → k < length ranked
      → k ≤ length (kept key limit [] ranked)
      → apply ranked k limit key ≡ some (rows, cut)
      → occupied key s (take k rows) ≤ limit
  applied_quota ranked k limit s rows cut more enough h =
      let same : capped_page key ranked k limit ≡ (rows, cut) = cc (apply-eq key ranked k limit) in
      subst (λ page. occupied key s (take k page.0) ≤ limit) same
        (page_quota ranked k limit s more enough)

  -- On a pool larger than the page, with enough rows within quota to fill it: `apply` does not
  -- panic, it drops, adds and repeats no row, and on the page that it leaves no source holds more
  -- than `limit` rows.
  pub apply_quota :
      (ranked : List T) (k limit : ℕ)
      → k < length ranked
      → k ≤ length (kept key limit [] ranked)
      → (rows : List T) × (cut : Option Resliced) × (apply ranked k limit key ≡ some (rows, cut))
        × Perm rows ranked
        × ((s : String) → occupied key s (take k rows) ≤ limit)
  apply_quota ranked k limit more enough =
      let (rows, cut, runs, perm) = apply-perm ranked k limit in
      (rows, cut, runs, perm, λ s. applied_quota ranked k limit s rows cut more enough runs)

  -- Every row comes from the source.
  abbrev pub AllFrom : String → List T → Type 0
  AllFrom s = All (λ row. key row ≡ some s)

  occupied-AllFrom :
      (s : String) (rows : List T) → AllFrom s rows → occupied key s rows ≡ length rows
  unfolding occupied
  occupied-AllFrom s [] h = refl
  occupied-AllFrom s (row ∷ rows) h = ground (arith, occupied-AllFrom s rows, eq_iff s s)

  module _ (limit : ℕ) (s : String) where
    over-AllFrom :
        (before : List T) (row : T)
        → AllFrom s before
        → key row ≡ some s
        → over key limit before row ≡ leb limit (length before)
    unfolding over
    over-AllFrom before row b h = rw (h, over, occupied-AllFrom s before b)

    kept-AllFrom :
        (m : ℕ) (before rows : List T)
        → limit - length before ≡ m
        → AllFrom s before
        → AllFrom s rows
        → (kept key limit before rows ≡ take m rows) × (surplus key limit before rows ≡ drop m rows)
    unfolding kept surplus
    kept-AllFrom zero before [] e b h = (refl, refl)
    kept-AllFrom (suc m) before [] e b h = (refl, refl)
    kept-AllFrom zero before (row ∷ rows) e b h =
        let ih = kept-AllFrom zero (row ∷ before) rows (omega arith) (h.0, b) h.1 in
        rw (over-AllFrom before row b h.0, le→leb limit (length before) (omega arith))
          (ih.0, ap (◌∷◌ row) (ih.1))
    kept-AllFrom (suc m) before (row ∷ rows) e b h =
        let ih = kept-AllFrom m (row ∷ before) rows (omega arith) (h.0, b) h.1 in
        let under : leb limit (length before) ≡ false = ground arith in
        rw (over-AllFrom before row b h.0, under) (ap (◌∷◌ row) ih.0, ih.1)

  AllFrom-take : (s : String) (n : ℕ) (rows : List T) → AllFrom s rows → AllFrom s (take n rows)
  AllFrom-take s zero rows h = tt
  AllFrom-take s (suc n) [] h = tt
  AllFrom-take s (suc n) (row ∷ rows) h = (h.0, AllFrom-take s n rows h.1)

  AllFrom-drop : (s : String) (n : ℕ) (rows : List T) → AllFrom s rows → AllFrom s (drop n rows)
  AllFrom-drop s zero rows h = h
  AllFrom-drop s (suc n) [] h = tt
  AllFrom-drop s (suc n) (row ∷ rows) h = AllFrom-drop s n rows h.1

  names_again : (s : String) (rows : List T) → AllFrom s rows → names key rows (s ∷ []) ≡ s ∷ []
  unfolding names
  names_again s [] h = refl
  names_again s (row ∷ rows) h = rw (h.0, names, (eq_iff s s).1 refl) (names_again s rows h.1)

  names-AllFrom :
      (s : String) (rows : List T) → 0 < length rows → AllFrom s rows → names key rows [] ≡ s ∷ []
  names-AllFrom s [] p h = absurd (omega arith)
  names-AllFrom s (row ∷ rows) p h = unfold names in rw (h.0, names) (names_again s rows h.1)

  -- A pool of one source comes back in its order, and still the answer reports that the page lost
  -- its rows past the cap: the source is named, with `k - cap k` rows as displaced.
  pub apply_one_source :
      (s : String) (ranked : List T) (k : ℕ)
      → 2 < k
      → k < length ranked
      → AllFrom s ranked
      → apply ranked k (cap k) key
        ≡ some (ranked, some (record { displaced = k - cap k; sources = s ∷ [] }))
  apply_one_source s ranked k three more h =
      let page = kept-AllFrom (cap k) s (cap k) [] ranked (omega arith) tt h in
      let head = AllFrom-take s k ranked h in
      let cut = (kept-AllFrom (cap k) s (cap k) [] (take k ranked) (omega arith) tt head).1 in
      let fallen = drop (cap k) (take k ranked) in
      let size : length fallen ≡ k - cap k =
        omega (arith, length-drop (cap k) (take k ranked), length-take k ranked) in
      let some_fell : 0 < length fallen = omega (arith, cap-lt k three) in
      let counted : (k - cap k == 0) ≡ false = ground (arith, cap-lt k three) in
      let large : leb (length ranked) k ≡ false = ground arith in
      apply-eq key ranked k (cap k)
      ∙ rw (
        large,
        cut,
        size,
        counted,
        page.0,
        page.1,
        take-append-drop (cap k) ranked,
        names-AllFrom s fallen some_fell (AllFrom-drop s (cap k) (take k ranked) head),
      )
