-- ===== src/Hop/Tail.antt =====
-- `reserve_tail` of tools/hop.rs: the last slot of a full page for a row of the hop.
use mathlib.Core.List.Perm
use agmem.Prelude.{
  ℕ, zero, suc, ◌+◌, ◌-◌, ◌≤◌, ◌≡◌, refl, sym, ap, ◌∙◌, Bool, true, false, ◌||◌, some, List, [],
  ◌∷◌, ◌++◌, arith, ltb, leb, length, take, drop, any, position, get_elem?, All, Perm,
  take-append-drop, Bool-cases, Option-cases, inl, inr, get_elem?-lt,
}
use agmem.Hop.Moves.{
  insert_at-perm, remove_at-perm, take-remove_at, take-insert_at, length-remove_at, position-some,
  position-none, get_elem?-drop, any-append-true,
}
use agmem.Hop.{reserve_tail, remove_at, insert_at}
use agmem.Sort.{IsSorted}

module _ {ℓ} {T : Type ℓ} where
  -- What the move makes of the rows: `k` is the size of the page and `row` waits at `i`.
  moved-perm :
      (k i : ℕ) (rows : List T) (row : T)
      → get_elem? rows i ≡ some row
      → Perm (insert_at k row (remove_at i rows)) rows
  moved-perm k i rows row h =
      Perm.trans (insert_at-perm k row (remove_at i rows)) (remove_at-perm i rows row h)

  take-moved :
      (j i : ℕ) (rows : List T) (row : T)
      → j ≤ i
      → get_elem? rows i ≡ some row
      → take (suc j) (insert_at j row (remove_at i rows)) ≡ take j rows ++ row ∷ []
  take-moved j i rows row le h =
      let inside = get_elem?-lt rows i h in
      take-insert_at j row (remove_at i rows) (omega (arith, length-remove_at i rows inside))
      ∙ ap (λ xs. xs ++ row ∷ []) (take-remove_at j i rows le)

  -- The three ways in which `reserve_tail` ends, on a page of `k` rows.
  data Reserved (ranked : List T) (k : ℕ) (is_hopped : T → Bool) : Type ℓ where
    left :
        reserve_tail ranked k is_hopped ≡ ranked
        → (ltb k 2 || leb (length ranked) k || any is_hopped (take k ranked)) ≡ true
        → Reserved ranked k is_hopped
    none_waits :
        reserve_tail ranked k is_hopped ≡ ranked
        → any is_hopped (drop k ranked) ≡ false
        → Reserved ranked k is_hopped
    moved :
        (j i : ℕ) (row : T)
        → k ≡ suc j
        → j ≤ i
        → get_elem? ranked i ≡ some row
        → is_hopped row ≡ true
        → reserve_tail ranked k is_hopped ≡ insert_at j row (remove_at i ranked)
        → Reserved ranked k is_hopped

  reserved : (ranked : List T) (k : ℕ) (is_hopped : T → Bool) → Reserved ranked k is_hopped
  unfolding reserve_tail
  reserved ranked k is_hopped =
      elim (Bool-cases (ltb k 2 || leb (length ranked) k || any is_hopped (take k ranked))) [
        | inl e ↦ left (rw e) e
        | inr e ↦ elim (Option-cases (position is_hopped (drop k ranked))) [
          | inl n ↦ none_waits (rw (e, n)) (position-none is_hopped (drop k ranked) n)
          | inr (w, n) ↦
              let found = position-some is_hopped (drop k ranked) w n in
              let there : get_elem? ranked (k + w) ≡ some found.0 =
                sym (get_elem?-drop k w ranked) ∙ found.1 in
              moved (k - 1) (k + w) found.0 (ground arith) (omega arith) there found.2
                (rw (e, n, there))
        ]
      ]

  -- Reserving the last slot loses, adds and repeats no row.
  pub reserve_tail-perm :
      (ranked : List T) (k : ℕ) (is_hopped : T → Bool)
      → Perm (reserve_tail ranked k is_hopped) ranked
  reserve_tail-perm ranked k is_hopped = elim (reserved ranked k is_hopped) [
    | left same _ ↦ rw same (Perm.refl ranked)
    | none_waits same _ ↦ rw same (Perm.refl ranked)
    | moved j i row _ _ there _ e ↦ rw e (moved-perm j i ranked row there)
  ]

  any-append : (p : T → Bool) (xs ys : List T) → any p (xs ++ ys) ≡ (any p xs || any p ys)
  any-append p [] ys = refl
  any-append p (x ∷ xs) ys = ground (arith, any-append p xs ys)

  any-take-drop :
      (p : T → Bool) (k : ℕ) (xs : List T)
      → any p xs ≡ true
      → any p (drop k xs) ≡ false
      → any p (take k xs) ≡ true
  any-take-drop p k xs h none_below =
      let split : any p (take k xs ++ drop k xs) ≡ true = rw (take-append-drop k xs) h in
      ground (arith, any-append p (take k xs) (drop k xs))

  take_all : (k : ℕ) (xs : List T) → length xs ≤ k → take k xs ≡ xs
  take_all zero [] h = refl
  take_all zero (x ∷ xs) h = absurd (omega arith)
  take_all (suc k) [] h = refl
  take_all (suc k) (x ∷ xs) h = ap (◌∷◌ x) (take_all k xs (omega arith))

  -- On a page of two rows or more: if any row of the pool is hop-voted, one stands on the page.
  pub reserve_tail_seats :
      (ranked : List T) (k : ℕ) (is_hopped : T → Bool)
      → 2 ≤ k
      → any is_hopped ranked ≡ true
      → any is_hopped (take k (reserve_tail ranked k is_hopped)) ≡ true
  reserve_tail_seats ranked k is_hopped two h = elim (reserved ranked k is_hopped) [
    | left same e ↦ rw same (elim (Bool-cases (any is_hopped (take k ranked))) [
      | inl seated ↦ seated
      | inr not_seated ↦
          let short : length ranked ≤ k = ground arith in rw (take_all k ranked short) h
    ])
    | none_waits same e ↦ rw same (any-take-drop is_hopped k ranked h e)
    | moved j i row size le there hopped e ↦
        rw (e, size, take-moved j i ranked row le there)
          (any-append-true is_hopped (take j ranked) row hopped)
  ]

  take-take-suc : (j : ℕ) (xs : List T) → take j (take (suc j) xs) ≡ take j xs
  take-take-suc zero xs = refl
  take-take-suc (suc j) [] = refl
  take-take-suc (suc j) (x ∷ xs) = ap (◌∷◌ x) (take-take-suc j xs)

  take-append_self : (j : ℕ) (xs ys : List T) → j ≤ length xs → take j (take j xs ++ ys) ≡ take j xs
  take-append_self zero xs ys h = refl
  take-append_self (suc j) [] ys h = absurd (omega arith)
  take-append_self (suc j) (x ∷ xs) ys h = ap (◌∷◌ x) (take-append_self j xs ys (omega arith))

  -- All slots of the page but the last stay as they were.
  reserve_tail_head :
      (ranked : List T) (k : ℕ) (is_hopped : T → Bool)
      → take (k - 1) (reserve_tail ranked k is_hopped) ≡ take (k - 1) ranked
  reserve_tail_head ranked k is_hopped = elim (reserved ranked k is_hopped) [
    | left same _ ↦ rw same
    | none_waits same _ ↦ rw same
    | moved j i row size le there _ e ↦
        let inside = get_elem?-lt ranked i there in
        let page = take-moved j i ranked row le there in
        let last : k - 1 ≡ j = omega arith in
        rw (e, last)
          (sym (take-take-suc j _)
            ∙ ap (take j) page
            ∙ take-append_self j ranked (row ∷ []) (omega arith))
  ]

module _ {ℓ} {T : Type ℓ} (leq : T → T → Bool) where
  All-get :
      (x : T) (xs : List T) (i : ℕ) (row : T)
      → All (λ y. leq x y ≡ true) xs
      → get_elem? xs i ≡ some row
      → leq x row ≡ true
  All-get x [] i row a h = cc
  All-get x (y ∷ ys) zero row a h = let same : y ≡ row = cc in rw (← same) a.0
  All-get x (y ∷ ys) (suc i) row a h = All-get x ys i row a.1 h

  All-take_snoc :
      (x : T) (j : ℕ) (xs : List T) (row : T)
      → All (λ y. leq x y ≡ true) xs
      → leq x row ≡ true
      → All (λ y. leq x y ≡ true) (take j xs ++ row ∷ [])
  All-take_snoc x zero xs row a h = (h, tt)
  All-take_snoc x (suc j) [] row a h = (h, tt)
  All-take_snoc x (suc j) (y ∷ ys) row a h = (a.0, All-take_snoc x j ys row a.1 h)

  take_snoc-IsSorted :
      (j i : ℕ) (xs : List T) (row : T)
      → IsSorted leq xs
      → j ≤ i
      → get_elem? xs i ≡ some row
      → IsSorted leq (take j xs ++ row ∷ [])
  take_snoc-IsSorted zero i xs row s le h = (tt, tt)
  take_snoc-IsSorted (suc j) i [] row s le h = cc
  take_snoc-IsSorted (suc j) zero (x ∷ xs) row s le h = absurd (omega arith)
  take_snoc-IsSorted (suc j) (suc i) (x ∷ xs) row s le h = (
    All-take_snoc x j xs row s.0 (All-get x xs i row s.0 h),
    take_snoc-IsSorted j i xs row s.1 (omega arith) h,
  )

  All-take :
      (x : T) (j : ℕ) (xs : List T)
      → All (λ y. leq x y ≡ true) xs
      → All (λ y. leq x y ≡ true) (take j xs)
  All-take x zero xs a = tt
  All-take x (suc j) [] a = tt
  All-take x (suc j) (y ∷ ys) a = (a.0, All-take x j ys a.1)

  take-IsSorted : (k : ℕ) (xs : List T) → IsSorted leq xs → IsSorted leq (take k xs)
  take-IsSorted zero xs s = tt
  take-IsSorted (suc k) [] s = tt
  take-IsSorted (suc k) (x ∷ xs) s = (All-take x k xs s.0, take-IsSorted k xs s.1)

  -- The page of a pool that is sorted by an order is sorted by it after the reserve.
  reserve_tail-IsSorted :
      (ranked : List T) (k : ℕ) (is_hopped : T → Bool)
      → IsSorted leq ranked
      → IsSorted leq (take k (reserve_tail ranked k is_hopped))
  reserve_tail-IsSorted ranked k is_hopped s = elim (reserved ranked k is_hopped) [
    | left same _ ↦ rw same (take-IsSorted k ranked s)
    | none_waits same _ ↦ rw same (take-IsSorted k ranked s)
    | moved j i row size le there _ e ↦
        rw (e, size, take-moved j i ranked row le there)
          (take_snoc-IsSorted j i ranked row s le there)
  ]

  -- On a pool that is sorted by an order: reserving the last slot loses, adds and repeats no row,
  -- leaves every slot of the page but the last as it was, and leaves the page sorted.
  pub reserve_tail_keeps :
      (ranked : List T) (k : ℕ) (is_hopped : T → Bool)
      → IsSorted leq ranked
      → Perm (reserve_tail ranked k is_hopped) ranked
        × (take (k - 1) (reserve_tail ranked k is_hopped) ≡ take (k - 1) ranked)
        × IsSorted leq (take k (reserve_tail ranked k is_hopped))
  reserve_tail_keeps ranked k is_hopped s = (
    reserve_tail-perm ranked k is_hopped,
    reserve_tail_head ranked k is_hopped,
    reserve_tail-IsSorted ranked k is_hopped s,
  )
